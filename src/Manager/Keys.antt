-- ===== src/Manager/Keys.antt =====
-- Which records a key id selects, and the latest READY one among them. Records are stored under
-- `keyId:keySessionId`, so a colon in a key id lets one key id select the records of another.
use tss_server.Prelude.{
  Text, text, has_prefix, true, Option, none, some, List, [], ◌∷◌, ◌++◌, Memᴰ, All, All-Memᴰ, ok,
  ◌>>=◌, ◌≡◌, ◌≢◌, refl, sym, subst, arith, ◌≤◌, has_prefix-append,
}
use mathlib.Core.List.Memᴰ
use mathlib.Core.List.{append_assoc}
use tss_server.Proto.{KeyData, ready}
use tss_server.Storage.{db_key, key_prefix}
use tss_server.Storage.Contract.{LocalStorage}
use tss_server.Manager.{latest_ready, get_latest_ready_key_data_by_key_id_from_storage}
use tss_server.Manager.Latest.{IsLatestReady, IsLatestReady-le, latest_ready-IsLatestReady}
use tss_server.Manager.Lifecycle.{Stored}

-- The record's key in the database begins with `keyId:`.
abbrev pub IsUnder : Text → KeyData → Type 0
IsUnder key_id d = has_prefix (db_key d.key_id d.key_session_id) (key_prefix key_id) ≡ true

abbrev pub NoColon : Text → Type 0
NoColon key_id = All (λ c. c ≢ b':') key_id

prefix_eq :
    (k i rest : Text)
    → NoColon k
    → NoColon i
    → has_prefix (i ++ text ":" ++ rest) (k ++ text ":") ≡ true
    → i ≡ k
unfolding has_prefix
prefix_eq [] [] rest nk ni h = refl
prefix_eq [] (x ∷ i) rest nk ni h = absurd (ni.0 (ground arith))
prefix_eq (y ∷ k) [] rest nk ni h = absurd (nk.0 (ground arith))
prefix_eq (y ∷ k) (x ∷ i) rest nk ni h =
    let e : x ≡ y = ground arith in cc (e, prefix_eq k i rest nk.1 ni.1 (ground arith))

-- Between key ids with no colon, a key id selects the records of its own.
pub IsUnder-own :
    (key_id : Text) (d : KeyData)
    → NoColon key_id
    → NoColon d.key_id
    → IsUnder key_id d
    → d.key_id ≡ key_id
unfolding db_key key_prefix
IsUnder-own key_id d nk nd h = prefix_eq key_id d.key_id d.key_session_id nk nd h

-- A key id selects the records of each key id that goes on from it behind a colon.
pub IsUnder-colon :
    (key_id more : Text) (d : KeyData) → d.key_id ≡ key_id ++ text ":" ++ more → IsUnder key_id d
unfolding db_key key_prefix
IsUnder-colon key_id more d e =
    rw
      (
        e,
        append_assoc (key_id ++ text ":") more (text ":"),
        append_assoc (key_id ++ text ":") (more ++ text ":") d.key_session_id,
      )
      (has_prefix-append (key_id ++ text ":") ((more ++ text ":") ++ d.key_session_id))

module _ (st : LocalStorage) where
  open st use {State, IsSound}

  -- The latest READY record that a key id selects.
  abbrev pub IsLatestUnder : State → Text → Option KeyData → Type 0
  IsLatestUnder s key_id none = (d : KeyData) → Stored st s d → IsUnder key_id d → d.status ≢ ready
  IsLatestUnder s key_id (some d) =
      Stored st s d
      × IsUnder key_id d
      × (d.status ≡ ready)
      × ((e : KeyData)
          → Stored st s e
          → IsUnder key_id e
          → e.status ≡ ready
          → e.created_time ≤ d.created_time)

  latest_under :
      (s : State) (key_id : Text) (ds : List KeyData) (o : Option KeyData)
      → IsSound s
      → st.get_key_data_list_by_key_id s key_id ≡ ok ds
      → IsLatestReady ds o
      → IsLatestUnder s key_id o
  latest_under s key_id ds none sound h spec = λ d stored fits.
      All-Memᴰ (λ (x : KeyData). x.status ≢ ready) spec
        (st.stored_list s key_id ds d sound h stored fits)
  latest_under s key_id ds (some d) sound h spec =
      let (before, after, e, r, hb, ha) = spec in
      let (stored, fits) =
        st.list_stored s key_id ds d sound h
          (subst (Memᴰ d) (sym e) (Memᴰ.append_right before (Memᴰ.head refl))) in
      (
        stored,
        fits,
        r,
        λ x sx fx rx. IsLatestReady-le ds d x spec (st.stored_list s key_id ds x sound h sx fx) rx,
      )

  -- On a sound storage getLatestReadyKeyDataByKeyIdFromStorage never fails. It returns nil just
  -- where no stored record that the key id selects is READY, and otherwise a stored READY record
  -- that the key id selects, such that no other of these was created later.
  pub get_latest_ready_lem :
      (s : State) (key_id : Text)
      → IsSound s
      → (o : Option KeyData) × (get_latest_ready_key_data_by_key_id_from_storage st s key_id ≡ ok o)
        × IsLatestUnder s key_id o
  unfolding get_latest_ready_key_data_by_key_id_from_storage
  get_latest_ready_lem s key_id sound =
      let (ds, h) = st.list_total s key_id sound in
      (
        latest_ready none ds,
        rw (h, ◌>>=◌),
        latest_under s key_id ds (latest_ready none ds) sound h (latest_ready-IsLatestReady ds),
      )
