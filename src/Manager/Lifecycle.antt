-- ===== src/Manager/Lifecycle.antt =====
-- How the key records of the storage change over the life of the server: generations that start,
-- and sessions that finish or fail. Other parties' goroutines interleave only between such steps,
-- since each holds the manager's lock.
pub mod OneLive
pub mod Transitions
pub mod SavedData
use tss_server.Prelude.{
  Text, text, ◌==◌, ==_iff, has_prefix-append, Bool, true, false, Bool-cases, Option, none, some,
  List, [], ◌∷◌, ◌++◌, Memᴰ, All, All-Memᴰ, Result, ok, err, ◌>>=◌, >>=-eq-ok, ok_injective,
  some_injective, if◌then◌else◌, ◌≡◌, ◌≢◌, ◌⊎◌, inl, inr, refl, sym, ap, ◌∙◌, subst, arith,
  has_prefix,
}
use tss_server.Prelude.Int.{ℤ}
use tss_server.Proto.{
  KeyData, PartyId, Time, KeyStatus, pending, ready, error, is_status, is_status→eq,
}
use tss_server.Storage.{db_key, key_prefix}
use tss_server.Storage.Contract.{LocalStorage}
use tss_server.Manager.{
  check_no_live, pending_key_data, check_and_set_key_gen_storage,
  compare_and_set_key_status_storage, compare_and_set,
}

-- A record that holds its key id: READY, or PENDING.
abbrev pub IsLive : KeyData → Type 0
IsLive d = (d.status ≡ ready) ⊎ (d.status ≡ pending)

pub check_no_live-ok :
    (ds : List KeyData) → check_no_live ds ≡ ok tt → All (λ (d : KeyData). ¬ IsLive d) ds
unfolding check_no_live
check_no_live-ok [] h = tt
check_no_live-ok (d ∷ ds) h = (ground arith, check_no_live-ok ds (ground arith))

pub check_no_live-ok_of :
    (ds : List KeyData) → All (λ (d : KeyData). ¬ IsLive d) ds → check_no_live ds ≡ ok tt
unfolding check_no_live
check_no_live-ok_of [] h = refl
check_no_live-ok_of (d ∷ ds) h = ground (arith, check_no_live-ok_of ds h.1, h.0)

pub has_prefix-db_key : (k j : Text) → has_prefix (db_key k j) (key_prefix k) ≡ true
unfolding db_key key_prefix
has_prefix-db_key k j = has_prefix-append (k ++ text ":") j

-- `n` is the record `o` with its outcome, READY or ERROR: no other field but these changes.
abbrev pub IsOutcome : KeyData → KeyData → Type 0
IsOutcome o n =
    (n ≡ record o {
      status = n.status;
      save_data_json = n.save_data_json;
      updated_time = n.updated_time;
      pubkey = n.pubkey;
    })
    × ((n.status ≡ ready) ⊎ (n.status ≡ error))

module _ (st : LocalStorage) where
  open st use {State, IsSound}

  -- A record stands in the storage under its own ids.
  abbrev pub Stored : State → KeyData → Type 0
  Stored s d =
      st.get_key_data_by_key_id_and_key_session_id s d.key_id d.key_session_id ≡ ok (some d)

  pub data Step (s t : State) : Type 0 where
    start :
        (key_id session_id : Text) (threshold : ℤ) (all_party_id : List PartyId) (now : Time)
        → check_and_set_key_gen_storage st s key_id session_id threshold all_party_id now ≡ ok t
        → Step s t
    finish :
        (key_id session_id pub_key json : Text) (now : Time)
        → compare_and_set_key_status_storage st s key_id session_id pub_key pending ready json now
          ≡ ok t
        → Step s t
    fail :
        (key_id session_id : Text) (now : Time)
        → compare_and_set_key_status_storage st s key_id session_id [] pending error [] now ≡ ok t
        → Step s t

  pub data Reach (s : State) : State → Type 0 where
    here : Reach s s
    next : {t u : State} → Reach s t → Step t u → Reach s u

  -- What one step does: it writes one record, and that is the next record of a free key id, or
  -- the next state of a PENDING record.
  pub data Writes (s : State) (n : KeyData) : Type 0 where
    fresh :
        n.status ≡ pending
        → ((d : KeyData)
            → Stored s d
            → has_prefix (db_key d.key_id d.key_session_id) (key_prefix n.key_id) ≡ true
            → ¬ IsLive d)
        → Writes s n
    moved : (o : KeyData) → Stored s o → o.status ≡ pending → IsOutcome o n → Writes s n

  start-Writes :
      (s t : State) (key_id session_id : Text) (threshold : ℤ) (all_party_id : List PartyId)
      (now : Time)
      → IsSound s
      → check_and_set_key_gen_storage st s key_id session_id threshold all_party_id now ≡ ok t
      → (n : KeyData) × (st.set_key_data s n ≡ ok t) × Writes s n
  unfolding check_and_set_key_gen_storage
  start-Writes s t key_id session_id threshold all_party_id now sound h =
      let (ds, hl, h1) = >>=-eq-ok (st.get_key_data_list_by_key_id s key_id) _ h in
      let (u, hc, h2) = >>=-eq-ok (check_no_live ds) _ h1 in
      (
        pending_key_data key_id session_id threshold all_party_id now,
        h2,
        fresh refl (λ d stored fits.
            All-Memᴰ (λ (x : KeyData). ¬ IsLive x) (check_no_live-ok ds hc)
              (st.stored_list s key_id ds d sound hl stored fits)),
      )

  moved_record : KeyData → Text → KeyStatus → Text → Time → KeyData
  moved_record o pub_key update json now = record o {
    status = update;
    save_data_json = json;
    updated_time = now;
    pubkey = pub_key;
  }

  cas-Writes :
      (s t : State) (key_id session_id pub_key json : Text) (update : KeyStatus) (now : Time)
      → (update ≡ ready) ⊎ (update ≡ error)
      → IsSound s
      → compare_and_set_key_status_storage st s key_id session_id pub_key pending update json now
        ≡ ok t
      → (n : KeyData) × (st.set_key_data s n ≡ ok t) × Writes s n
  unfolding compare_and_set_key_status_storage moved_record
  cas-Writes s t key_id session_id pub_key json update now which sound h =
      let (o, ho, h1) =
        >>=-eq-ok (st.get_key_data_by_key_id_and_key_session_id s key_id session_id) _ h in
      found o ho h1
    where
      found :
          (o : Option KeyData)
          → st.get_key_data_by_key_id_and_key_session_id s key_id session_id ≡ ok o
          → compare_and_set st s o pub_key pending update json now ≡ ok t
          → (n : KeyData) × (st.set_key_data s n ≡ ok t) × Writes s n
      found none ho h1 = cc
      found (some o) ho h1 = elim (Bool-cases (is_status o.status pending)) [
        | inl e ↦
            let own = st.get_own_key s key_id session_id o sound ho in
            (
              moved_record o pub_key update json now,
              rw e at h1,
              moved o (st.get_same_key s o.key_id o.key_session_id key_id session_id own ∙ ho)
                  (is_status→eq o.status pending e) (refl, which),
            )
        | inr e ↦ cc (rw e at h1)
      ]

  -- One step writes one record, which is fresh or moves a PENDING record on.
  pub Step-Writes :
      {s t : State}
      → IsSound s
      → Step s t
      → (n : KeyData) × (st.set_key_data s n ≡ ok t) × Writes s n
  Step-Writes {s} {t} sound (start key_id session_id threshold all_party_id now h) =
      start-Writes s t key_id session_id threshold all_party_id now sound h
  Step-Writes {s} {t} sound (finish key_id session_id pub_key json now h) =
      cas-Writes s t key_id session_id pub_key json ready now (inl refl) sound h
  Step-Writes {s} {t} sound (fail key_id session_id now h) =
      cas-Writes s t key_id session_id [] [] error now (inr refl) sound h

  pub Step-IsSound : {s t : State} → IsSound s → Step s t → IsSound t
  Step-IsSound {s} {t} sound step =
      let (n, h, w) = Step-Writes sound step in st.set-IsSound s t n sound h

  -- After a write of `n`, a stored record is `n`, or it stood there before under another key.
  pub after_write :
      (s t : State) (n d : KeyData)
      → st.set_key_data s n ≡ ok t
      → Stored t d
      → (d ≡ n)
        ⊎ (Stored s d × (db_key n.key_id n.key_session_id ≢ db_key d.key_id d.key_session_id))
  after_write s t n d h stored =
      let own = db_key n.key_id n.key_session_id in
      let key = db_key d.key_id d.key_session_id in
      let at : (if own == key
            then ok (some n)
            else st.get_key_data_by_key_id_and_key_session_id s d.key_id d.key_session_id)
          ≡ ok (some d) =
        sym (st.get-set s t n d.key_id d.key_session_id h) ∙ stored in
      elim (Bool-cases (own == key)) [
        | inl e ↦ inl (sym (some_injective (ok_injective (rw e at at))))
        | inr e ↦ inr (rw e at at, λ p. cc ((==_iff own key).1 p, e))
      ]

  pub Reach-IsSound : {s t : State} → IsSound s → Reach s t → IsSound t
  Reach-IsSound sound here = sound
  Reach-IsSound sound (next r step) = Step-IsSound (Reach-IsSound sound r) step

  pub Reach-trans : {s t u : State} → Reach s t → Reach t u → Reach s u
  Reach-trans first here = first
  Reach-trans first (next r step) = next (Reach-trans first r) step
