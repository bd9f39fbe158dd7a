-- ===== src/Storage/LevelDb.antt =====
-- LevelDBStorage keeps the contract of LocalStorage, over any database and codec.
use tss_server.Prelude.{
  Text, has_prefix, ◌==◌, ==_iff, Bool, true, false, Bool-cases, inl, inr, Option, none, some, List,
  Memᴰ, Result, ok, ◌>>=◌, >>=-eq-ok, ok_injective, some_injective, has_prefix-not_before,
  if◌then◌else◌, ◌≡◌, refl, sym, ap, ◌∙◌, subst,
}
use tss_server.Proto.{KeyData}
use tss_server.Storage.{
  db_key, key_prefix, decode, get_key_data_list_by_key_id,
  get_key_data_by_key_id_and_key_session_id, set_key_data, delete_key_data,
}
use tss_server.Storage.External.{Db, Codec}
use tss_server.Storage.Scan.{under, get_key_data_list_by_key_id-reads_all}
use tss_server.Storage.Reading.{
  under-Memᴰ, Memᴰ-under, read_all_total, read_all-Memᴰ, Memᴰ-read_all,
}
use tss_server.Storage.Contract.{LocalStorage}

module _ (db : Db) (codec : Codec KeyData) where
  open db use {State}
  open codec use {marshal, unmarshal}

  abbrev pub get : State → Text → Text → Result (Option KeyData)
  get = get_key_data_by_key_id_and_key_session_id db codec

  abbrev pub list : State → Text → Result (List KeyData)
  list = get_key_data_list_by_key_id db codec

  -- An entry decodes to a record of its key.
  abbrev pub IsOwn : Text → Text → Type 0
  IsOwn k v = (d : KeyData) × (unmarshal v ≡ ok d) × (k ≡ db_key d.key_id d.key_session_id)

  abbrev pub IsSound : State → Type 0
  IsSound s = (k v : Text) → db.get s k ≡ some v → IsOwn k v

  decode-some :
      (o : Option Text) (d : KeyData)
      → decode db codec o ≡ ok (some d)
      → (v : Text) × (o ≡ some v) × (unmarshal v ≡ ok d)
  unfolding decode
  decode-some none d h = cc
  decode-some (some v) d h =
      let (d', hd, he) = >>=-eq-ok (unmarshal v) _ h in
      (v, refl, hd ∙ ap ok (some_injective (ok_injective he)))

  pub get_total : (s : State) (k j : Text) → IsSound s → (o : Option KeyData) × (get s k j ≡ ok o)
  unfolding get_key_data_by_key_id_and_key_session_id
  get_total s k j sound = from (db.get s (db_key k j)) (sound (db_key k j))
    where
      from :
          (o : Option Text)
          → ((v : Text) → o ≡ some v → IsOwn (db_key k j) v)
          → (r : Option KeyData) × (decode db codec o ≡ ok r)
      from none f = (none, refl)
      from (some v) f = let own = f v refl in (some own.0, rw own.1)

  pub get_own_key :
      (s : State) (k j : Text) (d : KeyData)
      → IsSound s
      → get s k j ≡ ok (some d)
      → db_key d.key_id d.key_session_id ≡ db_key k j
  unfolding get_key_data_by_key_id_and_key_session_id
  get_own_key s k j d sound h =
      let (v, hv, hd) = decode-some (db.get s (db_key k j)) d h in
      let (d', hd', key) = sound (db_key k j) v hv in
      let same : d ≡ d' = ok_injective (sym hd ∙ hd') in
      ap (λ (x : KeyData). db_key x.key_id x.key_session_id) same ∙ sym key

  pub get_same_key :
      (s : State) (k j k' j' : Text) → db_key k j ≡ db_key k' j' → get s k j ≡ get s k' j'
  unfolding get_key_data_by_key_id_and_key_session_id
  get_same_key s k j k' j' e = ap (λ x. decode db codec (db.get s x)) e

  decode_if :
      (b : Bool) (o p : Option Text)
      → decode db codec (if b then o else p) ≡ (if b then decode db codec o else decode db codec p)
  decode_if true o p = refl
  decode_if false o p = refl

  pub get-set :
      (s t : State) (d : KeyData) (k j : Text)
      → set_key_data db codec s d ≡ ok t
      → get t k j
        ≡ (if db_key d.key_id d.key_session_id == db_key k j then ok (some d) else get s k j)
  unfolding get_key_data_by_key_id_and_key_session_id set_key_data decode
  get-set s t d k j h =
      let (bs, hm, ht) = >>=-eq-ok (marshal d) _ h in
      let own = db_key d.key_id d.key_session_id in
      rw (← ok_injective ht, db.get-set_sync s own (db_key k j) bs)
        (decode_if (own == db_key k j) (some bs) (db.get s (db_key k j))
          ∙ ap (λ r. if own == db_key k j then r else get s k j)
              (rw (codec.unmarshal-marshal d bs hm, ◌>>=◌)))

  pub get-delete :
      (s t : State) (i l k j : Text)
      → delete_key_data db codec s i l ≡ ok t
      → get t k j ≡ (if db_key i l == db_key k j then ok none else get s k j)
  unfolding get_key_data_by_key_id_and_key_session_id delete_key_data decode
  get-delete s t i l k j h =
      rw (← ok_injective h, db.get-delete_sync s (db_key i l) (db_key k j))
        (decode_if (db_key i l == db_key k j) none (db.get s (db_key k j)))

  pub set-IsSound :
      (s t : State) (d : KeyData) → IsSound s → set_key_data db codec s d ≡ ok t → IsSound t
  unfolding set_key_data
  set-IsSound s t d sound h k v stored =
      let (bs, hm, ht) = >>=-eq-ok (marshal d) _ h in
      let own = db_key d.key_id d.key_session_id in
      let at : (if own == k then some bs else db.get s k) ≡ some v =
        sym (db.get-set_sync s own k bs) ∙ ap (λ x. db.get x k) (ok_injective ht) ∙ stored in
      elim (Bool-cases (own == k)) [
        | inl e ↦ (
          d,
          subst (λ x. unmarshal x ≡ ok d) (some_injective (rw e at at))
              (codec.unmarshal-marshal d bs hm),
          sym ((==_iff own k).0 e),
        )
        | inr e ↦ sound k v (rw e at at)
      ]

  pub delete-IsSound :
      (s t : State) (i l : Text) → IsSound s → delete_key_data db codec s i l ≡ ok t → IsSound t
  unfolding delete_key_data
  delete-IsSound s t i l sound h k v stored =
      let at : (if db_key i l == k then none else db.get s k) ≡ some v =
        sym (db.get-delete_sync s (db_key i l) k)
        ∙ ap (λ x. db.get x k) (ok_injective h)
        ∙ stored in
      elim (Bool-cases (db_key i l == k)) [
        | inl e ↦ let gone : none ≡ some v = rw e at at in cc gone
        | inr e ↦ sound k v (rw e at at)
      ]

  -- The iterator's entries under a key id's prefix are those stored under it.
  entry-IsOwn :
      (s : State) (key_id : Text) (e : Text × Text)
      → IsSound s
      → Memᴰ e (under (key_prefix key_id) (db.iterator s (key_prefix key_id)))
      → (db.get s e.0 ≡ some e.1) × IsOwn e.0 e.1
  entry-IsOwn s key_id e sound m =
      let stored =
        db.iterator_stored s (key_prefix key_id) e.0 e.1
          (under-Memᴰ (key_prefix key_id) (db.iterator s (key_prefix key_id)) e m).0 in
      (stored, sound e.0 e.1 stored)

  pub list_total :
      (s : State) (key_id : Text) → IsSound s → (ds : List KeyData) × (list s key_id ≡ ok ds)
  list_total s key_id sound =
      let (ds, h) =
        read_all_total codec (under (key_prefix key_id) (db.iterator s (key_prefix key_id)))
          (λ e m. let own = (entry-IsOwn s key_id e sound m).1 in (own.0, own.1)) in
      (ds, get_key_data_list_by_key_id-reads_all db codec s key_id ∙ h)

  pub list_stored :
      (s : State) (key_id : Text) (ds : List KeyData) (d : KeyData)
      → IsSound s
      → list s key_id ≡ ok ds
      → Memᴰ d ds
      → (get s d.key_id d.key_session_id ≡ ok (some d))
        × (has_prefix (db_key d.key_id d.key_session_id) (key_prefix key_id) ≡ true)
  unfolding get_key_data_by_key_id_and_key_session_id decode
  list_stored s key_id ds d sound h m =
      let us = under (key_prefix key_id) (db.iterator s (key_prefix key_id)) in
      let (e, me, hd) =
        read_all-Memᴰ codec us ds d
          (sym (get_key_data_list_by_key_id-reads_all db codec s key_id) ∙ h) m in
      let (at, (d', hd', key)) = entry-IsOwn s key_id e sound me in
      let same : d' ≡ d = ok_injective (sym hd' ∙ hd) in
      let own : e.0 ≡ db_key d.key_id d.key_session_id =
        key ∙ ap (λ (x : KeyData). db_key x.key_id x.key_session_id) same in
      let fits = (under-Memᴰ (key_prefix key_id) (db.iterator s (key_prefix key_id)) e me).1 in
      (rw (← own, at, ◌>>=◌, hd), rw (← own) fits)

  pub stored_list :
      (s : State) (key_id : Text) (ds : List KeyData) (d : KeyData)
      → IsSound s
      → list s key_id ≡ ok ds
      → get s d.key_id d.key_session_id ≡ ok (some d)
      → has_prefix (db_key d.key_id d.key_session_id) (key_prefix key_id) ≡ true
      → Memᴰ d ds
  unfolding get_key_data_by_key_id_and_key_session_id
  stored_list s key_id ds d sound h g fits =
      let prefix = key_prefix key_id in
      let own = db_key d.key_id d.key_session_id in
      let (v, at, hd) = decode-some (db.get s own) d g in
      Memᴰ-read_all codec (under prefix (db.iterator s prefix)) ds (own, v) d
        (sym (get_key_data_list_by_key_id-reads_all db codec s key_id) ∙ h)
        (Memᴰ-under prefix (db.iterator s prefix) (own, v)
          (db.stored_iterator s prefix own v at (has_prefix-not_before own prefix fits)) fits)
        hd

  -- The interface, as LevelDBStorage implements it.
  abbrev pub level_db_storage : LocalStorage
  level_db_storage = record {
    State = State;
    get_key_data_list_by_key_id = list;
    get_key_data_by_key_id_and_key_session_id = get;
    set_key_data = set_key_data db codec;
    delete_key_data = delete_key_data db codec;
    IsSound = IsSound;
    list_total = list_total;
    get_total = get_total;
    get_own_key = get_own_key;
    get_same_key = get_same_key;
    get-set = get-set;
    get-delete = get-delete;
    list_stored = list_stored;
    stored_list = stored_list;
    set-IsSound = set-IsSound;
    delete-IsSound = delete-IsSound;
  }
