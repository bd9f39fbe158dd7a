-- ===== src/Storage/Scan.antt =====
-- The scan loop of GetKeyDataListByKeyId against a reading of all entries that have the prefix.
use tss_server.Prelude.{
  Text, has_prefix, before, Bool-cases, has_prefix_convex, true, false, inl, inr, List, [], ◌∷◌,
  ◌++◌, All, Result, ok, err, ◌>>=◌, if◌then◌else◌, ◌≡◌, refl, sym, ap, ◌∙◌,
}
use mathlib.Core.List.{append_assoc, append-nil}
use tss_server.Proto.{KeyData}
use tss_server.Storage.External.{Db, Codec, IsAscending}
use tss_server.Storage.{scan, key_prefix, get_key_data_list_by_key_id}

-- All entries under a prefix, wherever they stand.
unfoldable pub under : Text → List (Text × Text) → List (Text × Text)
under prefix [] = []
under prefix ((k, v) ∷ rest) =
    let others = under prefix rest in if has_prefix k prefix then (k, v) ∷ others else others

pub under-none :
    (prefix : Text) (es : List (Text × Text))
    → All (λ (e : Text × Text). has_prefix e.0 prefix ≡ false) es
    → under prefix es ≡ []
unfolding under
under-none prefix [] h = refl
under-none prefix ((k, v) ∷ rest) h = rw h.0 (under-none prefix rest h.1)

-- Behind an entry past the prefix's block no entry has the prefix.
past_block :
    (prefix k : Text) (es : List (Text × Text))
    → has_prefix k prefix ≡ false
    → before k prefix ≡ false
    → All (λ (e : Text × Text). before k e.0 ≡ true) es
    → All (λ (e : Text × Text). has_prefix e.0 prefix ≡ false) es
past_block prefix k [] h b l = tt
past_block prefix k ((j, v) ∷ rest) h b l =
    (has_prefix_convex k j prefix h b l.0, past_block prefix k rest h b l.1)

module _ (codec : Codec KeyData) where
  open codec use {unmarshal}

  -- The records of some entries, in order; an error at the first that does not decode.
  unfoldable pub read_all : List (Text × Text) → Result (List KeyData)
  read_all [] = ok []
  read_all ((k, v) ∷ rest) = unmarshal v >>= λ d. read_all rest >>= λ ds. ok (d ∷ ds)

module _ (db : Db) (codec : Codec KeyData) where
  open codec use {unmarshal}

  next_entry :
      (r : Result KeyData) (f : KeyData → Result (List KeyData)) (m : Result (List KeyData))
      (acc : List KeyData)
      → ((d : KeyData) → f d ≡ (m >>= λ ds. ok ((acc ++ d ∷ []) ++ ds)))
      → (r >>= f) ≡ ((r >>= λ d. m >>= λ ds. ok (d ∷ ds)) >>= λ ds. ok (acc ++ ds))
  next_entry (err e) f m acc h = refl
  next_entry (ok d) f (err e) acc h = h d
  next_entry (ok d) f (ok ds) acc h = h d ∙ ap ok (append_assoc acc (d ∷ []) ds)

  scan-eq :
      (prefix : Text) (es : List (Text × Text)) (acc : List KeyData)
      → IsAscending es
      → All (λ (e : Text × Text). before e.0 prefix ≡ false) es
      → scan db codec prefix es acc ≡ (read_all codec (under prefix es) >>= λ ds. ok (acc ++ ds))
  unfolding scan under read_all
  scan-eq prefix [] acc a b = ap ok (sym (append-nil acc))
  scan-eq prefix ((k, v) ∷ rest) acc a b = elim (Bool-cases (has_prefix k prefix)) [
    | inl hit ↦ rw hit (
        next_entry (unmarshal v) _ (read_all codec (under prefix rest)) acc
          (λ d. scan-eq prefix rest (acc ++ d ∷ []) a.1 b.1))
    | inr miss ↦ rw miss (
        rw (under-none prefix rest (past_block prefix k rest miss b.0 a.0))
          (ap ok (sym (append-nil acc))))
  ]

  ok_append_nil : (r : Result (List KeyData)) → (r >>= λ ds. ok ([] ++ ds)) ≡ r
  ok_append_nil (ok ds) = refl
  ok_append_nil (err e) = refl

  -- GetKeyDataListByKeyId gives the records of all entries that the iterator has under `keyId:`,
  -- in the iterator's order, or the first decoding error among these: the early break of its loop
  -- leaves out no entry.
  pub get_key_data_list_by_key_id-reads_all :
      (s : db.State) (key_id : Text)
      → get_key_data_list_by_key_id db codec s key_id
        ≡ read_all codec (under (key_prefix key_id) (db.iterator s (key_prefix key_id)))
  unfolding get_key_data_list_by_key_id
  get_key_data_list_by_key_id-reads_all s key_id =
      scan-eq (key_prefix key_id) (db.iterator s (key_prefix key_id)) []
        (db.iterator-IsAscending s (key_prefix key_id)) (db.iterator_from s (key_prefix key_id))
      ∙ ok_append_nil
          (read_all codec (under (key_prefix key_id) (db.iterator s (key_prefix key_id))))
