-- ===== src/Tests/KeyDataCodec.antt =====
-- A codec of key records for the runs: the fields in order, lists behind their lengths.
use tss_server.Prelude.{
  ℕ, zero, suc, Text, Option, none, some, List, [], ◌∷◌, ◌++◌, Result, ok, err, ◌≡◌, refl, ap, sym,
  ok_injective, ◌∙◌, length,
}
use mathlib.Core.List.{append_assoc, append-nil}
use tss_server.Prelude.Int.{ℤ, pos, negsuc}
use tss_server.Proto.{KeyData, PartyId, KeyStatus, unknown, pending, ready, error}
use tss_server.Storage.External.{Codec}

record Coding (A : Type 0) : Type 0 where
  enc : A → Text
  dec : Text → Option (A × Text)
  dec-enc : (a : A) (rest : Text) → dec (enc a ++ rest) ≡ some (a, rest)

abbrev map_first : {A B : Type 0} → (A → B) → Option (A × Text) → Option (B × Text)
map_first f none = none
map_first f (some (a, rest)) = some (f a, rest)

abbrev then_second :
    {A B : Type 0} → (Text → Option (B × Text)) → Option (A × Text) → Option ((A × B) × Text)
then_second g none = none
then_second g (some (a, rest)) = map_first (λ b. (a, b)) (g rest)

number_dec : Text → Option (ℕ × Text)
number_dec [] = none
number_dec (n ∷ rest) = some (n, rest)

abbrev number : Coding ℕ
unfolding number_dec
number = record { enc = λ n. n ∷ []; dec = number_dec; dec-enc = λ n rest. refl }

module _ {A B : Type 0} (f : A → B) (g : B → A) (back : (b : B) → f (g b) ≡ b) (c : Coding A) where
  via : Coding B
  via = record {
    enc = λ b. c.enc (g b);
    dec = λ t. map_first f (c.dec t);
    dec-enc = λ b rest. ap (map_first f) (c.dec-enc (g b) rest) ∙ ap (λ x. some (x, rest)) (back b);
  }

module _ {A B : Type 0} (c : Coding A) (d : Coding B) where
  both_dec :
      (a : A) (b : B) (rest : Text)
      → then_second d.dec (c.dec ((c.enc a ++ d.enc b) ++ rest)) ≡ some ((a, b), rest)
  both_dec a b rest =
      ap (λ t. then_second d.dec (c.dec t)) (append_assoc (c.enc a) (d.enc b) rest)
      ∙ ap (then_second d.dec) (c.dec-enc a (d.enc b ++ rest))
      ∙ ap (map_first (λ y. (a, y))) (d.dec-enc b rest)

  both : Coding (A × B)
  both = record {
    enc = λ (p : A × B). c.enc p.0 ++ d.enc p.1;
    dec = λ t. then_second d.dec (c.dec t);
    dec-enc = λ p rest. both_dec p.0 p.1 rest;
  }

module _ {A : Type 0} (c : Coding A) where
  items_enc : List A → Text
  items_enc [] = []
  items_enc (x ∷ xs) = c.enc x ++ items_enc xs

  items_dec : ℕ → Text → Option (List A × Text)
  items_dec zero t = some ([], t)
  items_dec (suc n) t =
      map_first (λ (p : A × List A). p.0 ∷ p.1) (then_second (items_dec n) (c.dec t))

  items_dec-enc :
      (xs : List A) (rest : Text) → items_dec (length xs) (items_enc xs ++ rest) ≡ some (xs, rest)
  unfolding items_enc items_dec
  items_dec-enc [] rest = refl
  items_dec-enc (x ∷ xs) rest =
      ap
        (λ t.
          map_first (λ (p : A × List A). p.0 ∷ p.1) (then_second (items_dec (length xs)) (c.dec t)))
        (append_assoc (c.enc x) (items_enc xs) rest)
      ∙ ap (λ o. map_first (λ (p : A × List A). p.0 ∷ p.1) (then_second (items_dec (length xs)) o))
          (c.dec-enc x (items_enc xs ++ rest))
      ∙ ap (λ o. map_first (λ (p : A × List A). p.0 ∷ p.1) (map_first (λ b. (x, b)) o))
          (items_dec-enc xs rest)

  counted_dec : Text → Option (List A × Text)
  counted_dec [] = none
  counted_dec (n ∷ t) = items_dec n t

  items : Coding (List A)
  unfolding counted_dec items_dec items_enc
  items = record {
    enc = λ xs. length xs ∷ items_enc xs;
    dec = counted_dec;
    dec-enc = items_dec-enc;
  }

status_of : ℕ → KeyStatus
status_of zero = unknown
status_of (suc zero) = pending
status_of (suc (suc zero)) = ready
status_of (suc (suc (suc n))) = error

number_of : KeyStatus → ℕ
number_of unknown = 0
number_of pending = 1
number_of ready = 2
number_of error = 3

status_of-number_of : (s : KeyStatus) → status_of (number_of s) ≡ s
unfolding status_of number_of
status_of-number_of unknown = refl
status_of-number_of pending = refl
status_of-number_of ready = refl
status_of-number_of error = refl

signed_of : ℕ × ℕ → ℤ
signed_of (zero, n) = pos n
signed_of (suc s, n) = negsuc n

parts_of : ℤ → ℕ × ℕ
parts_of (pos n) = (0, n)
parts_of (negsuc n) = (1, n)

signed_of-parts_of : (z : ℤ) → signed_of (parts_of z) ≡ z
unfolding signed_of parts_of
signed_of-parts_of (pos n) = refl
signed_of-parts_of (negsuc n) = refl

bytes : Coding Text
bytes = items number

party : Coding PartyId
party =
    via (λ (p : Text × (Text × Text)). record { id = p.0; moniker = p.1.0; key = p.1.1 })
      (λ p. (p.id, (p.moniker, p.key))) (λ p. refl) (both bytes (both bytes bytes))

abbrev Fields : Type 0
Fields = Text × (Text × (ℤ × (List PartyId × (Text × (KeyStatus × (Text × (ℕ × ℕ)))))))

signed : Coding ℤ
signed = via signed_of parts_of signed_of-parts_of (both number number)

status : Coding KeyStatus
status = via status_of number_of status_of-number_of number

fields : Coding Fields
fields = both bytes (
    both bytes (
      both signed
        (both (items party) (both bytes (both status (both bytes (both number number)))))))

key_data_of : Fields → KeyData
key_data_of (k, (j, (t, (ps, (pk, (st, (json, (c, u)))))))) = record {
  key_id = k;
  key_session_id = j;
  threshold = t;
  all_party_id = ps;
  pubkey = pk;
  status = st;
  save_data_json = json;
  created_time = c;
  updated_time = u;
}

fields_of : KeyData → Fields
fields_of d = (
  d.key_id,
  (
    d.key_session_id,
    (
      d.threshold,
      (
        d.all_party_id,
        (d.pubkey, (d.status, (d.save_data_json, (d.created_time, d.updated_time)))),
      ),
    ),
  ),
)

key_data_of-fields_of : (d : KeyData) → key_data_of (fields_of d) ≡ d
unfolding key_data_of fields_of
key_data_of-fields_of d = refl

key_data : Coding KeyData
key_data = via key_data_of fields_of key_data_of-fields_of fields

read : Option (KeyData × Text) → Result KeyData
read none = err "proto: cannot parse invalid wire-format data"
read (some (d, rest)) = ok d

key_data-codec :
    (d : KeyData) (bs : Text) → ok (key_data.enc d) ≡ ok bs → read (key_data.dec bs) ≡ ok d
unfolding read
key_data-codec d bs h =
    ap (λ t. read (key_data.dec t)) (sym (ok_injective h) ∙ sym (append-nil (key_data.enc d)))
    ∙ ap read (key_data.dec-enc d [])

unfoldable pub key_data_codec : Codec KeyData
unfolding key_data_of-fields_of both_dec items_dec-enc number signed_of-parts_of status_of-number_of
    number_dec counted_dec items_dec items_enc key_data-codec read key_data fields signed status
    party bytes items both via key_data_of fields_of signed_of parts_of status_of number_of
key_data_codec = record {
  marshal = λ d. ok (key_data.enc d);
  unmarshal = λ bs. read (key_data.dec bs);
  unmarshal-marshal = key_data-codec;
}
