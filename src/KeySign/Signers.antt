-- ===== src/KeySign/Signers.antt =====
-- The parties that KeySign tells to sign.
use tss_server.Prelude.{
  ℕ, suc, map, ◌++◌, ◌+◌, ◌-◌, ◌^◌, ◌<◌, Text, ◌==◌, ==_refl, true, false, Bool-cases, inl, inr,
  List, [], ◌∷◌, length, All, ◌≡◌, refl, sym, ap, ◌∙◌, subst, arith, Memᴰ,
}
use mathlib.Core.List.Memᴰ
use tss_server.Proto.{PartyId}
use tss_server.P2p.{P2PStream}
use tss_server.P2p.StreamMap.{
  HasDistinctIds, HasDistinctKeys, HasId, HasId-apart, KeysAreIds, StreamMap, contains,
  stored-HasDistinctKeys, stored-KeysAreIds,
}
use tss_server.Prelude.Int.{pos}
use tss_server.KeySign.Ready.{Event, stream, proceed, wait_for_ready, sign_party_ids}
use tss_server.KeySign.Quorum.{wait_for_ready-proceed}

-- A party signs just when it is one of the key's parties and its stream is in the map.
pub sign_party_ids-Memᴰ :
    (ps : List PartyId) (m : StreamMap) (p : PartyId)
    → Memᴰ p (sign_party_ids ps m)
    → Memᴰ p ps × (contains m p.id ≡ true)
unfolding sign_party_ids
sign_party_ids-Memᴰ [] m p h = elim h [ ]
sign_party_ids-Memᴰ (q ∷ ps) m p h = elim (Bool-cases (contains m q.id)) [
  | inl has ↦ elim (Memᴰ.cases_cons (rw has at h)) [
    | inl e ↦ (Memᴰ.head e, ap (λ (x : PartyId). contains m x.id) e ∙ has)
    | inr n ↦ let (at, found) = sign_party_ids-Memᴰ ps m p n in (Memᴰ.tail at, found)
  ]
  | inr lacks ↦
      let (at, found) = sign_party_ids-Memᴰ ps m p (rw lacks at h) in (Memᴰ.tail at, found)
]

pub Memᴰ-sign_party_ids :
    (ps : List PartyId) (m : StreamMap) (p : PartyId)
    → Memᴰ p ps
    → contains m p.id ≡ true
    → Memᴰ p (sign_party_ids ps m)
unfolding sign_party_ids
Memᴰ-sign_party_ids [] m p at found = elim at [ ]
Memᴰ-sign_party_ids (q ∷ ps) m p at found = elim (Memᴰ.cases_cons at) [
  | inl e ↦ rw (sym (ap (λ (x : PartyId). contains m x.id) e) ∙ found) (Memᴰ.head e)
  | inr n ↦ elim (Bool-cases (contains m q.id)) [
    | inl has ↦ rw has (Memᴰ.tail (Memᴰ-sign_party_ids ps m p n found))
    | inr lacks ↦ rw lacks (Memᴰ-sign_party_ids ps m p n found)
  ]
]

sign_party_ids-empty : (ps : List PartyId) → length (sign_party_ids ps []) ≡ 0
unfolding sign_party_ids contains
sign_party_ids-empty [] = refl
sign_party_ids-empty (p ∷ ps) = sign_party_ids-empty ps

module _ (k : Text) (s : P2PStream) (m : StreamMap) where
  sign_party_ids_absent :
      (ps : List PartyId)
      → All (λ (q : PartyId). (k == q.id) ≡ false) ps
      → sign_party_ids ps ((k, s) ∷ m) ≡ sign_party_ids ps m
  unfolding sign_party_ids contains
  sign_party_ids_absent [] h = refl
  sign_party_ids_absent (p ∷ ps) h = rw (h.0, sign_party_ids_absent ps h.1)

  sign_party_ids_present :
      (ps : List PartyId)
      → HasDistinctIds ps
      → HasId k ps
      → contains m k ≡ false
      → length (sign_party_ids ps ((k, s) ∷ m)) ≡ suc (length (sign_party_ids ps m))
  unfolding sign_party_ids contains
  sign_party_ids_present [] d h lacks = elim h [ ]
  sign_party_ids_present (p ∷ ps) d (inl e) lacks =
      rw (subst (λ x. (k == x) ≡ true) e (==_refl k), sym (ap (contains m) e) ∙ lacks)
        (ap (λ l. suc (length l))
          (sign_party_ids_absent ps
            (subst (λ x. All (λ (q : PartyId). (x == q.id) ≡ false) ps) (sym e) d.0)))
  sign_party_ids_present (p ∷ ps) d (inr h) lacks =
      let rest = sign_party_ids_present ps d.1 h lacks in
      rw (HasId-apart k p.id ps d.0 h) (elim (Bool-cases (contains m p.id)) [
        | inl has ↦ rw has (ap suc rest)
        | inr other ↦ rw other rest
      ])

-- The keys of the map are ids of parties of the list, and none is there twice: then there is one
-- signer for each stream of the map.
pub length-sign_party_ids :
    (ps : List PartyId) (m : StreamMap)
    → HasDistinctIds ps
    → HasDistinctKeys m
    → KeysAreIds m ps
    → length (sign_party_ids ps m) ≡ length m
length-sign_party_ids ps [] d dk ids = sign_party_ids-empty ps
length-sign_party_ids ps ((k, s) ∷ m) d dk ids =
    sign_party_ids_present k s m ps d ids.0 dk.0 ∙ ap suc (length-sign_party_ids ps m d dk.1 ids.1)

-- A ready stream that the loop may take is one to a party of the key.
abbrev pub IsFromParty : List PartyId → Event → Type 0
IsFromParty ps (stream q) = HasId q.remote_party_id ps
IsFromParty ps _ = Unit {0}

taken-IsFromParty :
    (ps : List PartyId) (qs : List P2PStream) (left : List Event)
    → All (IsFromParty ps) (map stream qs ++ left)
    → All (λ (q : P2PStream). HasId q.remote_party_id ps) qs
taken-IsFromParty ps [] left h = tt
taken-IsFromParty ps (q ∷ qs) left h = (h.0, taken-IsFromParty ps qs left h.1)

-- Where the parties of a key have distinct ids, its threshold is t ≥ 0 and every ready stream is
-- one to a party of the key, KeySign tells exactly t + 1 parties to sign when it goes on, whatever
-- the order in which it finds the reports.
pub signers_exact :
    (ps : List PartyId) (t : ℕ) (es left : List Event) (m : StreamMap)
    → t < 2 ^ 31 - 1
    → HasDistinctIds ps
    → All (IsFromParty ps) es
    → wait_for_ready (pos t) es [] ≡ proceed m left
    → length (sign_party_ids ps m) ≡ t + 1
signers_exact ps t es left m bound d h w =
    let (taken, he, hm, hl) = wait_for_ready-proceed t bound es left [] m (omega arith) w in
    let own = taken-IsFromParty ps taken left (subst (All (IsFromParty ps)) he h) in
    length-sign_party_ids ps m d
      (subst HasDistinctKeys (sym hm) (stored-HasDistinctKeys [] taken tt))
      (subst (λ x. KeysAreIds x ps) (sym hm) (stored-KeysAreIds [] taken ps own tt))
    ∙ hl
