-- ===== src/Session/Parties.antt =====
-- The parties of a session by their ids: who is in the list is found among the sorted ones.
use tss_server.Prelude.{
  Text, ◌==◌, ==_iff, Bool-cases, inl, inr, Option, none, some, List, [], ◌∷◌, map, Memᴰ,
  some_injective, ◌≡◌, refl, sym, ap, ◌∙◌,
}
use tss_server.Proto
use tss_server.P2p.StreamMap.{HasId}
use tss_server.Session.{TssLib, convert_to_tss_party_id, find_party, sorted_parties}

module _ (lib : TssLib) where
  find_party-Memᴰ :
      (ps : List lib.PartyId) (p : lib.PartyId) (id : Text)
      → Memᴰ p ps
      → lib.get_id p ≡ id
      → (q : lib.PartyId) × (find_party lib ps id ≡ some q)
  unfolding find_party
  find_party-Memᴰ [] p id at own = elim at [ ]
  find_party-Memᴰ (x ∷ ps) p id (Memᴰ.head same) own = by_rest (find_party lib ps id) refl
    where
      by_rest :
          (o : Option lib.PartyId)
          → find_party lib ps id ≡ o
          → (q : lib.PartyId) × (find_party lib (x ∷ ps) id ≡ some q)
      by_rest (some q) h = (q, rw (h, find_party))
      by_rest none h =
          (x, rw (h, find_party, (==_iff (lib.get_id x) id).1 (ap lib.get_id (sym same) ∙ own)))
  find_party-Memᴰ (x ∷ ps) p id (Memᴰ.tail at) own =
      let (q, found) = find_party-Memᴰ ps p id at own in (q, rw (found, find_party))

  converted-Memᴰ :
      (ps : List Proto.PartyId) (id : Text)
      → HasId id ps
      → (p : lib.PartyId) × Memᴰ p (map (convert_to_tss_party_id lib) ps) × (lib.get_id p ≡ id)
  unfolding convert_to_tss_party_id
  converted-Memᴰ [] id at = elim at [ ]
  converted-Memᴰ (p ∷ ps) id (inl same) = (
    convert_to_tss_party_id lib p,
    Memᴰ.head refl,
    lib.get_id-new_party_id p.id p.moniker _ ∙ sym same,
  )
  converted-Memᴰ (p ∷ ps) id (inr at) =
      let (q, among, own) = converted-Memᴰ ps id at in (q, Memᴰ.tail among, own)

  -- A party of the list is found among the sorted parties by its id.
  pub find_party-sorted :
      (ps : List Proto.PartyId) (id : Text)
      → HasId id ps
      → (q : lib.PartyId) × (find_party lib (sorted_parties lib ps) id ≡ some q)
  find_party-sorted ps id at =
      let (p, among, own) = converted-Memᴰ ps id at in
      find_party-Memᴰ (sorted_parties lib ps) p id
        (lib.sort-keeps (map (convert_to_tss_party_id lib) ps) p among) own

  -- The party that is found has the id.
  pub find_party-own :
      (ps : List lib.PartyId) (id : Text) (q : lib.PartyId)
      → find_party lib ps id ≡ some q
      → lib.get_id q ≡ id
  unfolding find_party
  find_party-own [] id q found = cc
  find_party-own (p ∷ ps) id q found = by_rest (find_party-own ps id q) (find_party lib ps id) refl
    where
      by_rest :
          (find_party lib ps id ≡ some q → lib.get_id q ≡ id)
          → (o : Option lib.PartyId) → find_party lib ps id ≡ o
          → lib.get_id q ≡ id
      by_rest later (some r) h = later (h ∙ rw h at found)
      by_rest later none h = elim (Bool-cases (lib.get_id p == id)) [
        | inl same ↦
            let is_q : some p ≡ some q = rw (h, same) at found in
            ap lib.get_id (sym (some_injective is_q)) ∙ (==_iff (lib.get_id p) id).0 same
        | inr other ↦ let nobody : none ≡ some q = rw (h, other) at found in cc nobody
      ]
