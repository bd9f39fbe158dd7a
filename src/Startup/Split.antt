-- ===== src/Startup/Split.antt =====
-- The peers of the command line.
use tss_server.Prelude.{
  All, false, ℕ, eqb, eqb_iff, Text, Bool-cases, inl, inr, List, [], ◌∷◌, ◌++◌, map, Result, ok,
  >>=-eq-ok, ok_injective, ◌≡◌, ◌≢◌, refl, sym, ap, ◌∙◌,
}
use tss_server.Startup.{add_byte, split, comma, parse_addrs, parse_p2p_bootstrap_peers}

-- The pieces, with a byte between one and the next.
abbrev pub join : ℕ → List Text → Text
join sep [] = []
join sep (p ∷ []) = p
join sep (p ∷ q ∷ ps) = p ++ sep ∷ join sep (q ∷ ps)

join-add_byte : (sep b : ℕ) (ps : List Text) → ps ≢ [] → join sep (add_byte b ps) ≡ b ∷ join sep ps
unfolding add_byte
join-add_byte sep b [] some_piece = absurd (some_piece refl)
join-add_byte sep b (p ∷ []) some_piece = refl
join-add_byte sep b (p ∷ q ∷ ps) some_piece = refl

join-nil : (sep : ℕ) (ps : List Text) → ps ≢ [] → join sep ([] ∷ ps) ≡ sep ∷ join sep ps
join-nil sep [] some_piece = absurd (some_piece refl)
join-nil sep (p ∷ ps) some_piece = refl

add_byte-ne : (b : ℕ) (ps : List Text) → add_byte b ps ≢ []
unfolding add_byte
add_byte-ne b [] h = cc
add_byte-ne b (p ∷ ps) h = cc

split-ne : (sep : ℕ) (s : Text) → split sep s ≢ []
unfolding split
split-ne sep [] h = cc
split-ne sep (b ∷ bs) h = elim (Bool-cases (eqb b sep)) [
  | inl e ↦ cc (rw e at h)
  | inr e ↦ add_byte-ne b (split sep bs) (rw e at h)
]

pub join-split : (sep : ℕ) (s : Text) → join sep (split sep s) ≡ s
unfolding split
join-split sep [] = refl
join-split sep (b ∷ bs) = elim (Bool-cases (eqb b sep)) [
  | inl e ↦ rw e (
      join-nil sep (split sep bs) (split-ne sep bs)
      ∙ ap (λ l. sep ∷ l) (join-split sep bs)
      ∙ ap (λ x. x ∷ bs) (sym ((eqb_iff b sep).0 e)))
  | inr e ↦
      rw e
        (join-add_byte sep b (split sep bs) (split-ne sep bs) ∙ ap (λ l. b ∷ l) (join-split sep bs))
]

-- The byte is nowhere in the text.
abbrev pub Lacks : ℕ → Text → Type 0
Lacks sep p = All (λ b. eqb b sep ≡ false) p

add_byte-Lacks :
    (sep b : ℕ) (ps : List Text)
    → eqb b sep ≡ false
    → All (Lacks sep) ps
    → All (Lacks sep) (add_byte b ps)
unfolding add_byte
add_byte-Lacks sep b [] other all = ((other, tt), tt)
add_byte-Lacks sep b (p ∷ ps) other (one, all) = ((other, one), all)

split-Lacks : (sep : ℕ) (s : Text) → All (Lacks sep) (split sep s)
unfolding split
split-Lacks sep [] = (tt, tt)
split-Lacks sep (b ∷ bs) = elim (Bool-cases (eqb b sep)) [
  | inl e ↦ rw e (tt, split-Lacks sep bs)
  | inr e ↦ rw e (add_byte-Lacks sep b (split sep bs) e (split-Lacks sep bs))
]

module _ {AddrInfo : Type 0} (addr_info_from_string : Text → Result AddrInfo) where
  parse_addrs-map :
      (texts : List Text) (ps : List AddrInfo)
      → parse_addrs addr_info_from_string texts ≡ ok ps
      → map addr_info_from_string texts ≡ map ok ps
  unfolding parse_addrs
  parse_addrs-map [] ps h = ap (map ok) (ok_injective h)
  parse_addrs-map (a ∷ rest) ps h =
      let (p, hp, h1) = >>=-eq-ok (addr_info_from_string a) _ h in
      let (qs, hq, h2) = >>=-eq-ok (parse_addrs addr_info_from_string rest) _ h1 in
      rw hp (ap (λ l. ok p ∷ l) (parse_addrs-map rest qs hq)) ∙ ap (map ok) (ok_injective h2)

  -- The peers that parseP2PBootstrapPeers gives are those of the pieces of its argument, in their
  -- order: these have a comma between one and the next, and none in themselves. There is always a
  -- peer.
  pub parse_peers-join :
      (s : Text) (ps : List AddrInfo)
      → parse_p2p_bootstrap_peers addr_info_from_string s ≡ ok ps
      → (texts : List Text) × (join comma texts ≡ s)
        × All (Lacks comma) texts
        × (map addr_info_from_string texts ≡ map ok ps)
        × (ps ≢ [])
  unfolding parse_p2p_bootstrap_peers
  parse_peers-join s ps h =
      let parsed = parse_addrs-map (split comma s) ps h in
      (
        split comma s,
        join-split comma s,
        split-Lacks comma s,
        parsed,
        λ none_left. no_piece (split comma s) (split-ne comma s) (parsed ∙ ap (map ok) none_left),
      )
    where
      no_piece : (texts : List Text) → texts ≢ [] → map addr_info_from_string texts ≡ [] → ⊥
      no_piece [] some_piece e = some_piece refl
      no_piece (a ∷ rest) some_piece e = cc
