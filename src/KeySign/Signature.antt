-- ===== src/KeySign/Signature.antt =====
-- ParseSignature of tss/tss_keysign.go. The slices panic on a signature of fewer than 65 bytes, which
-- is `none`.
use mathlib.Core.List.{append_assoc}
use tss_server.Prelude.{
  ℕ, ◌+◌, ◌-◌, ◌%◌, ◌≤◌, Text, Option, none, some, false, [], ◌∷◌, ◌++◌, length, take, drop, ltb,
  if◌then◌else◌, ◌≡◌, ap, ◌∙◌, subst, take-append, drop-append, length-append, arith,
}

-- The recovery byte, on which 27 is taken off if it is more than 1.
unfoldable pub recovery : Text → Text
recovery [] = []
recovery (v ∷ vs) = (if ltb 1 v then (v + 256 - 27) % 256 else v) ∷ vs

unfoldable pub parse_signature : Text → Option (Text × Text × Text)
unfolding recovery
parse_signature signature =
    if ltb (length signature) 65
    then none
    else some (take 32 signature, take 32 (drop 32 signature), recovery (drop 64 signature))

joined :
    (r s v : Text)
    → length r ≡ 32
    → length s ≡ 32
    → (take 32 (r ++ s ++ v) ≡ r)
      × (take 32 (drop 32 (r ++ s ++ v)) ≡ s)
      × (drop 64 (r ++ s ++ v) ≡ v)
joined r s v lr ls =
    let assoc = append_assoc r s v in
    let tail : drop 32 (r ++ s ++ v) ≡ s ++ v =
      ap (drop 32) assoc
      ∙ subst (λ n. drop n (r ++ (s ++ v)) ≡ s ++ v) lr (drop-append r (s ++ v)) in
    let size : length (r ++ s) ≡ 64 = omega (arith, length-append r s) in
    (
      ap (take 32) assoc ∙ subst (λ n. take n (r ++ (s ++ v)) ≡ r) lr (take-append r (s ++ v)),
      ap (take 32) tail ∙ subst (λ n. take n (s ++ v) ≡ s) ls (take-append s v),
      subst (λ n. drop n (r ++ s ++ v) ≡ v) size (drop-append (r ++ s) v),
    )

parse_joined :
    (r s : Text) (b : ℕ)
    → length r ≡ 32
    → length s ≡ 32
    → parse_signature (r ++ s ++ b ∷ []) ≡ some (r, s, recovery (b ∷ []))
unfolding parse_signature
parse_joined r s b lr ls =
    let (first, second, third) = joined r s (b ∷ []) lr ls in
    let long_enough : ltb (length (r ++ s ++ b ∷ [])) 65 ≡ false =
      ground (arith, length-append (r ++ s) (b ∷ []), length-append r s) in
    rw (long_enough, first, second, third)

recovery_small : (v : ℕ) → v ≤ 1 → recovery (v ∷ []) ≡ v ∷ []
unfolding recovery
recovery_small v small = ground arith

recovery_ethereum : (v : ℕ) → v ≤ 1 → recovery ((v + 27) ∷ []) ≡ v ∷ []
unfolding recovery
recovery_ethereum v small = ground arith

-- A signature of r and s of 32 bytes each and a recovery id of 0 or 1, as it is or with 27 added,
-- parses to r, s and the id.
pub parse_signature-join :
    (r s : Text) (v : ℕ)
    → length r ≡ 32
    → length s ≡ 32
    → v ≤ 1
    → (parse_signature (r ++ s ++ v ∷ []) ≡ some (r, s, v ∷ []))
      × (parse_signature (r ++ s ++ (v + 27) ∷ []) ≡ some (r, s, v ∷ []))
parse_signature-join r s v lr ls small = (
  parse_joined r s v lr ls ∙ ap (λ x. some (r, s, x)) (recovery_small v small),
  parse_joined r s (v + 27) lr ls ∙ ap (λ x. some (r, s, x)) (recovery_ethereum v small),
)
