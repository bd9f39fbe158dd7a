-- ===== src/Prelude/Bytes.antt =====
-- Go strings and byte slices that the program walks, joins or compares: lists of bytes.
use Prim.Native.Nat.{ℕ}
use Prim.Native.Char.{code}
use Prim.Native.String.{String}
use mathlib.Core.Path.{◌≡◌, refl}
use mathlib.Core.Logic.{◌↔◌}
use mathlib.Core.Bool.{Bool, true, false, ◌&&◌, ◌||◌}
use mathlib.Core.List.{List, [], ◌∷◌, ◌++◌}
use native.Mathlib.Omega.{arith}
use tss_server.Prelude.Tests.{eqb, ltb}

abbrev pub Text : Type 0
Text = List ℕ

-- The bytes of an ASCII literal.
abbrev pub text : String → Text
text String.[] = []
text (String.◌∷◌ c s) = code c ∷ text s

infix 50 ◌==◌
unfoldable pub ◌==◌ : Text → Text → Bool
[] == [] = true
[] == (y ∷ ys) = false
(x ∷ xs) == [] = false
(x ∷ xs) == (y ∷ ys) = eqb x y && (xs == ys)

-- bytes.HasPrefix(s, prefix)
unfoldable pub has_prefix : Text → Text → Bool
has_prefix s [] = true
has_prefix [] (p ∷ ps) = false
has_prefix (x ∷ xs) (p ∷ ps) = eqb x p && has_prefix xs ps

-- The order of bytes.Compare: `before a b` is a < b.
unfoldable pub before : Text → Text → Bool
before a [] = false
before [] (y ∷ ys) = true
before (x ∷ xs) (y ∷ ys) = ltb x y || (eqb x y && before xs ys)

pub ==_iff : (a b : Text) → ((a == b) ≡ true) ↔ (a ≡ b)
unfolding ◌==◌
==_iff [] [] = (λ _. refl, λ _. refl)
==_iff [] (y ∷ ys) = ground arith
==_iff (x ∷ xs) [] = ground arith
==_iff (x ∷ xs) (y ∷ ys) = ground (arith, ==_iff xs ys)

pub ==_refl : (a : Text) → (a == a) ≡ true
==_refl a = (==_iff a a).1 refl

pub has_prefix-append : (p s : Text) → has_prefix (p ++ s) p ≡ true
unfolding has_prefix
has_prefix-append [] s = refl
has_prefix-append (x ∷ p) s = ground (arith, has_prefix-append p s)

-- A text that has the prefix does not come before it.
pub has_prefix-not_before : (s p : Text) → has_prefix s p ≡ true → before s p ≡ false
unfolding has_prefix before
has_prefix-not_before s [] h = refl
has_prefix-not_before [] (p ∷ ps) h = cc
has_prefix-not_before (x ∷ xs) (p ∷ ps) h = ground (arith, has_prefix-not_before xs ps)

-- What has the prefix stands in one block of the order: past its end nothing has it.
pub has_prefix_convex :
    (s t p : Text)
    → has_prefix s p ≡ false
    → before s p ≡ false
    → before s t ≡ true
    → has_prefix t p ≡ false
unfolding has_prefix before
has_prefix_convex s t [] h k l = cc
has_prefix_convex [] t (p ∷ ps) h k l = cc
has_prefix_convex (x ∷ xs) [] (p ∷ ps) h k l = refl
has_prefix_convex (x ∷ xs) (y ∷ ys) (p ∷ ps) h k l = ground (arith, has_prefix_convex xs ys ps)

pub before_irrefl : (a : Text) → before a a ≡ false
unfolding before
before_irrefl [] = refl
before_irrefl (x ∷ xs) = ground (arith, before_irrefl xs)

pub before_trans : (a b c : Text) → before a b ≡ true → before b c ≡ true → before a c ≡ true
unfolding before
before_trans a b [] h k = k
before_trans a [] (z ∷ zs) h k = cc
before_trans [] (y ∷ ys) (z ∷ zs) h k = refl
before_trans (x ∷ xs) (y ∷ ys) (z ∷ zs) h k = ground (arith, before_trans xs ys zs)

pub before_total : (a b : Text) → before a b ≡ false → (a == b) ≡ false → before b a ≡ true
unfolding before ◌==◌
before_total [] [] h k = cc
before_total (x ∷ xs) [] h k = refl
before_total [] (y ∷ ys) h k = cc
before_total (x ∷ xs) (y ∷ ys) h k = ground (arith, before_total xs ys)

pub append_cancel_left : (p a b : Text) → p ++ a ≡ p ++ b → a ≡ b
append_cancel_left [] a b h = h
append_cancel_left (x ∷ p) a b h = append_cancel_left p a b (cc)
