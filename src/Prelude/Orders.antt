-- ===== src/Prelude/Orders.antt =====
-- What does not depend on the order of a list.
use Prim.Native.Nat.{suc}
use mathlib.Core.Path.{◌≡◌, ◌∙◌, refl, subst, ap}
use mathlib.Core.List.{List, ◌++◌, map, Permᴰ}
use mathlib.Core.List.Permᴰ
use tss_server.Prelude.Lists.{length, All}

module _ {ℓ} {A : Type ℓ} where
  pub Permᴰ-map {κ} :
      {B : Type κ} (f : A → B) {xs ys : List A} → Permᴰ xs ys → Permᴰ (map f xs) (map f ys)
  Permᴰ-map f Permᴰ.nil = Permᴰ.nil
  Permᴰ-map f (Permᴰ.cons same rest) = Permᴰ.cons (ap f same) (Permᴰ-map f rest)
  Permᴰ-map f (Permᴰ.swap first second) = Permᴰ.swap (ap f first) (ap f second)
  Permᴰ-map f (Permᴰ.trans first second) = Permᴰ.trans (Permᴰ-map f first) (Permᴰ-map f second)

  pub length-Permᴰ : {xs ys : List A} → Permᴰ xs ys → length xs ≡ length ys
  length-Permᴰ Permᴰ.nil = refl
  length-Permᴰ (Permᴰ.cons same rest) = ap suc (length-Permᴰ rest)
  length-Permᴰ (Permᴰ.swap first second) = refl
  length-Permᴰ (Permᴰ.trans first second) = length-Permᴰ first ∙ length-Permᴰ second

  pub All-Permᴰ {κ} : (P : A → Type κ) {xs ys : List A} → Permᴰ xs ys → All P xs → All P ys
  All-Permᴰ P Permᴰ.nil h = h
  All-Permᴰ P (Permᴰ.cons same rest) (first, h) = (subst P same first, All-Permᴰ P rest h)
  All-Permᴰ P (Permᴰ.swap same other) (first, (second, h)) =
      (subst P other second, (subst P same first, h))
  All-Permᴰ P (Permᴰ.trans one two) h = All-Permᴰ P two (All-Permᴰ P one h)

  pub Permᴰ-append : {xs ys : List A} (zs : List A) → Permᴰ xs ys → Permᴰ (xs ++ zs) (ys ++ zs)
  Permᴰ-append zs Permᴰ.nil = Permᴰ.refl zs
  Permᴰ-append zs (Permᴰ.cons same rest) = Permᴰ.cons same (Permᴰ-append zs rest)
  Permᴰ-append zs (Permᴰ.swap first second) = Permᴰ.swap first second
  Permᴰ-append zs (Permᴰ.trans first second) =
      Permᴰ.trans (Permᴰ-append zs first) (Permᴰ-append zs second)
