-- ===== src/Prelude/Outcome.antt =====
-- Go's pair of a value and an error. An error is the text that its `Error()` gives.
use Prim.Native.String.{String}
use mathlib.Core.Path.{◌≡◌, refl}

pub data Result {ℓ} (V : Type ℓ) : Type ℓ where
  err : String → Result V
  ok : V → Result V

module _ {ℓ κ} {V : Type ℓ} {W : Type κ} where
  infixl 5 ◌>>=◌
  abbrev pub ◌>>=◌ : Result V → (V → Result W) → Result W
  (err reason) >>= next = err reason
  (ok v) >>= next = next v

  -- A chain that succeeds has succeeded at its first link.
  pub >>=-eq-ok :
      (first : Result V) (next : V → Result W) {w : W}
      → (first >>= next) ≡ ok w
      → (v : V) × (first ≡ ok v) × (next v ≡ ok w)
  >>=-eq-ok (err reason) next succeeds = cc
  >>=-eq-ok (ok v) next succeeds = (v, refl, succeeds)

pub ok_injective {ℓ} : {V : Type ℓ} {v w : V} → ok v ≡ ok w → v ≡ w
ok_injective same = cc
