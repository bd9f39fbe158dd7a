-- ===== src/Prelude/BigInt.antt =====
-- math/big, as the program uses it.
use Prim.Native.Nat.{ℕ, ◌+◌, ◌*◌}
use mathlib.Core.Path.{◌≡◌, refl}
use mathlib.Core.List.{[], ◌∷◌}
use tss_server.Prelude.Bytes.{Text}

-- The number of bytes in big endian order, behind the number of those before them.
unfoldable pub set_bytes_from : ℕ → Text → ℕ
set_bytes_from n [] = n
set_bytes_from n (b ∷ bs) = set_bytes_from (n * 256 + b) bs

-- new(big.Int).SetBytes(buf)
unfoldable pub set_bytes : Text → ℕ
unfolding set_bytes_from
set_bytes = set_bytes_from 0

-- Leading zeros count for nothing.
pub set_bytes-zero : (bs : Text) → set_bytes (0 ∷ bs) ≡ set_bytes bs
unfolding set_bytes
set_bytes-zero bs = refl
