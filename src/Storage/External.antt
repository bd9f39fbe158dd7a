-- ===== src/Storage/External.antt =====
-- What tss/tss_storage.go uses of github.com/tendermint/tm-db and of the protobuf library.
use tss_server.Prelude.{
  Text, ◌==◌, before, true, false, Option, none, some, List, [], ◌∷◌, All, Memᴰ, Result, ok,
  if◌then◌else◌, ◌≡◌,
}

-- Keys ascend strictly.
abbrev pub IsAscending : List (Text × Text) → Type 0
IsAscending [] = Unit {0}
IsAscending ((k, v) ∷ rest) = All (λ (e : Text × Text). before k e.0 ≡ true) rest × IsAscending rest

-- dbm.DB: Get, SetSync, DeleteSync and Iterator(start, nil), which gives the entries whose keys
-- are not before `start`, in ascending order.
pub record Db : Type 1 where
  pub State : Type 0
  pub get : State → Text → Option Text
  pub set_sync : State → Text → Text → State
  pub delete_sync : State → Text → State
  pub iterator : State → Text → List (Text × Text)
  pub get-set_sync :
      (s : State) (k j v : Text) → get (set_sync s k v) j ≡ (if k == j then some v else get s j)
  pub get-delete_sync :
      (s : State) (k j : Text) → get (delete_sync s k) j ≡ (if k == j then none else get s j)
  pub iterator-IsAscending : (s : State) (start : Text) → IsAscending (iterator s start)
  pub iterator_from :
      (s : State) (start : Text)
      → All (λ (e : Text × Text). before e.0 start ≡ false) (iterator s start)
  pub iterator_stored :
      (s : State) (start k v : Text) → Memᴰ (k, v) (iterator s start) → get s k ≡ some v
  pub stored_iterator :
      (s : State) (start k v : Text)
      → get s k ≡ some v
      → before k start ≡ false
      → Memᴰ (k, v) (iterator s start)

-- proto.Marshal and proto.Unmarshal at one message type. A message that can be marshalled comes
-- back from its bytes.
pub record Codec (A : Type 0) : Type 0 where
  pub marshal : A → Result Text
  pub unmarshal : Text → Result A
  pub unmarshal-marshal : (a : A) (bs : Text) → marshal a ≡ ok bs → unmarshal bs ≡ ok a
