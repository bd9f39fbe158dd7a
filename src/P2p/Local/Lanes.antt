-- ===== src/P2p/Local/Lanes.antt =====
-- One direction of a local stream.
use tss_server.Prelude.{
  ℕ, ◌≤◌, Bool, true, false, Bool-cases, inl, inr, Option, none, some, List, [], ◌∷◌, ◌++◌, length,
  length-append, ltb, ◌≡◌, sym, ap, ◌∙◌, arith,
}
use mathlib.Core.List.{append_assoc}
use tss_server.Proto.{TssP2PMsg}
use tss_server.P2p.Channel.{Chan, done, put, take_one, take_from, shut}
use tss_server.P2p.Local.{capacity}

pub done_injective : {A : Type 0} {a b : A} → done a ≡ done b → a ≡ b
done_injective h = cc

put-done :
    (n : ℕ) (c c' : Chan TssP2PMsg) (m : TssP2PMsg)
    → put n c m ≡ done c'
    → (c'.items ≡ c.items ++ m ∷ []) × (length c'.items ≤ n)
unfolding put
put-done n c c' m h = elim (Bool-cases c.closed) [
  | inl shut_before ↦ cc (rw shut_before at h)
  | inr open_before ↦ elim (Bool-cases (ltb (length c.items) n)) [
    | inr full ↦ cc (rw (open_before, full) at h)
    | inl room ↦
        let same = done_injective (rw (open_before, room) at h) in
        let items = ap (λ (x : Chan TssP2PMsg). x.items) (sym same) in
        (items, ground (arith, ap length items, length-append c.items (m ∷ [])))
  ]
]

-- A lane: what was sent into a channel, what was received from it, and what it holds.
abbrev pub IsLane : List TssP2PMsg → List TssP2PMsg → Chan TssP2PMsg → Type 0
IsLane sent got c = (sent ≡ got ++ c.items) × (length c.items ≤ capacity)

pub put-IsLane :
    (sent got : List TssP2PMsg) (c c' : Chan TssP2PMsg) (m : TssP2PMsg)
    → IsLane sent got c
    → put capacity c m ≡ done c'
    → IsLane (sent ++ m ∷ []) got c'
put-IsLane sent got c c' m lane h =
    let (items, few) = put-done capacity c c' m h in
    (
      ap (λ l. l ++ m ∷ []) lane.0
          ∙ append_assoc got c.items (m ∷ [])
          ∙ ap (λ l. got ++ l) (sym items),
      few,
    )

take_from-some :
    (closed : Bool) (items : List TssP2PMsg) (c' : Chan TssP2PMsg) (m : TssP2PMsg)
    → take_from closed items ≡ done (some m, c')
    → items ≡ m ∷ c'.items
unfolding take_from
take_from-some closed (x ∷ xs) c' m h =
    let same : (some x, record { items = xs; closed = closed }) ≡ (some m, c') = done_injective h in
    let head : x ≡ m = cc (ap (λ (p : Option TssP2PMsg × Chan TssP2PMsg). p.0) same) in
    let tail : xs ≡ c'.items = ap (λ (p : Option TssP2PMsg × Chan TssP2PMsg). p.1.items) same in
    rw (head, tail)
take_from-some true [] c' m h = cc
take_from-some false [] c' m h = cc

pub take_from-none :
    (closed : Bool) (items : List TssP2PMsg) (c' : Chan TssP2PMsg)
    → take_from closed items ≡ done (none, c')
    → items ≡ c'.items
unfolding take_from
take_from-none closed (x ∷ xs) c' h = cc
take_from-none true [] c' h =
    ap (λ (p : Option TssP2PMsg × Chan TssP2PMsg). p.1.items) (done_injective h)
take_from-none false [] c' h = cc

pub take-IsLane :
    (sent got : List TssP2PMsg) (c c' : Chan TssP2PMsg) (m : TssP2PMsg)
    → IsLane sent got c
    → take_one c ≡ done (some m, c')
    → IsLane sent (got ++ m ∷ []) c'
unfolding take_one
take-IsLane sent got c c' m lane h =
    let items = take_from-some c.closed c.items c' m h in
    (
      lane.0 ∙ ap (λ l. got ++ l) items ∙ sym (append_assoc got (m ∷ []) c'.items),
      omega (arith, ap length items, lane.1),
    )

-- A channel with the same items carries the same lane.
pub same-IsLane :
    (sent got : List TssP2PMsg) (c c' : Chan TssP2PMsg)
    → IsLane sent got c
    → c.items ≡ c'.items
    → IsLane sent got c'
same-IsLane sent got c c' lane same = (lane.0 ∙ ap (λ l. got ++ l) same, rw (sym same) lane.1)

pub shut-items : (c c' : Chan TssP2PMsg) → shut c ≡ done c' → c.items ≡ c'.items
unfolding shut
shut-items c c' h = elim (Bool-cases c.closed) [
  | inl shut_before ↦ cc (rw shut_before at h)
  | inr open_before ↦ ap (λ (x : Chan TssP2PMsg). x.items) (done_injective (rw open_before at h))
]
