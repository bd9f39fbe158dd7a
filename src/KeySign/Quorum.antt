-- ===== src/KeySign/Quorum.antt =====
-- How many parties KeySign starts with, and when it starts.
use tss_server.Prelude.{
  ℕ, ◌+◌, ◌≤◌, ◌<◌, ◌^◌, ◌-◌, String, false, Bool-cases, inl, inr, List, [], ◌∷◌, ◌++◌, length, map,
  ◌≡◌, refl, sym, ap, ◌∙◌, arith, ltb, ltb→lt,
}
use tss_server.Prelude.Int.{pos, int32, int32-small, ltb_ℤ}
use tss_server.P2p.{P2PStream}
use tss_server.P2p.StreamMap.{StreamMap, length-store, length-stored, store, stored}
use tss_server.KeySign.Ready.{Event, done, error, stream, returned, proceed, wait_for_ready}

-- The test of the loop, for a threshold and a count that an int32 holds.
pub past_threshold : (t n : ℕ) → n < 2 ^ 31 → ltb_ℤ (pos t) (int32 n) ≡ ltb t n
unfolding ltb_ℤ
past_threshold t n h = rw (int32-small n h)

module _ (t : ℕ) (bound : t < 2 ^ 31 - 1) where
  -- With a threshold t ≥ 0, when the loop goes on, it has taken only ready streams, and the streams
  -- of exactly t + 1 different parties are in the map; what it did not take is still to be taken.
  pub wait_for_ready-proceed :
      (es left : List Event) (m m' : StreamMap)
      → length m ≤ t
      → wait_for_ready (pos t) es m ≡ proceed m' left
      → (ps : List P2PStream) × (es ≡ map stream ps ++ left)
        × (m' ≡ stored m ps)
        × (length m' ≡ t + 1)
  unfolding wait_for_ready
  wait_for_ready-proceed [] left m m' few h = cc
  wait_for_ready-proceed (done e ∷ es) left m m' few h = cc
  wait_for_ready-proceed (error e ∷ es) left m m' few h = cc
  wait_for_ready-proceed (stream p ∷ es) left m m' few h =
      let grown = length-store m p in
      let size : length (store m p) ≤ t + 1 = ground arith in
      let test = past_threshold t (length (store m p)) (omega arith) in
      elim (Bool-cases (ltb t (length (store m p)))) [
        | inl reached ↦
            let at : proceed (store m p) es ≡ proceed m' left = rw (test ∙ reached) at h in
            let same : store m p ≡ m' = cc at in
            let tail : es ≡ left = cc at in
            (
              p ∷ [],
              ap (λ l. stream p ∷ l) tail,
              sym same,
              ap length (sym same)
                  ∙ (let over = ltb→lt t (length (store m p)) reached in omega arith),
            )
        | inr below ↦
            let (ps, he, hm, hl) =
              wait_for_ready-proceed es left (store m p) m' (ground arith)
                (rw (test ∙ below) at h) in
            (p ∷ ps, ap (λ l. stream p ∷ l) he, hm, hl)
      ]

  -- An error, or the end of the context, that the loop takes before it has t + 1 parties ends it:
  -- nobody is started, however many ready streams are still to be taken.
  pub wait_for_ready-error :
      (ps : List P2PStream) (e : String) (left : List Event) (m : StreamMap)
      → length (stored m ps) ≤ t
      → (wait_for_ready (pos t) (map stream ps ++ error e ∷ left) m ≡ returned e)
        × (wait_for_ready (pos t) (map stream ps ++ done e ∷ left) m ≡ returned e)
  unfolding wait_for_ready
  wait_for_ready-error [] e left m few = (refl, refl)
  wait_for_ready-error (p ∷ ps) e left m few =
      let shorter = length-stored (store m p) ps in
      let test : ltb_ℤ (pos t) (int32 (length (store m p))) ≡ false =
        past_threshold t (length (store m p)) (omega arith) ∙ ground arith in
      rw test (wait_for_ready-error ps e left (store m p) few)

  -- As soon as the streams of t + 1 different parties are there, with no error among them, the
  -- first loop of KeySign goes on: for a threshold t with t + 1 < 2^31, and a map that holds at
  -- most t streams before.
  pub wait_for_ready-enough :
      (ps : List P2PStream) (left : List Event) (m : StreamMap)
      → length m ≤ t
      → t < length (stored m ps)
      → (m' : StreamMap) × (left' : List Event) × (wait_for_ready (pos t) (map stream ps ++ left) m
          ≡ proceed m' left')
  unfolding wait_for_ready
  wait_for_ready-enough [] left m few enough = absurd (omega arith)
  wait_for_ready-enough (p ∷ ps) left m few enough =
      let grown = length-store m p in
      let size : length (store m p) ≤ t + 1 = ground arith in
      let test = past_threshold t (length (store m p)) (omega arith) in
      elim (Bool-cases (ltb t (length (store m p)))) [
        | inl reached ↦ (store m p, map stream ps ++ left, rw (test ∙ reached))
        | inr below ↦
            let (m', left', h) = wait_for_ready-enough ps left (store m p) (ground arith) enough in
            (m', left', rw (test ∙ below) h)
      ]
