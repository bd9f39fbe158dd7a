-- ===== src/KeyGen/Loops.antt =====
-- The two loops of KeyGen: what they have taken when they end.
use tss_server.Prelude.{
  ℕ, ◌+◌, ◌<◌, ◌^◌, Text, String, true, Bool-cases, inl, inr, ◌⊎◌, List, [], ◌∷◌, ◌++◌, length, map,
  All, ◌≡◌, refl, sym, ap, ◌∙◌, arith, eqb, eqb_iff,
}
use tss_server.Prelude.Int.{int32, int32-small, eqb_ℤ}
use tss_server.Proto.{KeyGenFinishMsg, KeyGenResponse}
use tss_server.P2p.{P2PStream}
use tss_server.P2p.StreamMap.{StreamMap, store, stored}
use tss_server.KeyGen
use tss_server.KeyGen.{
  Event, done, error, value, Wait, proceed, wait_for_ready, Finished, generated, wait_for_finish,
}

pub wait_for_ready-proceed :
    (n : ℕ) (es : List (Event P2PStream)) (m m' : StreamMap)
    → wait_for_ready n es m ≡ proceed m'
    → (ps : List P2PStream) × (left : List (Event P2PStream)) × (es ≡ map value ps ++ left)
      × (m' ≡ stored m ps)
      × (length m' ≡ n)
unfolding wait_for_ready
wait_for_ready-proceed n [] m m' h = cc
wait_for_ready-proceed n (done e ∷ es) m m' h = cc
wait_for_ready-proceed n (error e ∷ es) m m' h = cc
wait_for_ready-proceed n (value p ∷ es) m m' h = elim (Bool-cases (eqb (length (store m p)) n)) [
  | inl full ↦
      let at : proceed (store m p) ≡ proceed m' = rw full at h in
      let same : store m p ≡ m' = cc at in
      (p ∷ [], es, refl, sym same, ap length (sym same) ∙ ground arith)
  | inr more ↦
      let (ps, left, he, hm, hl) = wait_for_ready-proceed n es (store m p) m' (rw more at h) in
      (p ∷ ps, left, ap (λ l. value p ∷ l) he, hm, hl)
]

-- When the first loop returns an error, the streams that are closed are those that it has taken.
pub wait_for_ready-returned :
    (n : ℕ) (es : List (Event P2PStream)) (m m' : StreamMap) (e : String)
    → wait_for_ready n es m ≡ KeyGen.Wait.returned e m'
    → (ps : List P2PStream) × (left : List (Event P2PStream)) × ((es
          ≡ map value ps ++ error e ∷ left)
        ⊎ (es ≡ map value ps ++ done e ∷ left))
      × (m' ≡ stored m ps)
unfolding wait_for_ready
wait_for_ready-returned n [] m m' e h = cc
wait_for_ready-returned n (done x ∷ es) m m' e h = ([], es, inr (cc), cc)
wait_for_ready-returned n (error x ∷ es) m m' e h = ([], es, inl (cc), cc)
wait_for_ready-returned n (value p ∷ es) m m' e h = elim (Bool-cases (eqb (length (store m p)) n)) [
  | inl full ↦ let at : proceed (store m p) ≡ KeyGen.Wait.returned e m' = rw full at h in cc at
  | inr more ↦
      let (ps, left, he, hm) = wait_for_ready-returned n es (store m p) m' e (rw more at h) in
      (
        p ∷ ps,
        left,
        elim he [ inl q ↦ inl (ap (λ l. value p ∷ l) q) | inr q ↦ inr (ap (λ l. value p ∷ l) q) ],
        hm,
      )
]

pub same_count : (a b : ℕ) → a < 2 ^ 31 → b < 2 ^ 31 → eqb_ℤ (int32 a) (int32 b) ≡ eqb a b
unfolding eqb_ℤ
same_count a b ha hb = rw (int32-small a ha, int32-small b hb)

pub wait_for_finish-generated :
    (session_id : Text) (n cnt : ℕ) (es : List (Event KeyGenFinishMsg)) (r : KeyGenResponse)
    → n < 2 ^ 31
    → cnt < n
    → wait_for_finish session_id n cnt es ≡ generated r
    → (ms : List KeyGenFinishMsg) × (m : KeyGenFinishMsg) × (left : List (Event KeyGenFinishMsg))
      × (es ≡ map value ms ++ value m ∷ left)
      × All (λ (x : KeyGenFinishMsg). x.is_success ≡ true) (ms ++ m ∷ [])
      × (cnt + length ms + 1 ≡ n)
      × (r ≡ record { session_id = session_id; public_key = m.public_key })
unfolding wait_for_finish
wait_for_finish-generated session_id n cnt [] r bound lt h = cc
wait_for_finish-generated session_id n cnt (done e ∷ es) r bound lt h = cc
wait_for_finish-generated session_id n cnt (error e ∷ es) r bound lt h = cc
wait_for_finish-generated session_id n cnt (value m ∷ es) r bound lt h =
    let test = same_count (cnt + 1) n (omega arith) bound in
    elim (Bool-cases m.is_success) [
      | inr failure ↦ cc (rw failure at h)
      | inl success ↦ elim (Bool-cases (eqb (cnt + 1) n)) [
        | inl last ↦
            let at : generated (record { session_id = session_id; public_key = m.public_key })
                ≡ generated r =
              rw (success, test ∙ last) at h in
            (
              [],
              m,
              es,
              refl,
              (success, tt),
              omega (arith, (eqb_iff (cnt + 1) n).0 last),
              sym (cc at),
            )
        | inr more ↦
            let (ms, x, left, he, hs, hc, hr) =
              wait_for_finish-generated session_id n (cnt + 1) es r bound (ground arith)
                (rw (success, test ∙ more) at h) in
            (m ∷ ms, x, left, ap (λ l. value m ∷ l) he, (success, hs), omega arith, hr)
      ]
    ]
