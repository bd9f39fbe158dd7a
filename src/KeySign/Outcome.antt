-- ===== src/KeySign/Outcome.antt =====
-- How KeySign ends once its parties have reported.
use tss_server.Prelude.{
  ℕ, ◌+◌, ◌<◌, ◌^◌, Text, true, false, Bool-cases, inl, inr, List, [], ◌∷◌, ◌++◌, Memᴰ, length, map,
  All, ◌≡◌, ◌≢◌, refl, arith, eqb,
}
use tss_server.Prelude.Int.{int32, int32-small, eqb_ℤ}
use tss_server.Proto.{KeySignFinishMsg, KeySignResponse}
use tss_server.KeySign.Finish.{
  Event, done, error, finish, signed, all_failed, waiting, wait_for_finish,
}

pub same_count : (a b : ℕ) → a < 2 ^ 31 → b < 2 ^ 31 → eqb_ℤ (int32 a) (int32 b) ≡ eqb a b
unfolding eqb_ℤ
same_count a b ha hb = rw (int32-small a ha, int32-small b hb)

abbrev pub response : Text → KeySignFinishMsg → KeySignResponse
response session_id m = record {
  session_id = session_id;
  signature_r = m.signature_r;
  signature_s = m.signature_s;
  signature_v = m.signature_v;
}

module _ (session_id : Text) (n : ℕ) (bound : n < 2 ^ 31) where
  -- Once all n > 0 started parties have reported, by an error or by a finish message, the loop
  -- returns, in whatever order it finds the reports.
  pub wait_for_finish_returns :
      (cnt : ℕ) (es : List Event)
      → cnt < n
      → cnt + length es ≡ n
      → wait_for_finish session_id n cnt es ≢ waiting
  unfolding wait_for_finish
  wait_for_finish_returns cnt [] h e = absurd (omega arith)
  wait_for_finish_returns cnt (done x ∷ es) h e = λ p. cc p
  wait_for_finish_returns cnt (error x ∷ es) h e = λ p. cc p
  wait_for_finish_returns cnt (finish m ∷ es) h e = elim (Bool-cases m.is_success) [
    | inl success ↦ rw success (λ p. cc p)
    | inr failure ↦
        rw (failure, same_count (cnt + 1) n (omega arith) bound)
          (elim (Bool-cases (eqb (cnt + 1) n)) [
            | inl last ↦ rw last (λ p. cc p)
            | inr more ↦ rw more (wait_for_finish_returns (cnt + 1) es (ground arith) (omega arith))
          ])
  ]

  -- The first successful finish message gives the response of KeySign, if only failed ones were
  -- taken before it, fewer than n with those that are counted already, for n < 2^31.
  pub wait_for_finish-signed :
      (failures : List KeySignFinishMsg) (m : KeySignFinishMsg) (cnt : ℕ) (es : List Event)
      → All (λ (f : KeySignFinishMsg). f.is_success ≡ false) failures
      → m.is_success ≡ true
      → cnt + length failures < n
      → wait_for_finish session_id n cnt (map finish failures ++ finish m ∷ es)
        ≡ signed (response session_id m)
  unfolding wait_for_finish
  wait_for_finish-signed [] m cnt es fs s h = rw s
  wait_for_finish-signed (f ∷ failures) m cnt es fs s h =
      let before_last : eqb (cnt + 1) n ≡ false = ground arith in
      rw (fs.0, same_count (cnt + 1) n (omega arith) bound, before_last)
        (wait_for_finish-signed failures m (cnt + 1) es fs.1 s (omega arith))

  -- A signature that KeySign returns is one that a party reported in a successful finish message.
  pub signed-Memᴰ :
      (cnt : ℕ) (es : List Event) (r : KeySignResponse)
      → wait_for_finish session_id n cnt es ≡ signed r
      → (m : KeySignFinishMsg) × Memᴰ (finish m) es
        × (m.is_success ≡ true)
        × (r ≡ response session_id m)
  unfolding wait_for_finish
  signed-Memᴰ cnt [] r h = cc
  signed-Memᴰ cnt (done x ∷ es) r h = cc
  signed-Memᴰ cnt (error x ∷ es) r h = cc
  signed-Memᴰ cnt (finish m ∷ es) r h = elim (Bool-cases m.is_success) [
    | inl success ↦
        let at : signed (response session_id m) ≡ signed r = rw success at h in
        (m, Memᴰ.head refl, success, cc at)
    | inr failure ↦ elim (Bool-cases (eqb_ℤ (int32 (cnt + 1)) (int32 n))) [
      | inl last ↦
          let at : all_failed m.failure_reason ≡ signed r = rw (failure, last) at h in cc at
      | inr more ↦
          let (f, at, success, e) = signed-Memᴰ (cnt + 1) es r (rw (failure, more) at h) in
          (f, Memᴰ.tail at, success, e)
    ]
  ]

  -- When all n parties report a failure, the last loop of KeySign fails with the last reason
  -- that it took, for n < 2^31.
  pub wait_for_finish-all_failed :
      (failures : List KeySignFinishMsg) (last : KeySignFinishMsg) (cnt : ℕ) (es : List Event)
      → All (λ (f : KeySignFinishMsg). f.is_success ≡ false) failures
      → last.is_success ≡ false
      → cnt + length failures + 1 ≡ n
      → wait_for_finish session_id n cnt (map finish failures ++ finish last ∷ es)
        ≡ all_failed last.failure_reason
  unfolding wait_for_finish
  wait_for_finish-all_failed [] last cnt es fs s h =
      let done_now : eqb (cnt + 1) n ≡ true = ground arith in
      rw (s, same_count (cnt + 1) n (omega arith) bound, done_now)
  wait_for_finish-all_failed (f ∷ failures) last cnt es fs s h =
      let before_last : eqb (cnt + 1) n ≡ false = ground arith in
      rw (fs.0, same_count (cnt + 1) n (omega arith) bound, before_last)
        (wait_for_finish-all_failed failures last (cnt + 1) es fs.1 s (omega arith))
