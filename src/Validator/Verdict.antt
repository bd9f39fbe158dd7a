-- ===== src/Validator/Verdict.antt =====
-- What the validator's verdicts say, and what handleKeySign makes of them.
use tss_server.Prelude.{
  Text, ◌==◌, ==_iff, ◌<◌, Bool, true, false, Bool-cases, inl, inr, ◌⊎◌, List, [], ◌∷◌, Memᴰ, All,
  Result, ok, err, length, ltb, ltb→lt, if◌then◌else◌, ◌≡◌, refl,
}
use tss_server.Prelude.Int.{ℤ}
use tss_server.Proto.{PartyId}
use tss_server.Validator.{
  MpcPartyId, Sign, is_validator, check_parties, key_gen_validate, check_sign, key_sign_validate,
}

module _ (to_lower : Text → Text) where
  -- A party of the service has the name, but for the case of letters.
  abbrev pub HasValidator : List MpcPartyId → Text → Type 0
  HasValidator vs name = (v : MpcPartyId) × Memᴰ v vs × (to_lower v.moniker ≡ name)

  is_validator-HasValidator :
      (vs : List MpcPartyId) (name : Text)
      → is_validator to_lower vs name ≡ true
      → HasValidator vs name
  unfolding is_validator
  is_validator-HasValidator [] name h = cc
  is_validator-HasValidator (v ∷ vs) name h = elim (Bool-cases (to_lower v.moniker == name)) [
    | inl e ↦ (v, Memᴰ.head refl, (==_iff (to_lower v.moniker) name).0 e)
    | inr e ↦
        let (w, at, same) = is_validator-HasValidator vs name (rw e at h) in (w, Memᴰ.tail at, same)
  ]

  check_parties-HasValidator :
      (vs : List MpcPartyId) (ps : List PartyId)
      → check_parties to_lower vs ps ≡ ok tt
      → All (λ (p : PartyId). HasValidator vs (to_lower p.moniker)) ps
  unfolding check_parties
  check_parties-HasValidator vs [] h = tt
  check_parties-HasValidator vs (p ∷ ps) h =
      elim (Bool-cases (is_validator to_lower vs (to_lower p.moniker))) [
        | inl e ↦ (
          is_validator-HasValidator vs (to_lower p.moniker) e,
          check_parties-HasValidator vs ps (rw e at h),
        )
        | inr e ↦ cc (rw e at h)
      ]

  -- KeyGenValidate takes a request only if the service answers, and every party of the request has
  -- the moniker of one of the parties that it names, but for the case of letters.
  pub key_gen_validate-HasValidator :
      (outputs : Result (List MpcPartyId)) (key_id : Text) (threshold : ℤ) (ps : List PartyId)
      → key_gen_validate to_lower outputs key_id threshold ps ≡ ok tt
      → (vs : List MpcPartyId) × (outputs ≡ ok vs)
        × All (λ (p : PartyId). HasValidator vs (to_lower p.moniker)) ps
  unfolding key_gen_validate
  key_gen_validate-HasValidator (err e) key_id threshold ps h = cc
  key_gen_validate-HasValidator (ok vs) key_id threshold ps h =
      (vs, refl, check_parties-HasValidator vs ps h)

module _ (equal_fold : Text → Text → Bool) (get_sign_info : Text → Result Sign) where
  -- A request that KeySignValidate takes is one for which the service has a signature already,
  -- whatever its key and its message, or one with the key and, but for the case of letters, the
  -- message that the service has.
  pub key_sign_validate-ok :
      (sign_id key_id sign_msg found : Text)
      → key_sign_validate equal_fold get_sign_info sign_id key_id sign_msg ≡ ok found
      → (s : Sign) × (get_sign_info sign_id ≡ ok s)
        × ((0 < length s.signature)
            ⊎ ((s.mpc_id ≡ key_id) × (equal_fold s.sign_msg sign_msg ≡ true)))
  unfolding key_sign_validate
  key_sign_validate-ok sign_id key_id sign_msg found h = by_info (get_sign_info sign_id) refl h
    where
      by_match :
          (s : Sign)
          → ltb 0 (length s.signature) ≡ false
          → (if s.mpc_id == key_id
              then (if equal_fold s.sign_msg sign_msg
                  then ok []
                  else err "KeySignValidate sign msg mismatch")
              else err "KeySignValidate key id mismatch")
            ≡ ok found
          → (s.mpc_id ≡ key_id) × (equal_fold s.sign_msg sign_msg ≡ true)
      by_match s e g = elim (Bool-cases (s.mpc_id == key_id)) [
        | inr a ↦ cc (rw a at g)
        | inl a ↦ elim (Bool-cases (equal_fold s.sign_msg sign_msg)) [
          | inl b ↦ ((==_iff s.mpc_id key_id).0 a, b)
          | inr b ↦ cc (rw (a, b) at g)
        ]
      ]

      by_info :
          (x : Result Sign)
          → get_sign_info sign_id ≡ x
          → check_sign equal_fold key_id sign_msg x ≡ ok found
          → (s : Sign) × (get_sign_info sign_id ≡ ok s)
            × ((0 < length s.signature)
                ⊎ ((s.mpc_id ≡ key_id) × (equal_fold s.sign_msg sign_msg ≡ true)))
      by_info (err e) at g = cc
      by_info (ok s) at g = (
        s,
        at,
        elim (Bool-cases (ltb 0 (length s.signature))) [
          | inl e ↦ inl (ltb→lt 0 (length s.signature) e)
          | inr e ↦ inr (by_match s e (rw e at g))
        ],
      )
