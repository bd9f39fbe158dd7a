-- ===== src/Validator.antt =====
-- validator/: KeyGenValidate and KeySignValidate. What the REST service answers (getCurrentMpcSet,
-- getSignInfo) is a parameter, and so are strings.ToLower and bytes.EqualFold. Of the fields of a Sign,
-- those that the code reads are there.
pub mod Verdict
pub mod Bypass
pub mod Fetch
use tss_server.Prelude.{
  Text, ◌==◌, Bool, true, false, Option, none, some, List, [], ◌∷◌, Result, ok, err, length, ltb,
  if◌then◌else◌,
}
use tss_server.Prelude.Int.{ℤ}
use tss_server.Proto.{PartyId}

pub record MpcPartyId : Type 0 where
  pub id : Text
  pub moniker : Text
  pub key : Text

pub record Sign : Type 0 where
  pub sign_id : Text
  pub mpc_id : Text
  pub sign_msg : Text
  pub signature : Text

module _ (to_lower : Text → Text) where
  -- Whether valAddressesMap, made of the service's parties, has the lowered name.
  unfoldable pub is_validator : List MpcPartyId → Text → Bool
  is_validator [] name = false
  is_validator (v ∷ vs) name = if to_lower v.moniker == name then true else is_validator vs name

  unfoldable pub check_parties : List MpcPartyId → List PartyId → Result (Unit {0})
  unfolding is_validator
  check_parties vs [] = ok tt
  check_parties vs (p ∷ ps) =
      let rest = check_parties vs ps in
      if is_validator vs (to_lower p.moniker) then rest else err "not a validator party"

  -- The key id and the threshold are not looked at.
  unfoldable pub key_gen_validate :
      Result (List MpcPartyId) → Text → ℤ → List PartyId → Result (Unit {0})
  unfolding check_parties
  key_gen_validate (err e) key_id threshold all_party_id = err e
  key_gen_validate (ok vs) key_id threshold all_party_id = check_parties vs all_party_id

module _ (equal_fold : Text → Text → Bool) where
  -- KeySignValidate behind the answer of the service.
  unfoldable pub check_sign : Text → Text → Result Sign → Result Text
  check_sign key_id sign_msg (err e) = err e
  check_sign key_id sign_msg (ok s) =
      if ltb 0 (length s.signature)
      then ok s.signature
      else if s.mpc_id == key_id
      then (if equal_fold s.sign_msg sign_msg
          then ok []
          else err "KeySignValidate sign msg mismatch")
      else err "KeySignValidate key id mismatch"

  unfoldable pub key_sign_validate : (Text → Result Sign) → Text → Text → Text → Result Text
  unfolding check_sign
  key_sign_validate get_sign_info sign_id key_id sign_msg =
      check_sign key_id sign_msg (get_sign_info sign_id)
