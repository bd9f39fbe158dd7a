-- ===== src/Tests/ValidatorRuns.antt =====
-- The theorems on the validator, with the case of ASCII letters.
use tss_server.Prelude.{
  ℕ, ◌+◌, ◌<◌, leb, text, Text, ◌==◌, Bool, true, false, List, [], ◌∷◌, map, All, Result, ok, ◌≡◌,
  ◌⊎◌, refl, arith, if◌then◌else◌, length,
}
use tss_server.Prelude.Int.{pos}
use tss_server.Proto.{PartyId}
use tss_server.Validator.{MpcPartyId, Sign, key_gen_validate, key_sign_validate}
use tss_server.Validator.Verdict.{HasValidator, key_gen_validate-HasValidator, key_sign_validate-ok}
use tss_server.Validator.Bypass.{signed_id_skips_validation}
use tss_server.KeySign.Party.{Environment, handle_key_sign0}
use tss_server.Tests.Storage.{store, generated}
use tss_server.Tests.TssLib.{tss_lib}
use tss_server.Tests.SigningRuns.{signing, prepare, name, env}

abbrev lower : ℕ → ℕ
lower b = if leb 65 b then (if leb b 90 then b + 32 else b) else b

abbrev to_lower : Text → Text
to_lower = map lower

abbrev equal_fold : Text → Text → Bool
equal_fold a b = to_lower a == to_lower b

abbrev party : PartyId
party = record { id = text "a"; moniker = text "val"; key = [] }

abbrev members : List MpcPartyId
members = record { id = text "1"; moniker = text "Val"; key = [] } ∷ []

key_gen_validate-HasValidator_example :
    (vs : List MpcPartyId) × (ok members ≡ ok vs)
    × All (λ (p : PartyId). HasValidator to_lower vs (to_lower p.moniker)) (party ∷ [])
unfolding key_gen_validate ◌==◌
key_gen_validate-HasValidator_example =
    key_gen_validate-HasValidator to_lower (ok members) (text "k") (pos 1) (party ∷ []) refl

-- The service has a signature for "i".
abbrev info : Sign
info = record { sign_id = text "i"; mpc_id = text "other"; sign_msg = 9 ∷ []; signature = 1 ∷ [] }

abbrev get_sign_info : Text → Result Sign
get_sign_info id = ok info

key_sign_validate-ok_example :
    (s : Sign) × (get_sign_info (text "i") ≡ ok s)
    × ((0 < length s.signature) ⊎ ((s.mpc_id ≡ text "k") × (equal_fold s.sign_msg (4 ∷ []) ≡ true)))
unfolding key_sign_validate
key_sign_validate-ok_example =
    key_sign_validate-ok equal_fold get_sign_info (text "i") (text "k") (4 ∷ []) (1 ∷ []) refl

abbrev production : Environment tss_lib signing store name
production = record env {
  dev = false;
  key_sign_validate = key_sign_validate equal_fold get_sign_info;
}

signed_id_skips_validation_example :
    handle_key_sign0 tss_lib signing store name production generated prepare
    ≡ handle_key_sign0 tss_lib signing store name
        (record production { dev = true })
        generated
        prepare
signed_id_skips_validation_example =
    signed_id_skips_validation tss_lib signing store name equal_fold get_sign_info production
      generated prepare info refl refl refl (omega arith)
