-- ===== src/Proto/Getters.antt =====
-- The getters of TssP2PMsg: nil unless the oneof holds the asked message.
use tss_server.Prelude.{Bool, true, false, Option, none, some}
use tss_server.Proto.{
  TssP2PMsg, KeyGenPrepareMsg, KeySignPrepareMsg, key_gen_prepare, key_gen_start, key_sign_prepare,
}

unfoldable pub get_key_gen_prepare_msg : TssP2PMsg → Option KeyGenPrepareMsg
get_key_gen_prepare_msg (key_gen_prepare m) = some m
get_key_gen_prepare_msg _ = none

-- The start message of a key generation has no field, so its getter is a test.
unfoldable pub get_key_gen_start_msg : TssP2PMsg → Bool
get_key_gen_start_msg key_gen_start = true
get_key_gen_start_msg _ = false

unfoldable pub get_key_sign_prepare_msg : TssP2PMsg → Option KeySignPrepareMsg
get_key_sign_prepare_msg (key_sign_prepare m) = some m
get_key_sign_prepare_msg _ = none
