-- ===== src/Tests/SigningRuns.antt =====
-- The theorems on handleKeySign at a key of two parties, of which "a" runs the handler.
use tss_server.Prelude.{
  ◌%◌, text, Text, String, true, none, some, List, [], ◌∷◌, ◌++◌, Result, ok, err, ◌≡◌, refl,
}
use tss_server.Prelude.BigInt.{set_bytes}
use tss_server.Proto.{
  TssP2PMsg, PartyId, KeySignPrepareMsg, KeySignFinishMsg, key_sign_prepare, key_sign_start,
  key_sign_finish, process_update,
}
use tss_server.Session.{Action, convert_to_tss_party_id, end, process, reply}
use tss_server.KeySign.Party.{SignLib, Environment, handle_key_sign}
use tss_server.KeySign.Party.Signed.{IsSignedFor, handle_key_sign-IsSignedFor}
use tss_server.Prelude.{arith}
use tss_server.KeySign.Signature.{parse_signature, parse_signature-join}
use tss_server.Tests.Storage.{store, generated}
use tss_server.Tests.TssLib.{tss_lib}

-- Save data is its JSON, which is not empty; a signature is its three parts.
abbrev parse : Text → Result Text
parse [] = err "unexpected end of JSON input"
parse (b ∷ bs) = ok (b ∷ bs)

abbrev pub signing : SignLib
signing = record {
  SaveData = Text;
  SignatureData = Text × Text × Text;
  unmarshal = parse;
  get_r = λ x. x.0;
  get_s = λ x. x.1;
  get_signature_recovery = λ x. x.2;
}

abbrev pub party : String → PartyId
party id = record { id = text id; moniker = []; key = [] }

abbrev pub prepare : KeySignPrepareMsg
prepare = record {
  sign_id = text "i";
  session_id = text "u";
  key_id = text "k";
  key_session_id = text "s";
  sign_msg = 4 ∷ [];
  deadline = 100;
}

abbrev pub name : TssP2PMsg → String
name m = "type"

-- The local party signs with the last byte of the message.
abbrev pub env : Environment tss_lib signing store name
env = record {
  local_id = text "a";
  dev = true;
  key_sign_validate = λ i k msg. ok [];
  ready_error = none;
  start = ok (key_sign_start (record { sign_party_id = party "a" ∷ party "b" ∷ [] }));
  events = λ job.
      process (
        process_update
          (record { from_party_id = text "b"; msg_wire_bytes = 2 ∷ []; is_broadcast = true }))
      ∷ end (job.msg % 256 ∷ [], 2 ∷ [], 0 ∷ [])
      ∷ [];
}

abbrev pub signature : KeySignFinishMsg
signature = record {
  is_success = true;
  failure_reason = "";
  signature_r = 4 ∷ [];
  signature_s = 2 ∷ [];
  signature_v = 0 ∷ [];
}

handle_key_sign-IsSignedFor_example :
    IsSignedFor tss_lib signing store name env generated prepare signature
    × (told : List (Action tss_lib)) × ((handle_key_sign tss_lib signing store name env generated
          (ok (key_sign_prepare prepare))).actions
        ≡ told ++ reply (key_sign_finish signature) ∷ [])
unfolding handle_key_sign generated convert_to_tss_party_id set_bytes
handle_key_sign-IsSignedFor_example =
    handle_key_sign-IsSignedFor tss_lib signing store name env generated prepare signature refl refl

abbrev bytes : Text
bytes =
    1 ∷ 2 ∷ 3 ∷ 4 ∷ 5 ∷ 6 ∷ 7 ∷ 8 ∷ 9 ∷ 10 ∷ 11 ∷ 12 ∷ 13 ∷ 14 ∷ 15 ∷ 16 ∷ 17 ∷ 18 ∷ 19 ∷ 20 ∷ 21
    ∷ 22 ∷ 23 ∷ 24 ∷ 25 ∷ 26 ∷ 27 ∷ 28 ∷ 29 ∷ 30 ∷ 31 ∷ 32 ∷ []

parse_signature-join_example :
    (parse_signature (bytes ++ bytes ++ 1 ∷ []) ≡ some (bytes, bytes, 1 ∷ []))
    × (parse_signature (bytes ++ bytes ++ 28 ∷ []) ≡ some (bytes, bytes, 1 ∷ []))
parse_signature-join_example = parse_signature-join bytes bytes 1 refl refl (omega arith)
