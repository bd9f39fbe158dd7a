-- ===== src/Proto.antt =====
-- tss/tss.proto, as tss/tss.pb.go declares its messages. A `bytes` field and a `string` field that
-- the code joins or compares is a list of bytes; a string that it only passes on is a `String`.
-- A timestamp is the number of its nanoseconds since the epoch.
pub mod Getters
use tss_server.Prelude.{ℕ, Bool, true, false, List, Text, String, ◌≡◌, ◌≢◌, arith}
use tss_server.Prelude.Int.{ℤ}

abbrev pub Time : Type 0
Time = ℕ

pub record PartyId : Type 0 where
  pub id : Text
  pub moniker : Text
  pub key : Text

pub data KeyStatus : Type 0 where
  unknown pending ready error : KeyStatus

pub record KeyData : Type 0 where
  pub key_id : Text
  pub key_session_id : Text
  pub threshold : ℤ
  pub all_party_id : List PartyId
  pub pubkey : Text
  pub status : KeyStatus
  pub save_data_json : Text
  pub created_time : Time
  pub updated_time : Time

pub record KeyGenPrepareMsg : Type 0 where
  pub session_id : Text
  pub key_id : Text
  pub threshold : ℤ
  pub all_party_id : List PartyId
  pub deadline : Time

pub record KeyGenFinishMsg : Type 0 where
  pub is_success : Bool
  pub failure_reason : String
  pub public_key : Text

pub record KeySignPrepareMsg : Type 0 where
  pub sign_id : Text
  pub session_id : Text
  pub key_id : Text
  pub key_session_id : Text
  pub sign_msg : Text
  pub deadline : Time

pub record KeySignStartMsg : Type 0 where
  pub sign_party_id : List PartyId

pub record KeySignFinishMsg : Type 0 where
  pub is_success : Bool
  pub failure_reason : String
  pub signature_r : Text
  pub signature_s : Text
  pub signature_v : Text

pub record ProcessUpdateMsg : Type 0 where
  pub from_party_id : Text
  pub msg_wire_bytes : Text
  pub is_broadcast : Bool

pub record ProcessErrorMsg : Type 0 where
  pub error_msg : String

-- The oneof of TssP2PMsg; `unset` is a message whose oneof is nil.
pub data TssP2PMsg : Type 0 where
  unset : TssP2PMsg
  key_gen_prepare : KeyGenPrepareMsg → TssP2PMsg
  key_gen_ready : TssP2PMsg
  key_gen_start : TssP2PMsg
  key_gen_finish : KeyGenFinishMsg → TssP2PMsg
  key_sign_prepare : KeySignPrepareMsg → TssP2PMsg
  key_sign_ready : TssP2PMsg
  key_sign_start : KeySignStartMsg → TssP2PMsg
  key_sign_cancel : TssP2PMsg
  key_sign_finish : KeySignFinishMsg → TssP2PMsg
  process_update : ProcessUpdateMsg → TssP2PMsg
  process_error : ProcessErrorMsg → TssP2PMsg

pub record KeyGenRequest : Type 0 where
  pub key_id : Text
  pub threshold : ℤ
  pub all_party_id : List PartyId

pub record KeyGenResponse : Type 0 where
  pub session_id : Text
  pub public_key : Text

pub record KeySignRequest : Type 0 where
  pub key_id : Text
  pub sign_msg : Text
  pub sign_id : Text

pub record KeySignResponse : Type 0 where
  pub session_id : Text
  pub signature_r : Text
  pub signature_s : Text
  pub signature_v : Text

pub record GetKeyResponse : Type 0 where
  pub key_id : Text
  pub public_key : Text
  pub threshold : ℤ
  pub all_party_id : List PartyId
  pub status : KeyStatus

-- `status == other`
abbrev pub is_status : KeyStatus → KeyStatus → Bool
is_status unknown unknown = true
is_status pending pending = true
is_status ready ready = true
is_status error error = true
is_status _ _ = false

pub is_status→eq : (s t : KeyStatus) → is_status s t ≡ true → s ≡ t
is_status→eq s t h = ground arith

pub is_status→ne : (s t : KeyStatus) → is_status s t ≡ false → s ≢ t
is_status→ne s t h = ground arith
