-- ===== src/Server.antt =====
-- The Manager of tss/tss_manager.go as a whole: what it holds, and the requests that find its storage.
-- Each request is what one goroutine of the server does, from its start to its end; what the
-- others do to the storage within a generation is part of that request.
pub mod Consistent
pub mod Generated
pub mod Once
use tss_server.Prelude.{Text, String, Bool, Option, List, [], ◌∷◌, Result}
use tss_server.Prelude.Int.{ℤ}
use tss_server.Proto.{TssP2PMsg, PartyId, GetKeyResponse}
use tss_server.Storage.Contract.{LocalStorage}
use tss_server.P2p.Node.{Network, LibP2PManager}
use tss_server.Manager.{get_latest_ready_key_data_by_key_id_from_storage}
use tss_server.Manager.Rpc
use tss_server.Manager.Rpc.{Reply}
use tss_server.Session.{TssLib}
use tss_server.KeyGen
use tss_server.KeyGen.Party.{KeyLib, handle_key_gen}
use tss_server.KeySign
use tss_server.KeySign.Run.{key_sign}
use tss_server.KeySign.Party.{SignLib, handle_key_sign}

-- The interface of tss/tss_validate.go: the error of a generation, and the signature that the
-- service has.
pub record Validator : Type 0 where
  pub key_gen_validate : Text → ℤ → List PartyId → Option String
  pub key_sign_validate : Text → Text → Text → Result Text

-- The libraries that the manager works with.
pub record Libraries : Type 1 where
  pub H : Type 0
  pub net : Network H
  pub no_local_handler : Text → String
  pub lib : TssLib
  pub keys : KeyLib
  pub signs : SignLib
  pub invalid_msg_type : TssP2PMsg → String
  pub errorf : String → String

module _ (libs : Libraries) (st : LocalStorage) where
  open libs use {H, net, no_local_handler, lib, keys, signs, invalid_msg_type}
  open st use {State}

  -- The logger and the lock are left out.
  pub record Manager : Type 0 where
    pub local_storage : State
    pub p2p_communicator : LibP2PManager H net no_local_handler
    pub validator : Validator
    pub dev : Bool

  unfoldable pub new_manager :
      State → LibP2PManager H net no_local_handler → Validator → Bool → Manager
  new_manager local_storage p2p_communicator validator dev = record {
    local_storage = local_storage;
    p2p_communicator = p2p_communicator;
    validator = validator;
    dev = dev;
  }

  -- A stream of one of the two protocols, with the environment of its handler and what the handler
  -- receives first; and the RPCs that look up a key: KeySign and GetKey, of a key id.
  pub data Request : Type 0 where
    key_gen_stream :
        KeyGen.Party.Environment lib keys st invalid_msg_type → Result TssP2PMsg → Request
    key_sign_stream :
        KeySign.Party.Environment lib signs st invalid_msg_type → Result TssP2PMsg → Request
    key_sign_call : KeySign.Run.Environment → Text → Request
    get_key_call : Text → Request

  pub data Response : Type 0 where
    key_gen_run : KeyGen.Party.Run lib keys st invalid_msg_type → Response
    key_sign_run : KeySign.Party.Run lib signs st invalid_msg_type → Response
    key_sign_answer : KeySign.Run.Run → Response
    get_key_reply : Reply GetKeyResponse → Response

  -- What a handler has of the manager: the id of its party, its validator, and whether it is in
  -- development.
  abbrev pub key_gen_seat :
      Manager
      → KeyGen.Party.Environment lib keys st invalid_msg_type
      → KeyGen.Party.Environment lib keys st invalid_msg_type
  key_gen_seat m env = record env {
    local_id = m.p2p_communicator.local_party_id.id;
    dev = m.dev;
    key_gen_validate = m.validator.key_gen_validate;
  }

  abbrev pub key_sign_seat :
      Manager
      → KeySign.Party.Environment lib signs st invalid_msg_type
      → KeySign.Party.Environment lib signs st invalid_msg_type
  key_sign_seat m env = record env {
    local_id = m.p2p_communicator.local_party_id.id;
    dev = m.dev;
    key_sign_validate = m.validator.key_sign_validate;
  }

  unfoldable pub serve : Manager → Request → Manager × Response
  serve m (key_gen_stream env received) =
      let run =
        handle_key_gen lib keys st invalid_msg_type (key_gen_seat m env) m.local_storage received in
      (record m { local_storage = run.storage }, key_gen_run run)
  serve m (key_sign_stream env received) = (
    m,
    key_sign_run (
        handle_key_sign lib signs st invalid_msg_type (key_sign_seat m env) m.local_storage
          received),
  )
  serve m (key_sign_call env key_id) = (
    m,
    key_sign_answer
        (key_sign env (get_latest_ready_key_data_by_key_id_from_storage st m.local_storage key_id)),
  )
  serve m (get_key_call key_id) =
      (m, get_key_reply (Rpc.get_key libs.errorf st m.local_storage key_id))

  unfoldable pub serve_all : Manager → List Request → Manager
  unfolding serve
  serve_all m [] = m
  serve_all m (r ∷ rs) = serve_all (serve m r).0 rs
