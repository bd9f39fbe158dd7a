-- ===== src/Startup.antt =====
-- main.go, and validator/parse_priv_key.go: what the server starts and stops, and how it reads its
-- peers and its private key. The libraries that parse addresses, files and keys are parameters.
pub mod Split
pub mod Order
use tss_server.Prelude.{
  ℕ, eqb, ltb, Text, text, String, Bool, true, false, Option, none, some, List, [], ◌∷◌, ◌++◌,
  length, drop, Result, ok, err, ◌>>=◌, if◌then◌else◌,
}
use tss_server.P2p.Channel.{Effect, done, panics}

-- A piece before those behind it, with one byte more in front.
unfoldable pub add_byte : ℕ → List Text → List Text
add_byte b [] = (b ∷ []) ∷ []
add_byte b (p ∷ ps) = (b ∷ p) ∷ ps

-- strings.Split at one byte.
unfoldable pub split : ℕ → Text → List Text
unfolding add_byte
split sep [] = [] ∷ []
split sep (b ∷ bs) = let rest = split sep bs in if eqb b sep then [] ∷ rest else add_byte b rest

abbrev pub comma : ℕ
comma = b','

module _ {AddrInfo : Type 0} (addr_info_from_string : Text → Result AddrInfo) where
  -- The loop of parseP2PBootstrapPeers.
  unfoldable pub parse_addrs : List Text → Result (List AddrInfo)
  parse_addrs [] = ok []
  parse_addrs (a ∷ rest) = do
    peer_info ← addr_info_from_string a
    bootstrap_peers ← parse_addrs rest
    ok (peer_info ∷ bootstrap_peers)

  unfoldable pub parse_p2p_bootstrap_peers : Text → Result (List AddrInfo)
  unfolding parse_addrs split
  parse_p2p_bootstrap_peers p2p_bootstrap_peers = parse_addrs (split comma p2p_bootstrap_peers)

-- The environment variable "p2p" overrides the flag, unless it is empty.
unfoldable pub bootstrap_peers_arg : Text → Text → Text
bootstrap_peers_arg [] flag = flag
bootstrap_peers_arg (b ∷ bs) flag = b ∷ bs

-- The key file. `key_type` is the field Type.
pub record Key : Type 0 where
  pub key_type : Text
  pub value : Text

pub record PrivKeyFile : Type 0 where
  pub address : Text
  pub pub_key : Key
  pub priv_key : Key

-- ReadFile, Unmarshal, base64, btcec, and the address of a key. `wrap` puts a label before an error.
pub record KeyFiles : Type 1 where
  pub PrivKey : Type 0
  pub read_file : Text → Result Text
  pub unmarshal : Text → Result PrivKeyFile
  pub decode_base64 : Text → Result Text
  pub priv_key_from_bytes : Text → PrivKey
  pub address : PrivKey → Text
  pub wrap : String → String → String

module _ (files : KeyFiles) where
  abbrev pub labelled : {A : Type 0} → String → Result A → Result A
  labelled label (ok a) = ok a
  labelled label (err e) = err (files.wrap label e)

  unfoldable pub load_file_pv : Text → Result PrivKeyFile
  load_file_pv key_file_path = do
    key_json_bytes ← files.read_file key_file_path
    labelled "error reading PrivValidator key" (files.unmarshal key_json_bytes)

  -- The slice panics on fewer than four bytes.
  unfoldable pub key_of_bytes : Result Text → Effect (Result (files.PrivKey × Text))
  key_of_bytes (err e) = done (err e)
  key_of_bytes (ok bytes) =
      let key = files.priv_key_from_bytes (drop 4 bytes) in
      if ltb (length bytes) 4 then panics else done (ok (key, files.address key))

  unfoldable pub parse_p2p_private_key_file : Text → Effect (Result (files.PrivKey × Text))
  unfolding key_of_bytes load_file_pv
  parse_p2p_private_key_file path = key_of_bytes (do
    priv_val ← labelled "load private key from file" (load_file_pv path)
    labelled "error decoding private key" (files.decode_base64 priv_val.priv_key.value))

-- What main starts and stops.
pub data Part : Type 0 where
  storage p2p manager server : Part

pub data Event : Type 0 where
  started : Part → Event
  stopped : Part → Event

-- Where main returns early: the errors of its stages, in their order.
pub record Stages : Type 0 where
  pub storage_error : Option String
  pub peers_error : Option String
  pub listen_addr_error : Option String
  pub private_key_error : Option String
  pub new_p2p_error : Option String
  pub p2p_error : Option String

-- What a return of main runs: the deferred stops, the one deferred last first.
unfoldable pub returning : List Part → List Event
returning [] = []
returning (part ∷ deferred) = stopped part ∷ returning deferred

-- Returns on an error, or goes on with `rest`.
unfoldable pub unless_error : Option String → List Part → List Event → List Event
unfolding returning
unless_error (some e) deferred rest = returning deferred
unless_error none deferred rest = rest

-- main: the gRPC server runs until a signal, or until it fails to listen or to serve.
unfoldable pub main : Stages → List Event
unfolding unless_error returning
main stages = unless_error stages.storage_error [] (
    started storage
    ∷ unless_error stages.peers_error (storage ∷ []) (
        unless_error stages.listen_addr_error (storage ∷ []) (
          unless_error stages.private_key_error (storage ∷ []) (
            unless_error stages.new_p2p_error (storage ∷ []) (
              unless_error stages.p2p_error (storage ∷ []) (
                started p2p
                ∷ started manager
                ∷ started server
                ∷ stopped server
                ∷ returning (manager ∷ p2p ∷ storage ∷ [])))))))
