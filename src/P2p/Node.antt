-- ===== src/P2p/Node.antt =====
-- LibP2PManager of tss/tss_p2p.go: the handlers of a party's protocols, the streams to itself and to
-- others, and how it starts. libp2p is a parameter.
pub mod Handlers
pub mod Bootstrap
pub mod Reconnect
use tss_server.Prelude.{
  ℕ, ◌+◌, Text, String, ◌==◌, Bool, Option, none, some, List, [], ◌∷◌, Result, ok, err, ◌>>=◌,
  if◌then◌else◌,
}
use tss_server.Proto.{PartyId}
use tss_server.P2p.Channel.{Effect, done, panics}

-- libp2p: keys, peers, addresses, and a host with its streams. `H` is a handler of streams.
pub record Network (H : Type 0) : Type 1 where
  pub PrivKey : Type 0
  pub PeerId : Type 0
  pub AddrInfo : Type 0
  pub Multiaddr : Type 0
  pub Stream : Type 0
  pub State : Type 0
  pub id_from_private_key : PrivKey → Result PeerId
  pub public_raw : PrivKey → Result Text
  pub show_peer : PeerId → Text
  pub decode_peer : Text → Result PeerId
  -- NewConnManager and libp2p.New, with the DHT and the routed host over it.
  pub new_conn_manager : Result (Unit {0})
  pub new_host : Multiaddr → PrivKey → Result State
  pub set_stream_handler : State → Text → H → State
  pub remove_stream_handler : State → Text → State
  pub new_stream : State → PeerId → Text → Result Stream

module _ {H : Type 0} where
  -- localHandlerMap: Store, Load and Delete of sync.Map.
  unfoldable pub store : List (Text × H) → Text → H → List (Text × H)
  store [] k h = (k, h) ∷ []
  store ((j, g) ∷ rest) k h =
      let rest' = store rest k h in if j == k then (k, h) ∷ rest else (j, g) ∷ rest'

  unfoldable pub load : List (Text × H) → Text → Option H
  load [] k = none
  load ((j, g) ∷ rest) k = if j == k then some g else load rest k

  unfoldable pub delete : List (Text × H) → Text → List (Text × H)
  delete [] k = []
  delete ((j, g) ∷ rest) k = let rest' = delete rest k in if j == k then rest' else (j, g) ∷ rest'

module _ (H : Type 0) (net : Network H) (no_local_handler : Text → String) where
  -- `host` is nil until the start.
  pub record LibP2PManager : Type 0 where
    pub bootstrap_peers : List net.AddrInfo
    pub listen_addr : net.Multiaddr
    pub private_key : net.PrivKey
    pub local_party_id : PartyId
    pub local_handlers : List (Text × H)
    pub host : Option net.State

  unfoldable pub new_lib_p2p_manager :
      List net.AddrInfo → net.Multiaddr → net.PrivKey → Text → Result LibP2PManager
  new_lib_p2p_manager [] listen_addr private_key moniker = err "not enough bootstrap peers"
  new_lib_p2p_manager (p ∷ ps) listen_addr private_key moniker = do
    peer_id ← net.id_from_private_key private_key
    pub_key_bytes ← net.public_raw private_key
    ok (record {
      bootstrap_peers = p ∷ ps;
      listen_addr = listen_addr;
      private_key = private_key;
      local_party_id = record {
        id = net.show_peer peer_id;
        moniker = moniker;
        key = pub_key_bytes;
      };
      local_handlers = [];
      host = none;
    })

  -- With no host, the call on it panics.
  unfoldable pub set_stream_handler : LibP2PManager → Text → H → Effect LibP2PManager
  unfolding store
  set_stream_handler m protocol_id h = elim m.host [
    | none ↦ panics
    | some s ↦ done (record m {
      local_handlers = store m.local_handlers protocol_id h;
      host = some (net.set_stream_handler s protocol_id h);
    })
  ]

  unfoldable pub remove_stream_handler : LibP2PManager → Text → Effect LibP2PManager
  unfolding delete
  remove_stream_handler m protocol_id = elim m.host [
    | none ↦ panics
    | some s ↦ done (record m {
      local_handlers = delete m.local_handlers protocol_id;
      host = some (net.remove_stream_handler s protocol_id);
    })
  ]

  -- A stream of the party to itself, with the handler that gets its other end, or one of libp2p.
  pub data Opened : Type 0 where
    local : H → Opened
    remote : net.Stream → Opened

  unfoldable pub open_local : Text → Option H → Result Opened
  open_local protocol_id (some h) = ok (local h)
  open_local protocol_id none = err (no_local_handler protocol_id)

  unfoldable pub open_remote : net.State → Text → Text → Result Opened
  open_remote s remote_party_id protocol_id = do
    peer_id ← net.decode_peer remote_party_id
    stream ← net.new_stream s peer_id protocol_id
    ok (remote stream)

  unfoldable pub new_stream : LibP2PManager → Text → Text → Effect (Result Opened)
  unfolding load open_local open_remote
  new_stream m remote_party_id protocol_id =
      if remote_party_id == m.local_party_id.id
      then done (open_local protocol_id (load m.local_handlers protocol_id))
      else (elim m.host [
        | none ↦ (elim (net.decode_peer remote_party_id) [ err e ↦ done (err e) | ok _ ↦ panics ])
        | some s ↦ done (open_remote s remote_party_id protocol_id)
      ])

  -- The errors of Connect, in the order of the peers; `connect` gives each its error, if it has one.
  unfoldable pub dial_errors : (net.AddrInfo → Option String) → List net.AddrInfo → List String
  dial_errors connect [] = []
  dial_errors connect (p ∷ ps) =
      let rest = dial_errors connect ps in elim (connect p) [ none ↦ rest | some e ↦ e ∷ rest ]

  -- The loop that drains the channel of errors, and counts them.
  unfoldable pub count_errors : ℕ → List String → ℕ
  count_errors count [] = count
  count_errors count (e ∷ errs) = count_errors (count + 1) errs

  -- What bootstrapConnect counts, and what it returns: the error, or nil.
  pub record Dialled : Type 0 where
    pub count : ℕ
    pub answer : Option String

  unfoldable pub bootstrap_connect : (net.AddrInfo → Option String) → List net.AddrInfo → Dialled
  unfolding dial_errors count_errors
  bootstrap_connect connect [] = record { count = 0; answer = some "not enough bootstrap peers" }
  bootstrap_connect connect (p ∷ ps) = record {
    count = count_errors 0 (dial_errors connect (p ∷ ps));
    answer = none;
  }

  -- Start: the error, or nil, and the manager that it leaves.
  unfoldable pub start_host :
      (net.AddrInfo → Option String)
      → LibP2PManager
      → Result net.State
      → LibP2PManager × Option String
  unfolding bootstrap_connect
  start_host connect m (err e) = (m, some e)
  start_host connect m (ok s) =
      (record m { host = some s }, (bootstrap_connect connect m.bootstrap_peers).answer)

  unfoldable pub start :
      (net.AddrInfo → Option String) → LibP2PManager → LibP2PManager × Option String
  unfolding start_host
  start connect m = elim net.new_conn_manager [
    | err e ↦ (m, some e)
    | ok _ ↦ start_host connect m (net.new_host m.listen_addr m.private_key)
  ]
