-- ===== src/Tests/NodeRuns.antt =====
-- The theorems on the local streams and the manager of streams, at a libp2p whose keys are bytes.
use tss_server.Prelude.{
  ℕ, text, Text, String, none, some, List, [], ◌∷◌, ok, ◌≡◌, refl, arith, Option, ◌==◌,
  if◌then◌else◌,
}
use tss_server.Proto.{key_gen_start, key_sign_cancel}
use tss_server.P2p.Channel.{Effect, done, blocks, panics}
use tss_server.P2p.Local.{caller, handler, send_msg, recv_msg, close}
use tss_server.P2p.Local.Fifo.{
  Op, send, recv, shut_down, World, step, run, fresh, IsFifo, run-IsFifo,
}
use tss_server.P2p.Node.{
  Network, LibP2PManager, new_lib_p2p_manager, load, bootstrap_connect, start, new_stream,
  open_local,
}
use tss_server.P2p.Node.Bootstrap.{start_ignores_failures}
use tss_server.P2p.Node.Handlers.{
  Registration, set, remove, last_handler, register_all, new_stream-last_handler,
}

-- Both ends send, the handler reads, and both close.
abbrev calls : List Op
calls =
    send caller key_gen_start
    ∷ send handler key_sign_cancel
    ∷ send caller key_sign_cancel
    ∷ recv handler
    ∷ shut_down caller
    ∷ recv handler
    ∷ recv handler
    ∷ shut_down handler
    ∷ []

abbrev world_of : Effect World → World
world_of e = elim e [ done w ↦ w | blocks ↦ fresh | panics ↦ fresh ]

unfoldable ended : World
unfolding run step send_msg recv_msg close
ended = world_of (run calls fresh)

calls-done : run calls fresh ≡ done ended
unfolding ended
calls-done = refl

fresh-IsFifo : IsFifo fresh
fresh-IsFifo = ((refl, omega arith), (refl, omega arith))

run-IsFifo_example : IsFifo ended
run-IsFifo_example = run-IsFifo calls fresh ended fresh-IsFifo calls-done

-- The state of a host is what was registered; handlers are numbers.
abbrev pub network : Network ℕ
network = record {
  PrivKey = Text;
  PeerId = Text;
  AddrInfo = Text;
  Multiaddr = Text;
  Stream = Text × Text;
  State = List Text;
  id_from_private_key = λ key. ok key;
  public_raw = λ key. ok key;
  show_peer = λ p. p;
  decode_peer = λ t. ok t;
  new_conn_manager = ok tt;
  new_host = λ addr key. ok [];
  set_stream_handler = λ s k h. k ∷ s;
  remove_stream_handler = λ s k. s;
  new_stream = λ s p k. ok (p, k);
}

abbrev pub missing : Text → String
missing k = "local protocol handler not found"

abbrev node : LibP2PManager ℕ network missing
node = record {
  bootstrap_peers = text "b" ∷ text "c" ∷ [];
  listen_addr = text "addr";
  private_key = text "a";
  local_party_id = record { id = text "a"; moniker = text "m"; key = text "a" };
  local_handlers = [];
  host = none;
}

-- "b" is down, and "c" is up.
abbrev dial : Text → Option String
dial p = if p == text "b" then some "down" else none

start_ignores_failures_example :
    (start ℕ network missing dial node ≡ (record node { host = some [] }, none))
    × ((bootstrap_connect ℕ network missing dial (text "b" ∷ text "c" ∷ [])).count ≡ 1)
unfolding new_lib_p2p_manager ◌==◌
start_ignores_failures_example =
    start_ignores_failures ℕ network missing dial (text "b" ∷ text "c" ∷ []) (text "addr")
      (text "a") (text "m") node [] refl refl refl

abbrev pub up : LibP2PManager ℕ network missing
up = record node { host = some [] }

abbrev registrations : List (Registration ℕ)
registrations = set (text "x") 1 ∷ set (text "y") 2 ∷ remove (text "x") ∷ []

new_stream-last_handler_example :
    (m' : LibP2PManager ℕ network missing) × (register_all network missing registrations up
      ≡ done m')
    × ((k : Text)
        → new_stream ℕ network missing m' (text "a") k
          ≡ done (open_local ℕ network missing k (last_handler k none registrations)))
unfolding load
new_stream-last_handler_example = new_stream-last_handler network missing registrations up [] refl
