-- ===== src/Tests/StartupRuns.antt =====
-- The theorems on what main starts and reads.
use tss_server.Prelude.{All, text, Text, none, some, List, [], ◌∷◌, map, Result, ok, ◌≡◌, ◌≢◌, refl}
use tss_server.Startup.{started, stopped, storage, Stages, main, comma, parse_p2p_bootstrap_peers}
use tss_server.Startup.Split.{join, Lacks, parse_peers-join}

abbrev peer : Text → Result Text
peer t = ok t

parse_peers-join_example :
    (texts : List Text) × (join comma texts ≡ text "/ip4/a,/ip4/b")
    × All (Lacks comma) texts
    × (map peer texts ≡ map ok (text "/ip4/a" ∷ text "/ip4/b" ∷ []))
    × (text "/ip4/a" ∷ text "/ip4/b" ∷ [] ≢ [])
unfolding parse_p2p_bootstrap_peers
parse_peers-join_example =
    parse_peers-join peer (text "/ip4/a,/ip4/b") (text "/ip4/a" ∷ text "/ip4/b" ∷ []) refl

abbrev no_host : Stages
no_host = record {
  storage_error = none;
  peers_error = none;
  listen_addr_error = none;
  private_key_error = none;
  new_p2p_error = none;
  p2p_error = some "no host";
}

-- Without a host, the storage is all that main starts and stops.
main-no_host : main no_host ≡ started storage ∷ stopped storage ∷ []
unfolding main
main-no_host = refl
