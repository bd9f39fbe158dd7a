-- ===== src/P2p/Node/Bootstrap.antt =====
-- What bootstrapConnect makes of its failures.
use tss_server.Prelude.{
  ℕ, ◌+◌, Text, String, Option, none, some, List, [], ◌∷◌, length, ok, >>=-eq-ok, ok_injective,
  subst, ◌≡◌, refl, arith,
}
use tss_server.P2p.Node.{
  Network, LibP2PManager, new_lib_p2p_manager, dial_errors, count_errors, bootstrap_connect, start,
  start_host,
}

module _ (H : Type 0) (net : Network H) (no_local_handler : Text → String) where
  count_errors-length :
      (n : ℕ) (errs : List String) → count_errors H net no_local_handler n errs ≡ n + length errs
  unfolding count_errors
  count_errors-length n [] = omega arith
  count_errors-length n (e ∷ errs) = omega (arith, count_errors-length (n + 1) errs)

  -- The peers whose connection fails.
  abbrev pub failures : (net.AddrInfo → Option String) → List net.AddrInfo → ℕ
  failures connect [] = 0
  failures connect (p ∷ ps) = elim (connect p) [
    | none ↦ failures connect ps
    | some e ↦ failures connect ps + 1
  ]

  length-dial_errors :
      (connect : net.AddrInfo → Option String) (ps : List net.AddrInfo)
      → length (dial_errors H net no_local_handler connect ps) ≡ failures connect ps
  unfolding dial_errors
  length-dial_errors connect [] = refl
  length-dial_errors connect (p ∷ ps) = by_peer (connect p) refl (length-dial_errors connect ps)
    where
      by_peer :
          (o : Option String)
          → connect p ≡ o
          → length (dial_errors H net no_local_handler connect ps) ≡ failures connect ps
          → length (dial_errors H net no_local_handler connect (p ∷ ps)) ≡ failures connect (p ∷ ps)
      by_peer none at rest = rw (at, dial_errors, failures) rest
      by_peer (some e) at rest = rw (at, dial_errors, failures) (omega (arith, rest))

  -- A manager that NewLibP2PManager makes starts without an error, and has its host, once
  -- NewConnManager and libp2p.New succeed, whichever connections to bootstrap peers fail, be it
  -- none, some or all: bootstrapConnect counts those that fail, and returns nil, when each Connect
  -- has returned.
  pub start_ignores_failures :
      (connect : net.AddrInfo → Option String) (peers : List net.AddrInfo) (addr : net.Multiaddr)
      (key : net.PrivKey) (moniker : Text) (m : LibP2PManager H net no_local_handler)
      (s : net.State)
      → new_lib_p2p_manager H net no_local_handler peers addr key moniker ≡ ok m
      → net.new_conn_manager ≡ ok tt
      → net.new_host addr key ≡ ok s
      → (start H net no_local_handler connect m ≡ (record m { host = some s }, none))
        × ((bootstrap_connect H net no_local_handler connect m.bootstrap_peers).count
            ≡ failures connect peers)
  unfolding new_lib_p2p_manager start start_host bootstrap_connect
  start_ignores_failures connect [] addr key moniker m s made cm host = cc
  start_ignores_failures connect (p ∷ ps) addr key moniker m s made cm host =
      let (peer_id, hp, rest) = >>=-eq-ok (net.id_from_private_key key) _ made in
      let (raw, hr, is_m) = >>=-eq-ok (net.public_raw key) _ rest in
      let fields = ok_injective is_m in
      subst
        (λ (x : LibP2PManager H net no_local_handler).
          (start H net no_local_handler connect x ≡ (record x { host = some s }, none))
          × ((bootstrap_connect H net no_local_handler connect x.bootstrap_peers).count
              ≡ failures connect (p ∷ ps)))
        fields
        (
          rw (cm, host),
          omega (
            arith,
            count_errors-length 0 (dial_errors H net no_local_handler connect (p ∷ ps)),
            length-dial_errors connect (p ∷ ps),
          ),
        )
