-- ===== src/P2p/Node/Reconnect.antt =====
-- autoReconnect, which nothing calls, and Stop of LibP2PManager.
use tss_server.Prelude.{
  ℕ, suc, ◌*◌, ◌%◌, ◌^◌, ◌<◌, Text, String, Option, none, some, List, [], ◌∷◌, eqb, ltb, ◌≡◌, refl,
  arith, if◌then◌else◌,
}
use tss_server.P2p.Channel.{Effect, done, panics}
use tss_server.P2p.Node.{Network, LibP2PManager, bootstrap_connect}

-- The period of the ticker in nanoseconds, of the seconds that ParseInt gives. An int64 is its bit
-- pattern; NewTicker panics on a period that is not positive.
unfoldable pub period : ℕ → Effect ℕ
period auto_reconnect_time_sec =
    let sec = if eqb auto_reconnect_time_sec 0 then 3600 else auto_reconnect_time_sec in
    let nanoseconds = sec * 10 ^ 9 % 2 ^ 64 in
    if eqb nanoseconds 0
    then panics
    else if ltb nanoseconds (2 ^ 63)
    then done nanoseconds
    else panics

module _ (H : Type 0) (net : Network H) (no_local_handler : Text → String) where
  -- What one tick makes of its attempts, each of which connects in its own way: how many failed
  -- before one did not, or none while all have failed.
  unfoldable pub reconnect : List (net.AddrInfo → Option String) → List net.AddrInfo → Option ℕ
  reconnect [] peers = none
  reconnect (connect ∷ attempts) peers =
      let rest = reconnect attempts peers in
      elim (bootstrap_connect H net no_local_handler connect peers).answer [
        | none ↦ some 0
        | some e ↦ (elim rest [ none ↦ none | some n ↦ some (suc n) ])
      ]

  -- Stop: the error of the host's Close, or nil.
  unfoldable pub stop :
      (net.State → Option String) → LibP2PManager H net no_local_handler → Effect (Option String)
  stop close m = elim m.host [ none ↦ panics | some s ↦ done (close s) ]

  -- With a peer, a tick makes one attempt, whatever comes of it.
  reconnect-once :
      (connect : net.AddrInfo → Option String) (attempts : List (net.AddrInfo → Option String))
      (p : net.AddrInfo) (peers : List net.AddrInfo)
      → reconnect (connect ∷ attempts) (p ∷ peers) ≡ some 0
  unfolding reconnect bootstrap_connect
  reconnect-once connect attempts p peers = refl

-- The ticker runs for every number of seconds from 1 to 9,223,372,036.
period-done : (sec : ℕ) → 0 < sec → sec < 9223372037 → period sec ≡ done (sec * 10 ^ 9)
unfolding period
period-done sec some_sec few = ground arith
