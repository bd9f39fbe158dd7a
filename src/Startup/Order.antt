-- ===== src/Startup/Order.antt =====
-- What main has started, it stops.
use tss_server.Prelude.{String, Option, none, some, List, [], ◌∷◌}
use tss_server.Startup.{
  Part, storage, p2p, manager, server, Event, started, stopped, Stages, main, returning,
  unless_error,
}

-- The parts that run behind the events, the one started last in front, where every part that stops is
-- that one.
pub data Runs : List Part → List Event → List Part → Type 0 where
  idle : (running : List Part) → Runs running [] running
  starts :
      {running after : List Part} {es : List Event} (p : Part)
      → Runs (p ∷ running) es after
      → Runs running (started p ∷ es) after
  stops :
      {running after : List Part} {es : List Event} (p : Part)
      → Runs running es after
      → Runs (p ∷ running) (stopped p ∷ es) after

Runs-returning : (running : List Part) → Runs running (returning running) []
unfolding returning
Runs-returning [] = idle []
Runs-returning (p ∷ running) = stops p (Runs-returning running)

Runs-unless_error :
    (o : Option String) (running : List Part) (rest : List Event)
    → Runs running rest []
    → Runs running (unless_error o running rest) []
unfolding unless_error
Runs-unless_error (some e) running rest goes_on = Runs-returning running
Runs-unless_error none running rest goes_on = goes_on

-- Wherever main returns, it has stopped every part that it started, the last one first.
pub Runs-main : (stages : Stages) → Runs [] (main stages) []
unfolding main
Runs-main stages = Runs-unless_error stages.storage_error [] _ (
    starts storage (
      Runs-unless_error stages.peers_error _ _ (
        Runs-unless_error stages.listen_addr_error _ _ (
          Runs-unless_error stages.private_key_error _ _ (
            Runs-unless_error stages.new_p2p_error _ _ (
              Runs-unless_error stages.p2p_error _ _ (
                starts p2p (
                  starts manager (
                    starts server
                      (stops server (Runs-returning (manager ∷ p2p ∷ storage ∷ []))))))))))))
