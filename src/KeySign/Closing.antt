-- ===== src/KeySign/Closing.antt =====
-- Which of the ready streams KeySign closes, and by whom: the deferred function, when the call
-- returns, and the goroutine that cancels the parties that are not needed.
pub mod Once
use tss_server.Prelude.{ℕ, ◌-◌, Text, List, [], ◌++◌, length, drop, ltb, if◌then◌else◌}
use tss_server.Prelude.Int.{int32}
use tss_server.Proto.{KeyData}
use tss_server.P2p.{P2PStream}
use tss_server.P2p.StreamMap.{StreamMap}
use tss_server.KeySign.Ready.{Event, Wait, returned, proceed, waiting, cancel_streams}
use tss_server.KeySign.Finish.{Finished}
use tss_server.KeySign.Calls.{waited}
use tss_server.KeySign.Run.{
  Environment, Pick, report_errors, report_streams, take_ready, all_done, finish_run,
}

-- The deferred function goes over the map when the call returns; `range` has the order in which it
-- does, which Go leaves open.
unfoldable pub deferred_closes :
    (StreamMap → List P2PStream) → StreamMap → Finished → List P2PStream
deferred_closes range m Finished.waiting = []
deferred_closes range m (Finished.returned e) = range m
deferred_closes range m (Finished.signed r) = range m
deferred_closes range m (Finished.all_failed e) = range m

-- The goroutine that cancels, if there is one: the streams `ps` are in readyP2PStreamChan, and
-- `picks` are the choices of its `select`, which does not look at errChan.
unfoldable pub cancel_closes : ℕ → StreamMap → List Pick → List P2PStream → List P2PStream
cancel_closes parties m picks ps =
    if ltb (length m) parties
    then cancel_streams (int32 parties) (length m) (take_ready picks [] ps)
    else []

-- What the first loop, which took the events up to `left`, all of them streams, leaves in the
-- channel.
unfoldable pub left_streams : Environment → List Event → List P2PStream
left_streams env left =
    let ps = report_streams env.reports in
    drop (length (take_ready env.ready_picks (report_errors env.reports) ps) - length left) ps

unfoldable pub closed_after :
    (StreamMap → List P2PStream) → Environment → Text → KeyData → List Pick → Wait → List P2PStream
unfolding deferred_closes cancel_closes left_streams
closed_after range env session_id d cancel_picks (returned e) = []
closed_after range env session_id d cancel_picks (waiting m) = []
closed_after range env session_id d cancel_picks (proceed m left) =
    deferred_closes range m (finish_run env session_id d m).answer
    ++ cancel_closes (length d.all_party_id) m cancel_picks (left_streams env left)

-- The ready streams that a call on the key `d` closes in all. The deferred function and the
-- goroutine run beside each other, so that the order of the two parts is not that of time.
unfoldable pub closed_streams :
    (StreamMap → List P2PStream) → Environment → Text → KeyData → List Pick → List P2PStream
unfolding closed_after
closed_streams range env session_id d cancel_picks =
    if all_done env.reports (length d.all_party_id)
    then closed_after range env session_id d cancel_picks (waited env d)
    else []
