-- ===== src/KeySign/Ready.antt =====
-- The loop of KeySign that waits for ready parties, and what it does with those it has.
use tss_server.Prelude.{ℕ, String, List, [], ◌∷◌, length, if◌then◌else◌, ◌+◌}
use tss_server.Prelude.Int.{ℤ, int32, ltb_ℤ, eqb_ℤ}
use tss_server.Proto.{PartyId}
use tss_server.P2p.{P2PStream}
use tss_server.P2p.StreamMap.{StreamMap, contains, store}

-- What `select` takes.
pub data Event : Type 0 where
  done : String → Event
  error : String → Event
  stream : P2PStream → Event

-- The loop returns an error, goes on with a map and what the channels still hold, or, when there
-- is nothing more to take, waits.
pub data Wait : Type 0 where
  returned : String → Wait
  proceed : StreamMap → List Event → Wait
  waiting : StreamMap → Wait

unfoldable pub wait_for_ready : ℤ → List Event → StreamMap → Wait
wait_for_ready threshold [] m = waiting m
wait_for_ready threshold (done e ∷ es) m = returned e
wait_for_ready threshold (error e ∷ es) m = returned e
wait_for_ready threshold (stream p ∷ es) m =
    let m' = store m p in
    let rest = wait_for_ready threshold es m' in
    if ltb_ℤ threshold (int32 (length m')) then proceed m' es else rest

-- signPartyIds
unfoldable pub sign_party_ids : List PartyId → StreamMap → List PartyId
sign_party_ids [] m = []
sign_party_ids (p ∷ ps) m =
    let rest = sign_party_ids ps m in if contains m p.id then p ∷ rest else rest

-- The goroutine that cancels the other parties: the streams to which it sends a cancel message, and
-- which it closes, of those that it takes from the channel.
unfoldable pub cancel_streams : ℤ → ℕ → List Event → List P2PStream
cancel_streams all cnt [] = []
cancel_streams all cnt (done e ∷ es) = []
cancel_streams all cnt (error e ∷ es) = cancel_streams all cnt es
cancel_streams all cnt (stream p ∷ es) =
    let rest = cancel_streams all (cnt + 1) es in
    if eqb_ℤ (int32 (cnt + 1)) all then p ∷ [] else p ∷ rest
