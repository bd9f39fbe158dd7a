-- ===== src/Tests/ExchangeRuns.antt =====
-- Two parties of a session of three: "a" broadcasts a message, and sends "b" another one.
use tss_server.Prelude.{
  text, Text, String, true, none, some, List, [], ◌∷◌, map, ◌≡◌, refl, inl, inr, ◌==◌,
}
use mathlib.Core.List.{Permᴰ}
use tss_server.Proto.{PartyId}
use tss_server.Session.{
  Action, Delivery, Seat, event_loop, out, process, update, update_msg, waiting,
}
use tss_server.Session.Addressed.{sent_to}
use tss_server.Session.Exchange.{messages_arrive}
use tss_server.Tests.TssLib.{Outgoing, Peer, tss_lib}

abbrev party : String → PartyId
party id = record { id = text id; moniker = []; key = [] }

abbrev seat : String → Seat tss_lib
seat id = record {
  local_id = text id;
  all = party "a" ∷ party "b" ∷ party "c" ∷ [];
  close_ends = true;
}

abbrev fine : Text → Delivery
fine id = record { open_error = none; send_error = none; close_error = none }

abbrev to_all : Outgoing
to_all = record { to = none; bytes = 1 ∷ [] }

abbrev to_one : String → Outgoing
to_one id = record {
  to = some (record { id = text id; moniker = []; key = 0 } ∷ []);
  bytes = 2 ∷ [];
}

-- "b" takes the message that it alone gets first.
messages_arrive_example :
    (from : Peer) × (sent acts : List (Action tss_lib)) × (from.id ≡ text "a")
    × (event_loop tss_lib {S = Text}
          (seat "a")
          (map (λ m. out m fine) (to_all ∷ to_one "c" ∷ to_one "b" ∷ []))
        ≡ (sent, waiting))
    × Permᴰ
        (map (λ (m : Outgoing). update_msg tss_lib (text "a") m.bytes m) (to_one "b" ∷ to_all ∷ []))
        (sent_to tss_lib (text "b") sent)
    × (event_loop tss_lib {S = Text} (seat "b") (
          map
            (λ (m : Outgoing). process (update_msg tss_lib (text "a") m.bytes m))
            (to_one "b" ∷ to_all ∷ []))
        ≡ (acts, waiting))
    × Permᴰ acts (map (λ (m : Outgoing). update m.bytes) (to_all ∷ to_one "b" ∷ []))
unfolding ◌==◌
messages_arrive_example =
    messages_arrive tss_lib (λ m. m.bytes) (λ m p. m.bytes) (λ m. refl) (λ m p. refl) (seat "a")
      (seat "b") Text fine (to_all ∷ to_one "c" ∷ to_one "b" ∷ []) (to_one "b" ∷ to_all ∷ [])
      (λ id. (refl, refl, refl)) ((refl, (refl, tt)), ((refl, tt), (tt, tt))) (inr (inl refl))
      (inl refl) (Permᴰ.swap refl refl)
