-- ===== src/Session/Exchange.antt =====
-- Two parties of a session: what the loop of one sends the other, and what the loop of the other gives
-- its own local party of it.
use tss_server.Prelude.{
  Text, Option, none, some, List, [], ◌∷◌, ◌++◌, map, ok, ◌≡◌, refl, sym, ap, ◌∙◌, subst, arith,
  Permᴰ-map,
}
use mathlib.Core.List.{Permᴰ, map-append}
use tss_server.Proto.{TssP2PMsg}
use tss_server.P2p.StreamMap.{HasId, HasDistinctIds}
use tss_server.Session.{
  TssLib, Seat, Delivery, Action, update, goes_on, process, out, find_party, sorted_parties,
  recipients, update_msg, after_deliveries, on_process, on_out, turn, event_loop, waiting,
}
use tss_server.Session.Parties.{find_party-sorted, find_party-own}
use tss_server.Session.Addressed.{
  IsDelivered, sent_to, sent_to-append, for_party, addressed, is_broadcast, sends,
  deliver_all-delivered, sent_to-others, sent_to-named,
}

module _ (lib : TssLib) (bytes : lib.Message → Text)
    (parsed : lib.Message → lib.PartyId → lib.ParsedMessage)
    (encodes : (m : lib.Message) → lib.wire_bytes m ≡ ok (bytes m))
    (parses : (m : lib.Message) (p : lib.PartyId)
      → lib.parse_wire_message (bytes m) p (is_broadcast lib m) ≡ ok (parsed m p))
    (sender receiver : Seat lib) where
  -- What carries a message of the sender.
  abbrev carried : lib.Message → TssP2PMsg
  carried m = update_msg lib sender.local_id (bytes m) m

  on_out-delivered :
      (S : Type 0) (m : lib.Message) (delivery : Text → Delivery)
      → ((id : Text) → IsDelivered (delivery id))
      → on_out lib {S = S} sender m delivery
        ≡ goes_on (sends lib (carried m) (recipients lib sender.local_id sender.all m))
  unfolding on_out after_deliveries
  on_out-delivered S m delivery fine = rw (
    on_out,
    encodes m,
    deliver_all-delivered lib (carried m) sender.close_ends delivery fine
        (recipients lib sender.local_id sender.all m),
  )

  sent_to-recipients :
      (m : lib.Message)
      → HasDistinctIds sender.all
      → HasId receiver.local_id sender.all
      → sent_to lib receiver.local_id
          (sends lib (carried m) (recipients lib sender.local_id sender.all m))
        ≡ map carried (for_party lib sender.local_id receiver.local_id m (lib.get_to m))
  unfolding recipients
  sent_to-recipients m distinct at = by_to (lib.get_to m) refl
    where
      by_to :
          (to : Option (List lib.PartyId))
          → lib.get_to m ≡ to
          → sent_to lib receiver.local_id
              (sends lib (carried m) (recipients lib sender.local_id sender.all m))
            ≡ map carried (for_party lib sender.local_id receiver.local_id m to)
      by_to none h =
          rw (recipients, h)
            (sent_to-others lib (carried m) sender.local_id receiver.local_id sender.all distinct at
              ∙ ground arith)
      by_to (some to) h =
          rw (recipients, h) (sent_to-named lib (carried m) receiver.local_id m to carried refl)

  -- Whatever messages tss-lib gives a party, when each delivery goes well, the loop sends another
  -- party of the session those that are for it, in their order.
  pub sends_addressed :
      (S : Type 0) (delivery : Text → Delivery)
      → ((id : Text) → IsDelivered (delivery id))
      → HasDistinctIds sender.all
      → HasId receiver.local_id sender.all
      → (ms : List lib.Message)
      → (acts : List (Action lib)) × (event_loop lib {S = S} sender (map (λ m. out m delivery) ms)
          ≡ (acts, waiting))
        × (sent_to lib receiver.local_id acts
            ≡ map carried (addressed lib sender.local_id receiver.local_id ms))
  unfolding event_loop turn
  sends_addressed S delivery fine distinct at [] = ([], refl, refl)
  sends_addressed S delivery fine distinct at (m ∷ ms) =
      let (rest, run, later) = sends_addressed S delivery fine distinct at ms in
      let first = on_out-delivered S m delivery fine in
      let now = sends lib (carried m) (recipients lib sender.local_id sender.all m) in
      (
        now ++ rest,
        rw (event_loop, first, run),
        sent_to-append lib receiver.local_id now rest
            ∙ ap (λ l. l ++ sent_to lib receiver.local_id rest) (sent_to-recipients m distinct at)
            ∙ ap
                (λ l.
                  map carried (for_party lib sender.local_id receiver.local_id m (lib.get_to m))
                  ++ l)
                later
            ∙ sym (
                map-append carried
                  (for_party lib sender.local_id receiver.local_id m (lib.get_to m))
                  (addressed lib sender.local_id receiver.local_id ms)),
      )

  module _ (from : lib.PartyId)
      (known : find_party lib (sorted_parties lib receiver.all) sender.local_id ≡ some from) where
    on_process-carried :
        (S : Type 0) (m : lib.Message)
        → on_process lib {S = S} receiver (carried m) ≡ goes_on (update (parsed m from) ∷ [])
    unfolding on_process update_msg
    on_process-carried S m = rw (on_process, known, parses m from)

    takes_carried :
        (S : Type 0) (ms : List lib.Message)
        → event_loop lib {S = S} receiver (map (λ m. process (carried m)) ms)
          ≡ (map (λ m. update (parsed m from)) ms, waiting)
    unfolding event_loop turn
    takes_carried S [] = refl
    takes_carried S (m ∷ ms) = rw (event_loop, on_process-carried S m, takes_carried S ms)

  -- What the tss-lib of one party of a session says to another party reaches the tss-lib of that
  -- party: the loop of the first sends the messages that are for the second and no others to it,
  -- and when the loop of the second takes these, in whatever order, its local party is updated
  -- with each of them, as a message of the first party. It holds where each delivery goes well,
  -- the two know each other as parties of the session, whose ids are distinct, and tss-lib parses
  -- what it wrote, as a broadcast just when it is one.
  pub messages_arrive :
      (S : Type 0) (delivery : Text → Delivery) (ms taken : List lib.Message)
      → ((id : Text) → IsDelivered (delivery id))
      → HasDistinctIds sender.all
      → HasId receiver.local_id sender.all
      → HasId sender.local_id receiver.all
      → Permᴰ taken (addressed lib sender.local_id receiver.local_id ms)
      → (from : lib.PartyId) × (sent acts : List (Action lib)) × (lib.get_id from ≡ sender.local_id)
        × (event_loop lib {S = S} sender (map (λ m. out m delivery) ms) ≡ (sent, waiting))
        × Permᴰ (map carried taken) (sent_to lib receiver.local_id sent)
        × (event_loop lib {S = S} receiver (map (λ m. process (carried m)) taken) ≡ (acts, waiting))
        × Permᴰ acts
            (map (λ m. update (parsed m from)) (addressed lib sender.local_id receiver.local_id ms))
  messages_arrive S delivery ms taken fine distinct to_receiver from_sender order =
      let (sent, run, arrives) = sends_addressed S delivery fine distinct to_receiver ms in
      let (from, known) = find_party-sorted lib receiver.all sender.local_id from_sender in
      (
        from,
        sent,
        map (λ m. update (parsed m from)) taken,
        find_party-own lib (sorted_parties lib receiver.all) sender.local_id from known,
        run,
        subst (Permᴰ (map carried taken)) (sym arrives) (Permᴰ-map carried order),
        takes_carried from known S taken,
        Permᴰ-map (λ m. update (parsed m from)) order,
      )
