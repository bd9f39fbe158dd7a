-- ===== src/Session/Replies.antt =====
-- The loop of a session does not reply to the coordinator.
use tss_server.Prelude.{
  Text, String, Bool, true, false, Option, none, some, List, [], ◌∷◌, ◌++◌, Result, ok, err, ◌≡◌,
  refl, ap, ◌∙◌, subst,
}
use tss_server.Proto
use tss_server.Proto.{TssP2PMsg, process_update, process_error}
use tss_server.Session.{
  TssLib, Seat, Delivery, Action, reply, send, update, Event, done, process, out, end, failed, Turn,
  goes_on, fails, peer_failed, ends, deliver, deliver_all, after_deliveries, on_process, on_out,
  turn, event_loop, recipients, update_msg, find_party, sorted_parties,
}

module _ (lib : TssLib) where
  -- What a list of actions replies, in its order.
  abbrev pub replies : List (Action lib) → List TssP2PMsg
  replies [] = []
  replies (reply m ∷ acts) = m ∷ replies acts
  replies (send to m ∷ acts) = replies acts
  replies (update m ∷ acts) = replies acts

  pub replies-append :
      (front back : List (Action lib)) → replies (front ++ back) ≡ replies front ++ replies back
  replies-append [] back = refl
  replies-append (reply m ∷ acts) back = ap (λ l. m ∷ l) (replies-append acts back)
  replies-append (send to m ∷ acts) back = replies-append acts back
  replies-append (update m ∷ acts) back = replies-append acts back

  deliver_all-quiet :
      (close_ends : Bool) (delivery : Text → Delivery) (m : TssP2PMsg) (ps : List Proto.PartyId)
      → replies (deliver_all lib close_ends delivery m ps).0 ≡ []
  unfolding deliver_all
  deliver_all-quiet close_ends delivery m [] = refl
  deliver_all-quiet close_ends delivery m (p ∷ ps) =
      by_one (deliver lib close_ends (delivery p.id)) refl
        (deliver_all-quiet close_ends delivery m ps)
    where
      by_one :
          (one : Bool × Option String)
          → deliver lib close_ends (delivery p.id) ≡ one
          → replies (deliver_all lib close_ends delivery m ps).0 ≡ []
          → replies (deliver_all lib close_ends delivery m (p ∷ ps)).0 ≡ []
      by_one (true, some e) h rest = rw (deliver_all, h, h)
      by_one (true, none) h rest = rw (deliver_all, h, h) rest
      by_one (false, some e) h rest = rw (deliver_all, h, h)
      by_one (false, none) h rest = rw (deliver_all, h, h) rest

  module _ (S : Type 0) where
    -- What a turn does holds no reply.
    IsQuiet : Turn lib S → Type 0
    IsQuiet (goes_on acts) = replies acts ≡ []
    IsQuiet (fails acts e) = replies acts ≡ []
    IsQuiet _ = Unit {0}

    on_process-IsQuiet : (seat : Seat lib) (m : TssP2PMsg) → IsQuiet (on_process lib seat m)
    unfolding on_process IsQuiet
    on_process-IsQuiet seat (process_update u) =
        by_party (find_party lib (sorted_parties lib seat.all) u.from_party_id) refl
      where
        by_party :
            (o : Option lib.PartyId)
            → find_party lib (sorted_parties lib seat.all) u.from_party_id ≡ o
            → IsQuiet (on_process lib seat (process_update u))
        by_party none h = rw (on_process, h) refl
        by_party (some from) h =
            by_parse (lib.parse_wire_message u.msg_wire_bytes from u.is_broadcast) refl
          where
            by_parse :
                (r : Result lib.ParsedMessage)
                → lib.parse_wire_message u.msg_wire_bytes from u.is_broadcast ≡ r
                → IsQuiet (on_process lib seat (process_update u))
            by_parse (ok m) p = rw (on_process, h, p) refl
            by_parse (err e) p = rw (on_process, h, p) refl
    on_process-IsQuiet seat (process_error e) = tt
    on_process-IsQuiet seat m = refl

    after_deliveries-IsQuiet :
        (r : List (Action lib) × Option String)
        → replies r.0 ≡ []
        → IsQuiet (after_deliveries lib r)
    unfolding after_deliveries IsQuiet
    after_deliveries-IsQuiet (sent, some e) h = h
    after_deliveries-IsQuiet (sent, none) h = h

    on_out-IsQuiet :
        (seat : Seat lib) (msg : lib.Message) (delivery : Text → Delivery)
        → IsQuiet (on_out lib seat msg delivery)
    unfolding on_out IsQuiet
    on_out-IsQuiet seat msg delivery = by_bytes (lib.wire_bytes msg) refl
      where
        by_bytes :
            (r : Result Text) → lib.wire_bytes msg ≡ r → IsQuiet (on_out lib seat msg delivery)
        by_bytes (err e) h = rw (on_out, h) refl
        by_bytes (ok bytes) h =
            rw (on_out, h)
              (after_deliveries-IsQuiet _ (
                deliver_all-quiet seat.close_ends delivery (update_msg lib seat.local_id bytes msg)
                  (recipients lib seat.local_id seat.all msg)))

    turn-IsQuiet : (seat : Seat lib) (x : Event lib S) → IsQuiet (turn lib seat x)
    unfolding turn IsQuiet
    turn-IsQuiet seat (done e) = refl
    turn-IsQuiet seat (process m) = on_process-IsQuiet seat m
    turn-IsQuiet seat (out msg delivery) = on_out-IsQuiet seat msg delivery
    turn-IsQuiet seat (end r) = tt
    turn-IsQuiet seat (failed e) = refl

    -- Whatever the loop takes, it sends no reply to the coordinator.
    pub event_loop-no_replies :
        (seat : Seat lib) (es : List (Event lib S)) → replies (event_loop lib seat es).0 ≡ []
    unfolding event_loop IsQuiet
    event_loop-no_replies seat [] = refl
    event_loop-no_replies seat (x ∷ es) =
        by_turn (turn lib seat x) refl (turn-IsQuiet seat x) (event_loop-no_replies seat es)
      where
        by_turn :
            (t : Turn lib S)
            → turn lib seat x ≡ t
            → IsQuiet (turn lib seat x)
            → replies (event_loop lib seat es).0 ≡ []
            → replies (event_loop lib seat (x ∷ es)).0 ≡ []
        by_turn (goes_on acts) h quiet rest =
            rw (event_loop, h)
              (replies-append acts (event_loop lib seat es).0
                ∙ ap (λ l. l ++ replies (event_loop lib seat es).0) (subst IsQuiet h quiet)
                ∙ rest)
        by_turn (fails acts e) h quiet rest = rw (event_loop, h) (subst IsQuiet h quiet)
        by_turn (peer_failed e) h quiet rest = rw (event_loop, h)
        by_turn (ends r) h quiet rest = rw (event_loop, h)

-- What RecvMsg gives of the messages that the other end of a stream sends, the first time and the
-- second.
abbrev pub first_of : List TssP2PMsg → Result TssP2PMsg
first_of [] = err "EOF"
first_of (m ∷ ms) = ok m

abbrev pub second_of : List TssP2PMsg → Result TssP2PMsg
second_of [] = err "EOF"
second_of (m ∷ ms) = first_of ms

pub replies_around :
    (lib : TssLib) (a b : TssP2PMsg) (acts : List (Action lib))
    → replies lib acts ≡ []
    → replies lib (reply a ∷ (acts ++ reply b ∷ [])) ≡ a ∷ b ∷ []
replies_around lib a b acts quiet =
    ap (λ l. a ∷ l) (replies-append lib acts (reply b ∷ []) ∙ ap (λ l. l ++ b ∷ []) quiet)
