-- ===== src/Session.antt =====
-- The party's side of a session, which handleKeyGen0 of tss/tss_keygen.go and handleKeySign0 of
-- tss/tss_keysign.go share: the parties by their sorted ids, and the loop that passes messages
-- between the local party of tss-lib and the other parties.
pub mod Streams
pub mod Parties
pub mod Addressed
pub mod Exchange
pub mod Replies
use tss_server.Prelude.{
  ℕ, Text, String, ◌==◌, Bool, true, false, Option, none, some, List, [], ◌∷◌, ◌++◌, map, Result,
  ok, err, if◌then◌else◌, Memᴰ, ◌≡◌,
}
use tss_server.Prelude.BigInt.{set_bytes}
use tss_server.Proto
use tss_server.Proto.{TssP2PMsg, ProcessUpdateMsg, process_update, process_error}

-- tss-lib, as the sessions use it. `new_party_id` is NewPartyID; `wire_bytes` and
-- `parse_wire_message` are those of its messages.
pub record TssLib : Type 1 where
  pub PartyId : Type 0
  pub Message : Type 0
  pub ParsedMessage : Type 0
  pub new_party_id : Text → Text → ℕ → PartyId
  pub get_id : PartyId → Text
  pub get_moniker : PartyId → Text
  pub get_key : PartyId → Text
  pub sort_party_ids : List PartyId → List PartyId
  pub get_to : Message → Option (List PartyId)
  pub wire_bytes : Message → Result Text
  pub parse_wire_message : Text → PartyId → Bool → Result ParsedMessage
  -- A party has the id that it is made with.
  pub get_id-new_party_id :
      (id moniker : Text) (key : ℕ) → get_id (new_party_id id moniker key) ≡ id
  -- Sorting keeps every party, and adds none.
  pub sort-keeps : (ps : List PartyId) (p : PartyId) → Memᴰ p ps → Memᴰ p (sort_party_ids ps)
  pub sort-adds_none : (ps : List PartyId) (p : PartyId) → Memᴰ p (sort_party_ids ps) → Memᴰ p ps

-- How NewStream, SendMsg and Close of a session stream end: with an error, if there is one.
pub record Delivery : Type 0 where
  pub open_error : Option String
  pub send_error : Option String
  pub close_error : Option String

module _ (lib : TssLib) where
  unfoldable pub convert_to_tss_party_id : Proto.PartyId → lib.PartyId
  convert_to_tss_party_id p = lib.new_party_id p.id p.moniker (set_bytes p.key)

  unfoldable pub convert_to_pb_party_id : lib.PartyId → Proto.PartyId
  convert_to_pb_party_id p = record {
    id = lib.get_id p;
    moniker = lib.get_moniker p;
    key = lib.get_key p;
  }

  -- idToTssSortedPartyIdMap: of two parties with one id, the later stands in the map.
  unfoldable pub find_party : List lib.PartyId → Text → Option lib.PartyId
  find_party [] id = none
  find_party (p ∷ ps) id = elim (find_party ps id) [
    | some q ↦ some q
    | none ↦ if lib.get_id p == id then some p else none
  ]

  abbrev pub sorted_parties : List Proto.PartyId → List lib.PartyId
  sorted_parties ps = lib.sort_party_ids (map convert_to_tss_party_id ps)

  -- What a handler does towards the others: it replies to the coordinator, sends a message to a
  -- party, or gives the local party one.
  pub data Action : Type 0 where
    reply : TssP2PMsg → Action
    send : Text → TssP2PMsg → Action
    update : lib.ParsedMessage → Action

  -- What the `select` of the loop takes. With a message of the local party comes how each of its
  -- deliveries ends.
  pub data Event (S : Type 0) : Type 0 where
    done : String → Event S
    process : TssP2PMsg → Event S
    out : lib.Message → (Text → Delivery) → Event S
    end : S → Event S
    failed : String → Event S

  -- What one turn of the loop comes to.
  pub data Turn (S : Type 0) : Type 0 where
    goes_on : List Action → Turn S
    fails : List Action → String → Turn S
    peer_failed : String → Turn S
    ends : S → Turn S

  unfoldable pub others : Text → List Proto.PartyId → List Proto.PartyId
  others local_id [] = []
  others local_id (p ∷ ps) =
      let rest = others local_id ps in if p.id == local_id then rest else p ∷ rest

  -- toPbPartyIds
  unfoldable pub recipients : Text → List Proto.PartyId → lib.Message → List Proto.PartyId
  unfolding others convert_to_pb_party_id
  recipients local_id all msg = elim (lib.get_to msg) [
    | none ↦ others local_id all
    | some to ↦ map convert_to_pb_party_id to
  ]

  -- One round of the loop over the recipients: whether the message was sent, and the error that
  -- ends the session. An error of Close ends the session in handleKeyGen0 only.
  unfoldable pub deliver : Bool → Delivery → Bool × Option String
  deliver close_ends d = elim d.open_error [
    | some e ↦ (false, some e)
    | none ↦ elim d.send_error [
      | some e ↦ (false, some e)
      | none ↦ (true, if close_ends then d.close_error else none)
    ]
  ]

  -- Sends one message to each recipient in turn, up to the first error.
  unfoldable pub deliver_all :
      Bool → (Text → Delivery) → TssP2PMsg → List Proto.PartyId → List Action × Option String
  unfolding deliver
  deliver_all close_ends delivery m [] = ([], none)
  deliver_all close_ends delivery m (p ∷ ps) =
      let rest = deliver_all close_ends delivery m ps in
      let one = deliver close_ends (delivery p.id) in
      let sent = if one.0 then send p.id m ∷ [] else [] in
      elim one.1 [ some e ↦ (sent, some e) | none ↦ (sent ++ rest.0, rest.1) ]

  -- A session of the parties `all`, seen by one of them.
  pub record Seat : Type 0 where
    pub local_id : Text
    pub all : List Proto.PartyId
    pub close_ends : Bool

  unfoldable pub update_msg : Text → Text → lib.Message → TssP2PMsg
  update_msg local_id bytes msg = process_update (record {
    from_party_id = local_id;
    msg_wire_bytes = bytes;
    is_broadcast = elim (lib.get_to msg) [ none ↦ true | some _ ↦ false ];
  })

  module _ {S : Type 0} where
    unfoldable pub on_process : Seat → TssP2PMsg → Turn S
    unfolding find_party
    on_process seat (process_update u) =
        elim (find_party (sorted_parties seat.all) u.from_party_id) [
          | none ↦ fails [] "fromPartyID not found in sortedPartyId"
          | some from ↦ elim (lib.parse_wire_message u.msg_wire_bytes from u.is_broadcast) [
            | err e ↦ fails [] e
            | ok m ↦ goes_on (update m ∷ [])
          ]
        ]
    on_process seat (process_error e) = peer_failed e.error_msg
    on_process seat _ = fails [] "invalid p2pMsgType"

    unfoldable pub after_deliveries : List Action × Option String → Turn S
    after_deliveries (sent, some e) = fails sent e
    after_deliveries (sent, none) = goes_on sent

    unfoldable pub on_out : Seat → lib.Message → (Text → Delivery) → Turn S
    unfolding after_deliveries deliver_all recipients update_msg
    on_out seat msg delivery = elim (lib.wire_bytes msg) [
      | err e ↦ fails [] e
      | ok bytes ↦ after_deliveries (
          deliver_all seat.close_ends delivery (update_msg seat.local_id bytes msg)
            (recipients seat.local_id seat.all msg))
    ]

    unfoldable pub turn : Seat → Event S → Turn S
    unfolding on_process on_out
    turn seat (done e) = fails [] e
    turn seat (process m) = on_process seat m
    turn seat (out msg delivery) = on_out seat msg delivery
    turn seat (end x) = ends x
    turn seat (failed e) = fails [] e

  -- How the loop ends, or that it waits.
  pub data Ending (S : Type 0) : Type 0 where
    waiting : Ending S
    returned : String → Ending S
    peer_failed : String → Ending S
    ended : S → Ending S

  unfoldable pub event_loop : {S : Type 0} → Seat → List (Event S) → List Action × Ending S
  unfolding turn
  event_loop seat [] = ([], waiting)
  event_loop seat (x ∷ es) = elim (turn seat x) [
    | goes_on acts ↦ let rest = event_loop seat es in (acts ++ rest.0, rest.1)
    | fails acts e ↦ (acts, returned e)
    | peer_failed e ↦ ([], Ending.peer_failed e)
    | ends r ↦ ([], ended r)
  ]
