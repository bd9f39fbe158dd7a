-- ===== src/Session/Addressed.antt =====
-- What the loop of a session sends one party when each delivery goes well.
use tss_server.Prelude.{
  Text, ◌==◌, ==_iff, ==_refl, Bool, true, false, inl, inr, Option, none, some, List, [], ◌∷◌, ◌++◌,
  map, All, if◌then◌else◌, ◌≡◌, refl, sym, subst, arith,
}
use tss_server.Proto
use tss_server.Proto.{TssP2PMsg}
use tss_server.P2p.StreamMap.{HasId, HasDistinctIds, HasId-apart}
use tss_server.Session.{
  TssLib, Delivery, Action, send, update, reply, convert_to_pb_party_id, others, deliver,
  deliver_all,
}

-- NewStream, SendMsg and Close all go well.
abbrev pub IsDelivered : Delivery → Type 0
IsDelivered d = (d.open_error ≡ none) × (d.send_error ≡ none) × (d.close_error ≡ none)

module _ (lib : TssLib) where
  deliver-delivered :
      (close_ends : Bool) (d : Delivery) → IsDelivered d → deliver lib close_ends d ≡ (true, none)
  unfolding deliver
  deliver-delivered true d (opened, sent, closed) = rw (opened, sent, closed)
  deliver-delivered false d (opened, sent, closed) = rw (opened, sent)

  -- What a list of actions sends one party, in its order.
  abbrev pub sent_to : Text → List (Action lib) → List TssP2PMsg
  sent_to id [] = []
  sent_to id (send to m ∷ acts) = let rest = sent_to id acts in if to == id then m ∷ rest else rest
  sent_to id (reply m ∷ acts) = sent_to id acts
  sent_to id (update m ∷ acts) = sent_to id acts

  pub sent_to-append :
      (id : Text) (front back : List (Action lib))
      → sent_to id (front ++ back) ≡ sent_to id front ++ sent_to id back
  sent_to-append id [] back = refl
  sent_to-append id (send to m ∷ acts) back = ground (arith, sent_to-append id acts back)
  sent_to-append id (reply m ∷ acts) back = sent_to-append id acts back
  sent_to-append id (update m ∷ acts) back = sent_to-append id acts back

  -- A message for this party, as often as tss-lib names it.
  abbrev pub copies : Text → lib.Message → List lib.PartyId → List lib.Message
  copies id m [] = []
  copies id m (p ∷ to) = let rest = copies id m to in if lib.get_id p == id then m ∷ rest else rest

  -- One message of the party `local_id`, for the party `id`: a message that tss-lib broadcasts, if
  -- they are two parties, and one that names `id`.
  abbrev pub for_party : Text → Text → lib.Message → Option (List lib.PartyId) → List lib.Message
  for_party local_id id m none = if local_id == id then [] else m ∷ []
  for_party local_id id m (some to) = copies id m to

  abbrev pub addressed : Text → Text → List lib.Message → List lib.Message
  addressed local_id id [] = []
  addressed local_id id (m ∷ ms) =
      for_party local_id id m (lib.get_to m) ++ addressed local_id id ms

  abbrev pub is_broadcast : lib.Message → Bool
  is_broadcast m = elim (lib.get_to m) [ none ↦ true | some _ ↦ false ]

  module _ (m : TssP2PMsg) where
    unfoldable pub sends : List Proto.PartyId → List (Action lib)
    sends ps = map (λ (p : Proto.PartyId). send p.id m) ps

    pub deliver_all-delivered :
        (close_ends : Bool) (delivery : Text → Delivery)
        → ((id : Text) → IsDelivered (delivery id))
        → (ps : List Proto.PartyId) → deliver_all lib close_ends delivery m ps ≡ (sends ps, none)
    unfolding deliver_all sends
    deliver_all-delivered close_ends delivery fine [] = refl
    deliver_all-delivered close_ends delivery fine (p ∷ ps) =
        let now = deliver-delivered close_ends (delivery p.id) (fine p.id) in
        rw (deliver_all, now, deliver_all-delivered close_ends delivery fine ps, now)

    sent_to-absent :
        (local_id id : Text) (ps : List Proto.PartyId)
        → All (λ (q : Proto.PartyId). (id == q.id) ≡ false) ps
        → sent_to id (sends (others lib local_id ps)) ≡ []
    unfolding others sends
    sent_to-absent local_id id [] apart = refl
    sent_to-absent local_id id (p ∷ ps) (first, apart) =
        let rest = sent_to-absent local_id id ps apart in
        ground (arith, rest, first, ==_iff id p.id, ==_iff p.id id)

    -- A broadcast has one copy for each of the other parties.
    pub sent_to-others :
        (local_id id : Text) (ps : List Proto.PartyId)
        → HasDistinctIds ps
        → HasId id ps
        → sent_to id (sends (others lib local_id ps)) ≡ (if local_id == id then [] else m ∷ [])
    unfolding others sends
    sent_to-others local_id id [] distinct at = elim at [ ]
    sent_to-others local_id id (p ∷ ps) (apart, distinct) (inl same) =
        let none_other =
          sent_to-absent local_id id ps
            (subst (λ k. All (λ (q : Proto.PartyId). (k == q.id) ≡ false) ps) (sym same) apart) in
        ground (
          arith,
          none_other,
          same,
          ==_refl id,
          ==_iff p.id local_id,
          ==_iff local_id id,
          ==_iff p.id id,
        )
    sent_to-others local_id id (p ∷ ps) (apart, distinct) (inr later) =
        let rest = sent_to-others local_id id ps distinct later in
        let other = HasId-apart id p.id ps apart later in
        ground (arith, rest, other, ==_iff p.id id, ==_iff id p.id)

    -- One that names parties, for each time that it names this one.
    pub sent_to-named :
        (id : Text) (w : lib.Message) (to : List lib.PartyId)
        → (carried : lib.Message → TssP2PMsg) → m ≡ carried w
        → sent_to id (sends (map (convert_to_pb_party_id lib) to)) ≡ map carried (copies id w to)
    unfolding convert_to_pb_party_id sends
    sent_to-named id w [] carried same = refl
    sent_to-named id w (p ∷ to) carried same =
        let rest = sent_to-named id w to carried same in ground (arith, rest, same)
