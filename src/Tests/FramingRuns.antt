-- ===== src/Tests/FramingRuns.antt =====
-- The framing theorems at small messages and at a large one, over a codec of some messages.
use tss_server.Prelude.{
  ℕ, suc, zero, Text, Bool, true, false, eqb, if◌then◌else◌, none, [], ◌∷◌, ◌++◌, Result, ok, err,
  ok_injective, length, ◌≡◌, refl, sym, ap, subst, arith, ◌≤◌,
}
use tss_server.Proto.{
  TssP2PMsg, ProcessUpdateMsg, unset, key_gen_ready, key_gen_start, process_update,
}
use tss_server.Storage.External.{Codec}
use tss_server.P2p.Framing.{send_msg, recv_msg, max_message_length}
use tss_server.P2p.RoundTrip.{recv_msg_too_large, send_msgs, Receives, Receives-send_msgs}

marshal_update : Text → Bool → Text → Result Text
marshal_update [] false bytes = ok (3 ∷ bytes)
marshal_update _ _ bytes = err "not covered"

marshal : TssP2PMsg → Result Text
unfolding marshal_update
marshal unset = ok []
marshal key_gen_ready = ok (1 ∷ [])
marshal key_gen_start = ok (2 ∷ [])
marshal (process_update u) = marshal_update u.from_party_id u.is_broadcast u.msg_wire_bytes
marshal m = err "not covered"

plain_update : Text → ProcessUpdateMsg
plain_update bytes = record { from_party_id = []; msg_wire_bytes = bytes; is_broadcast = false }

unmarshal : Text → Result TssP2PMsg
unfolding plain_update
unmarshal [] = ok unset
unmarshal (tag ∷ rest) =
    if eqb tag 1
    then ok key_gen_ready
    else if eqb tag 2
    then ok key_gen_start
    else ok (process_update (plain_update rest))

unmarshal-update :
    (from : Text) (broadcast : Bool) (bytes bs : Text)
    → marshal_update from broadcast bytes ≡ ok bs
    → unmarshal bs
      ≡ ok (
          process_update
            (record { from_party_id = from; msg_wire_bytes = bytes; is_broadcast = broadcast }))
unfolding marshal_update unmarshal
unmarshal-update [] false bytes bs h = ap unmarshal (sym (ok_injective h))
unmarshal-update [] true bytes bs h = cc
unmarshal-update (x ∷ from) broadcast bytes bs h = cc

unmarshal-marshal : (m : TssP2PMsg) (bs : Text) → marshal m ≡ ok bs → unmarshal bs ≡ ok m
unfolding marshal unmarshal
unmarshal-marshal unset bs h = ap unmarshal (sym (ok_injective h))
unmarshal-marshal key_gen_ready bs h = ap unmarshal (sym (ok_injective h))
unmarshal-marshal key_gen_start bs h = ap unmarshal (sym (ok_injective h))
unmarshal-marshal (process_update u) bs h =
    unmarshal-update u.from_party_id u.is_broadcast u.msg_wire_bytes bs h
unmarshal-marshal m bs h = cc

abbrev codec : Codec TssP2PMsg
codec = record { marshal = marshal; unmarshal = unmarshal; unmarshal-marshal = unmarshal-marshal }

Receives-send_msgs_example :
    Receives codec
      (key_gen_ready ∷ key_gen_start ∷ [])
      ((1 ∷ 0 ∷ 0 ∷ 0 ∷ 1 ∷ 1 ∷ 0 ∷ 0 ∷ 0 ∷ 2 ∷ []) ++ 7 ∷ [])
      (7 ∷ [])
unfolding marshal send_msg send_msgs
Receives-send_msgs_example =
    Receives-send_msgs codec (key_gen_ready ∷ key_gen_start ∷ [])
      (1 ∷ 0 ∷ 0 ∷ 0 ∷ 1 ∷ 1 ∷ 0 ∷ 0 ∷ 0 ∷ 2 ∷ []) (7 ∷ [])
      (
        (λ bs h. short (1 ∷ []) bs (omega arith) h),
        ((λ bs h. short (2 ∷ []) bs (omega arith) h), tt),
      )
      refl
  where
    short :
        (cs bs : Text)
        → length cs ≤ max_message_length
        → ok cs ≡ ok bs
        → length bs ≤ max_message_length
    short cs bs h e = subst (λ x. length x ≤ max_message_length) (ok_injective e) h

zeros : ℕ → Text
zeros zero = []
zeros (suc n) = 0 ∷ zeros n

length-zeros : (n : ℕ) → length (zeros n) ≡ n
unfolding zeros
length-zeros zero = refl
length-zeros (suc n) = ap suc (length-zeros n)

abbrev large : TssP2PMsg
large =
    process_update
      (record { from_party_id = []; msg_wire_bytes = zeros 20971520; is_broadcast = false })

recv_msg_too_large_example :
    (frame : Text) × (send_msg codec (λ _. none) large ≡ ok frame)
    × (recv_msg codec (frame ++ 5 ∷ [])
        ≡ (err "message length is too large", (3 ∷ zeros 20971520) ++ 5 ∷ []))
unfolding marshal
recv_msg_too_large_example =
    recv_msg_too_large codec (λ _. none) large (3 ∷ zeros 20971520) (5 ∷ []) refl
      (omega (arith, length-zeros 20971520)) (omega (arith, length-zeros 20971520)) refl
