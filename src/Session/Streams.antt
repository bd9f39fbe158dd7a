-- ===== src/Session/Streams.antt =====
-- The protocol of a session, which handleKeyGen of tss/tss_keygen.go and handleKeySign of
-- tss/tss_keysign.go register for their time: through its streams the other parties reach the loop.
use tss_server.Prelude.{
  Text, text, String, ==_refl, Bool, true, false, Option, none, some, List, [], ◌∷◌, ◌++◌, Result,
  ok, err, ◌≡◌, refl, if◌then◌else◌,
}
use tss_server.Proto.{TssP2PMsg}
use tss_server.Proto.Getters.{get_key_gen_prepare_msg, get_key_sign_prepare_msg}
use tss_server.P2p.Channel.{done}
use tss_server.P2p.Node.{
  Network, LibP2PManager, store, load, set_stream_handler, remove_stream_handler,
}
use tss_server.P2p.Node.Handlers.{Registration, set, remove, register_all, register, load-delete}

unfoldable pub key_gen_protocol : Text → Text
key_gen_protocol session_id = text "/tss/keyGen/session/" ++ session_id

unfoldable pub key_sign_protocol : Text → Text
key_sign_protocol session_id = text "/tss/keySign/session/" ++ session_id

-- The handler of a session's streams: what it hands to the loop of the session, of what RecvMsg
-- gives; it closes the stream in the end.
unfoldable pub on_session_stream : Result TssP2PMsg → Option TssP2PMsg
on_session_stream (err e) = none
on_session_stream (ok m) = some m

module _ {H : Type 0} where
  -- A handler registers the protocol before its session, and removes it when it returns.
  unfoldable pub for_session : Text → H → Bool → List (Registration H)
  for_session protocol h returned =
      let removal : List (Registration H) = if returned then remove protocol ∷ [] else [] in
      set protocol h ∷ removal

  -- The registrations of a call of handleKeyGen, by what its first RecvMsg gives and by whether it
  -- has returned, and those of a call of handleKeySign.
  unfoldable pub key_gen_registrations : H → Result TssP2PMsg → Bool → List (Registration H)
  unfolding for_session key_gen_protocol get_key_gen_prepare_msg
  key_gen_registrations h (err e) returned = []
  key_gen_registrations h (ok p) returned = elim (get_key_gen_prepare_msg p) [
    | none ↦ []
    | some m ↦ for_session (key_gen_protocol m.session_id) h returned
  ]

  unfoldable pub key_sign_registrations : H → Result TssP2PMsg → Bool → List (Registration H)
  unfolding for_session key_sign_protocol get_key_sign_prepare_msg
  key_sign_registrations h (err e) returned = []
  key_sign_registrations h (ok p) returned = elim (get_key_sign_prepare_msg p) [
    | none ↦ []
    | some m ↦ for_session (key_sign_protocol m.session_id) h returned
  ]

-- When a call of a handler on a session returns within another one on the same session, as a second
-- prepare message makes it, the last that the host of libp2p and the local handlers get for the
-- running session is the removal of its protocol.
displaced_session :
    {H : Type 0} (net : Network H) (no_local_handler : Text → String)
    (m : LibP2PManager H net no_local_handler) (s : net.State) (protocol : Text)
    (running second : H)
    → m.host ≡ some s
    → (m' : LibP2PManager H net no_local_handler) × (register_all net no_local_handler
          (for_session protocol running false ++ for_session protocol second true)
          m
        ≡ done m')
      × (load m'.local_handlers protocol ≡ none)
      × (m'.host
          ≡ some (
              net.remove_stream_handler
                (net.set_stream_handler (net.set_stream_handler s protocol running) protocol second)
                protocol))
unfolding for_session register_all register set_stream_handler remove_stream_handler
displaced_session net no_local_handler m s protocol running second up = rw up (
  _,
  refl,
  rw
      (
        load-delete (store (store m.local_handlers protocol running) protocol second) protocol
            protocol,
        ==_refl protocol,
      )
      refl,
  refl,
)
