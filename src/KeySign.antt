-- ===== src/KeySign.antt =====
-- KeySign of tss/tss_keysign.go: the coordinator of a signature. Its goroutines report on channels;
-- the loops that read these are functions of what their `select` takes, in the order in which it
-- takes it.
pub mod Ready
pub mod Finish
pub mod Quorum
pub mod Signers
pub mod Outcome
pub mod Run
pub mod Calls
pub mod Party
pub mod Signature
pub mod Closing
pub mod Signatures
pub mod Success
pub mod Player
pub mod Together
pub mod Order
use tss_server.Prelude.{
  ℕ, Text, String, Bool, Option, none, some, List, [], ◌∷◌, ◌++◌, Result, ok, err, ◌>>=◌, length,
  if◌then◌else◌,
}
use tss_server.Proto.{
  TssP2PMsg, PartyId, KeySignRequest, KeySignPrepareMsg, KeyData, Time, key_sign_prepare,
  key_sign_ready, key_sign_finish,
}
use tss_server.P2p.{P2PStream, Exchange}

-- What the goroutine of one party puts on a channel: nothing, an error, or its ready stream.
pub data Report : Type 0 where
  silent : Report
  failed : String → Report
  ready : P2PStream → Report

-- How the `select` statements of the goroutine of one party find the context: done at the start,
-- and taken as done when the report is handed over.
pub record Context : Type 0 where
  pub done_at_start : Bool
  pub done_at_report : Bool

abbrev pub hand_over : Context → Report → Report
hand_over c r = if c.done_at_report then silent else r

module _ (invalid_msg_type : TssP2PMsg → String) where
  -- The reply to a prepare message. An error of RecvMsg and a message of another type are reported
  -- without a look at the context.
  unfoldable pub prepare_reply : Context → P2PStream → Result TssP2PMsg → Report
  prepare_reply c p2p_stream (err e) = failed e
  prepare_reply c p2p_stream (ok key_sign_ready) = hand_over c (ready p2p_stream)
  prepare_reply c p2p_stream (ok (key_sign_finish m)) = hand_over c (failed m.failure_reason)
  prepare_reply c p2p_stream (ok m) = failed (invalid_msg_type m)

  unfoldable pub prepare_opened : Context → Exchange → Result P2PStream → Report
  unfolding prepare_reply
  prepare_opened c x (err e) = hand_over c (failed e)
  prepare_opened c x (ok p2p_stream) = elim x.prepare_refused [
    | some e ↦ failed e
    | none ↦ prepare_reply c p2p_stream x.prepare_reply
  ]

  -- The first goroutine of one party.
  unfoldable pub prepare_party : Context → Exchange → Report
  unfolding prepare_opened
  prepare_party c x = if c.done_at_start then silent else prepare_opened c x x.opened
