-- ===== src/P2p.antt =====
-- tss/tss_p2p.go: the streams between parties.
pub mod Framing
pub mod Channel
pub mod Local
pub mod Node
pub mod RoundTrip
pub mod StreamMap
use tss_server.Prelude.{Text, String, Option, Result}
use tss_server.Proto.{TssP2PMsg}

-- A P2PStream as its user tells it from others: its ID and its RemotePartyId.
pub record P2PStream : Type 0 where
  pub id : Text
  pub remote_party_id : Text

-- What the calls on one stream return, in the order in which a coordinator makes them: NewStream,
-- then SendMsg and RecvMsg twice.
pub record Exchange : Type 0 where
  pub opened : Result P2PStream
  pub prepare_refused : Option String
  pub prepare_reply : Result TssP2PMsg
  pub start_refused : Option String
  pub start_reply : Result TssP2PMsg
