-- ===== src/P2p/Local.antt =====
-- localP2PStream of tss/tss_p2p.go: the two ends of a stream of a party to itself, which NewStream
-- joins by two channels.
pub mod Lanes
pub mod Fifo
use tss_server.Prelude.{ℕ, Text, Option, none, some, [], false, Result, ok, err}
use tss_server.Proto.{TssP2PMsg}
use tss_server.P2p.Channel.{Chan, Effect, done, blocks, panics, put, take_one, shut}

-- The end that NewStream returns, and the end that it hands to the handler of the protocol.
pub data Side : Type 0 where
  caller handler : Side

-- toRemoteChan and toLocalChan.
pub record Pipe : Type 0 where
  pub to_remote : Chan TssP2PMsg
  pub to_local : Chan TssP2PMsg

abbrev pub capacity : ℕ
capacity = 10

abbrev pub new_pipe : Pipe
new_pipe = record {
  to_remote = record { items = []; closed = false };
  to_local = record { items = []; closed = false };
}

-- The channel that an end writes to, and that it reads.
abbrev pub write_chan : Side → Pipe → Chan TssP2PMsg
write_chan caller p = p.to_remote
write_chan handler p = p.to_local

abbrev pub set_write_chan : Side → Pipe → Chan TssP2PMsg → Pipe
set_write_chan caller p c = record { to_remote = c; to_local = p.to_local }
set_write_chan handler p c = record { to_remote = p.to_remote; to_local = c }

abbrev pub other : Side → Side
other caller = handler
other handler = caller

-- An end with a new state of the channel that it writes to, or the same effect.
unfoldable pub with_write_chan : Side → Pipe → Effect (Chan TssP2PMsg) → Effect Pipe
with_write_chan side p (done c) = done (set_write_chan side p c)
with_write_chan side p blocks = blocks
with_write_chan side p panics = panics

unfoldable pub send_msg : Side → TssP2PMsg → Pipe → Effect Pipe
unfolding with_write_chan put
send_msg side msg p = with_write_chan side p (put capacity (write_chan side p) msg)

-- What is read: nil is an error.
unfoldable pub received :
    Side → Pipe → Effect (Option TssP2PMsg × Chan TssP2PMsg) → Effect (Result TssP2PMsg × Pipe)
received side p (done (some msg, c)) = done (ok msg, set_write_chan (other side) p c)
received side p (done (none, c)) = done (err "recv msg is nil", set_write_chan (other side) p c)
received side p blocks = blocks
received side p panics = panics

unfoldable pub recv_msg : Side → Pipe → Effect (Result TssP2PMsg × Pipe)
unfolding received take_one
recv_msg side p = received side p (take_one (write_chan (other side) p))

unfoldable pub close : Side → Pipe → Effect Pipe
unfolding with_write_chan shut
close side p = with_write_chan side p (shut (write_chan side p))
