-- ===== src/P2p/Local/Fifo.antt =====
-- A local stream is two queues: what one end receives is what the other one sent, in its order.
use tss_server.Prelude.{
  ◌≤◌, Option, none, some, List, [], ◌∷◌, ◌++◌, length, Result, ok, err, ◌≡◌, refl, subst,
}
use tss_server.Proto.{TssP2PMsg}
use tss_server.P2p.Channel.{Chan, Effect, done, blocks, panics, put, take_one, shut}
use tss_server.P2p.Local.Lanes.{
  done_injective, put-IsLane, take-IsLane, same-IsLane, take_from-none, shut-items,
}
use tss_server.P2p.Local.{
  Side, caller, handler, Pipe, capacity, new_pipe, write_chan, other, with_write_chan, send_msg,
  received, recv_msg, close,
}

-- The calls on the two ends.
pub data Op : Type 0 where
  send : Side → TssP2PMsg → Op
  recv : Side → Op
  shut_down : Side → Op

-- The stream, and what its ends have sent and received so far.
pub record World : Type 0 where
  pub pipe : Pipe
  pub sent : Side → List TssP2PMsg
  pub got : Side → List TssP2PMsg

abbrev pub extend : (Side → List TssP2PMsg) → Side → TssP2PMsg → Side → List TssP2PMsg
extend f caller m caller = f caller ++ m ∷ []
extend f caller m handler = f handler
extend f handler m caller = f caller
extend f handler m handler = f handler ++ m ∷ []

unfoldable pub after_send : World → Side → TssP2PMsg → Effect Pipe → Effect World
after_send w side m (done p) = done (record { pipe = p; sent = extend w.sent side m; got = w.got })
after_send w side m blocks = blocks
after_send w side m panics = panics

unfoldable pub after_recv : World → Side → Effect (Result TssP2PMsg × Pipe) → Effect World
after_recv w side (done (ok m, p)) =
    done (record { pipe = p; sent = w.sent; got = extend w.got side m })
after_recv w side (done (err e, p)) = done (record { pipe = p; sent = w.sent; got = w.got })
after_recv w side blocks = blocks
after_recv w side panics = panics

unfoldable pub after_shut_down : World → Effect Pipe → Effect World
after_shut_down w (done p) = done (record { pipe = p; sent = w.sent; got = w.got })
after_shut_down w blocks = blocks
after_shut_down w panics = panics

unfoldable pub step : Op → World → Effect World
unfolding after_send after_recv after_shut_down
step (send side m) w = after_send w side m (send_msg side m w.pipe)
step (recv side) w = after_recv w side (recv_msg side w.pipe)
step (shut_down side) w = after_shut_down w (close side w.pipe)

-- Both ends' calls, in the order in which they are done.
unfoldable pub run : List Op → World → Effect World
run [] w = done w
run (op ∷ ops) w = elim (step op w) [ done w' ↦ run ops w' | blocks ↦ blocks | panics ↦ panics ]

abbrev pub fresh : World
fresh = record { pipe = new_pipe; sent = λ side. []; got = λ side. [] }

-- What the other end has sent is what an end has received and then what is still to be read, at most
-- ten messages.
abbrev pub IsQueue : World → Side → Type 0
IsQueue w side =
    (w.sent (other side) ≡ w.got side ++ (write_chan (other side) w.pipe).items)
    × (length (write_chan (other side) w.pipe).items ≤ capacity)

abbrev pub IsFifo : World → Type 0
IsFifo w = IsQueue w caller × IsQueue w handler

send-IsFifo :
    (w w' : World) (side : Side) (m : TssP2PMsg)
    → IsFifo w
    → step (send side m) w ≡ done w'
    → IsFifo w'
unfolding step send_msg
send-IsFifo w w' side m fifo h = by_put side (put capacity (write_chan side w.pipe) m) refl h
  where
    by_put :
        (side : Side) (e : Effect (Chan TssP2PMsg))
        → put capacity (write_chan side w.pipe) m ≡ e
        → after_send w side m (with_write_chan side w.pipe e) ≡ done w'
        → IsFifo w'
    by_put caller (done c) at g =
        subst IsFifo (done_injective g)
          (fifo.0, put-IsLane (w.sent caller) (w.got handler) w.pipe.to_remote c m fifo.1 at)
    by_put handler (done c) at g =
        subst IsFifo (done_injective g)
          (put-IsLane (w.sent handler) (w.got caller) w.pipe.to_local c m fifo.0 at, fifo.1)
    by_put side blocks at g = cc
    by_put side panics at g = cc

recv-IsFifo : (w w' : World) (side : Side) → IsFifo w → step (recv side) w ≡ done w' → IsFifo w'
unfolding step recv_msg
recv-IsFifo w w' side fifo h = by_take side (take_one (write_chan (other side) w.pipe)) refl h
  where
    by_take :
        (side : Side) (e : Effect (Option TssP2PMsg × Chan TssP2PMsg))
        → take_one (write_chan (other side) w.pipe) ≡ e
        → after_recv w side (received side w.pipe e) ≡ done w'
        → IsFifo w'
    by_take caller (done (some m, c)) at g =
        subst IsFifo (done_injective g)
          (take-IsLane (w.sent handler) (w.got caller) w.pipe.to_local c m fifo.0 at, fifo.1)
    by_take handler (done (some m, c)) at g =
        subst IsFifo (done_injective g)
          (fifo.0, take-IsLane (w.sent caller) (w.got handler) w.pipe.to_remote c m fifo.1 at)
    by_take caller (done (none, c)) at g = subst IsFifo (done_injective g) (
      same-IsLane (w.sent handler) (w.got caller) w.pipe.to_local c fifo.0
          (unfold take_one in take_from-none w.pipe.to_local.closed w.pipe.to_local.items c at),
      fifo.1,
    )
    by_take handler (done (none, c)) at g = subst IsFifo (done_injective g) (
      fifo.0,
      same-IsLane (w.sent caller) (w.got handler) w.pipe.to_remote c fifo.1
          (unfold take_one in take_from-none w.pipe.to_remote.closed w.pipe.to_remote.items c at),
    )
    by_take side blocks at g = cc
    by_take side panics at g = cc

shut_down-IsFifo :
    (w w' : World) (side : Side) → IsFifo w → step (shut_down side) w ≡ done w' → IsFifo w'
unfolding step close
shut_down-IsFifo w w' side fifo h = by_shut side (shut (write_chan side w.pipe)) refl h
  where
    by_shut :
        (side : Side) (e : Effect (Chan TssP2PMsg))
        → shut (write_chan side w.pipe) ≡ e
        → after_shut_down w (with_write_chan side w.pipe e) ≡ done w'
        → IsFifo w'
    by_shut caller (done c) at g = subst IsFifo (done_injective g) (
      fifo.0,
      same-IsLane (w.sent caller) (w.got handler) w.pipe.to_remote c fifo.1
          (shut-items w.pipe.to_remote c at),
    )
    by_shut handler (done c) at g = subst IsFifo (done_injective g) (
      same-IsLane (w.sent handler) (w.got caller) w.pipe.to_local c fifo.0
          (shut-items w.pipe.to_local c at),
      fifo.1,
    )
    by_shut side blocks at g = cc
    by_shut side panics at g = cc

-- What an end has received and then what it has still to read, at most ten messages, is what the
-- other end has sent, in its order: where this is so, as for a new local stream, it stays so,
-- whatever the two ends call, closing included, if no call has to wait or panics.
pub run-IsFifo : (ops : List Op) (w w' : World) → IsFifo w → run ops w ≡ done w' → IsFifo w'
unfolding run
run-IsFifo [] w w' fifo h = subst IsFifo (done_injective h) fifo
run-IsFifo (op ∷ ops) w w' fifo h = by_step op (step op w) (λ v f. run-IsFifo ops v w' f) refl h
  where
    step-IsFifo : (op : Op) (v : World) → step op w ≡ done v → IsFifo v
    step-IsFifo (send side m) v at = send-IsFifo w v side m fifo at
    step-IsFifo (recv side) v at = recv-IsFifo w v side fifo at
    step-IsFifo (shut_down side) v at = shut_down-IsFifo w v side fifo at

    by_step :
        (op : Op) (e : Effect World)
        → ((v : World) → IsFifo v → run ops v ≡ done w' → IsFifo w')
        → step op w ≡ e
        → (elim e as (λ _. Effect World) [ done v ↦ run ops v | blocks ↦ blocks | panics ↦ panics ])
          ≡ done w'
        → IsFifo w'
    by_step op (done v) rest at g = rest v (step-IsFifo op v at) g
    by_step op blocks rest at g = cc
    by_step op panics rest at g = cc
