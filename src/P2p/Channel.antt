-- ===== src/P2p/Channel.antt =====
-- Go's channels with a buffer: what a send, a receive and a close do at once.
use tss_server.Prelude.{
  ℕ, Bool, true, false, Option, none, some, List, [], ◌∷◌, ◌++◌, length, ltb, if◌then◌else◌,
}

pub record Chan (A : Type 0) : Type 0 where
  pub items : List A
  pub closed : Bool

-- An operation is done, or it has to wait, or it panics.
pub data Effect (A : Type 0) : Type 0 where
  done : A → Effect A
  blocks : Effect A
  panics : Effect A

module _ {A : Type 0} where
  unfoldable pub put : ℕ → Chan A → A → Effect (Chan A)
  put capacity c x =
      if c.closed
      then panics
      else if ltb (length c.items) capacity
      then done (record { items = c.items ++ x ∷ []; closed = false })
      else blocks

  -- The value, or none from a channel that is closed and empty.
  unfoldable pub take_from : Bool → List A → Effect (Option A × Chan A)
  take_from closed (x ∷ xs) = done (some x, record { items = xs; closed = closed })
  take_from true [] = done (none, record { items = []; closed = true })
  take_from false [] = blocks

  unfoldable pub take_one : Chan A → Effect (Option A × Chan A)
  unfolding take_from
  take_one c = take_from c.closed c.items

  unfoldable pub shut : Chan A → Effect (Chan A)
  shut c = if c.closed then panics else done (record { items = c.items; closed = true })
