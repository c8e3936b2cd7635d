-- ===== src/Common/Receive.antt =====
-- common/utils.go: `GetValueWithTimeout`, by which both pools take a connection from their channel.
-- The queue holds the connections that the channel hands out during the call, oldest first. None
-- of them is nil: a pool is offered existing connections only, and the channel is never closed.
pub mod Laws
use zk_wsp.Prelude.{ℕ, suc, Bool, ◌&&◌, Option, none, some, List, [], ◌∷◌, if◌then◌else◌}
use zk_wsp.Prelude.Int.{ℤ, pos, ◌-ℤ◌, ltb_ℤ}
use zk_wsp.Common.Types.{is_idle}
use zk_wsp.Common.Store.{Store}

-- What the environment decides in one round: how long after the start of the call the round ends,
-- and which case `select` takes if the channel and the timer are both ready.
pub record Round : Type 0 where
  pub elapsed : ℕ
  pub timer_first : Bool

-- `time.After` of a duration that is not positive is ready at once.
abbrev pub expired : ℤ → Bool
expired timeout = ltb_ℤ timeout (pos 1)

-- `getValueWithTimeoutInternal`: the value received and the rest of the queue, or a timeout.
abbrev pub get_value_with_timeout_internal : List ℕ → ℤ → Round → Option (ℕ × List ℕ)
get_value_with_timeout_internal [] timeout r = none
get_value_with_timeout_internal (c ∷ queue) timeout r =
    if expired timeout && r.timer_first then none else some (c, queue)

-- `GetValueWithTimeout` from round `k` on: the connection, if there is one, and the queue left.
unfoldable pub get_value_with_timeout : Store → (ℕ → Round) → ℕ → ℤ → List ℕ → Option ℕ × List ℕ
get_value_with_timeout s rounds k timeout [] = (none, [])
get_value_with_timeout s rounds k timeout (c ∷ queue) =
    let next = get_value_with_timeout s rounds (suc k) (timeout -ℤ pos (rounds k).elapsed) queue in
    elim (get_value_with_timeout_internal (c ∷ queue) timeout (rounds k)) [
      | none ↦ (none, c ∷ queue)
      | some (d, rest) ↦ if is_idle (s.writes d).status then (some d, rest) else next
    ]
