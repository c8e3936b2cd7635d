-- ===== src/Client/Handlers/Overflow.antt =====
-- How the retry interval overflows: client/pool.go, `startInternal`.
use zk_wsp.Prelude.{ℕ, ◌≡◌, ◌≤◌, ◌<◌, ◌*◌, ◌^◌, ◌-◌, ◌⊎◌, inl, inr, some, List, arith}
use zk_wsp.Prelude.Int.{pos, negsuc, ◌≤ℤ◌, wrap-overflows}
use zk_wsp.Outcome.{ok, panic}
use zk_wsp.Common.Store.{Connection, Store}
use zk_wsp.Client.Config.{Config}
use zk_wsp.Client.Pool.{Pool, Dial, ConnectError, not_dialed, greeting_failed, connector, ticking}
use zk_wsp.Client.Handlers.{
  Client, max_interval, back_off, reset_ticker, after_connector, start_internal,
}
use zk_wsp.Client.Handlers.Retry.{doubled}

-- Twice an interval from 2 ^ 62 on is a negative number in 64 bits, which is not above the maximum.
back_off-negative :
    (config : Config) (n : ℕ)
    → 2 ^ 62 ≤ n
    → n < 2 ^ 63
    → pos n ≤ℤ max_interval config
    → back_off config (pos n) ≡ negsuc (2 ^ 64 - n * 2 - 1)
back_off-negative config n low high m =
    rw (doubled n, wrap-overflows (n * 2) (omega arith) (omega arith)) (ground arith)

not_ticking : {A : Type 0} (m : ℕ) (a : A) → ticking (negsuc m) a ≡ panic
not_ticking m a = ground arith

reset-panics :
    (s : Store) (p : Pool) (spawned : List Connection) (c : Client) (n : ℕ)
    → p.retry_interval ≡ pos n
    → 2 ^ 62 ≤ n
    → n < 2 ^ 63
    → pos n ≤ℤ max_interval c.config
    → reset_ticker s (record p { retry_interval = back_off c.config p.retry_interval }) spawned c
      ≡ panic
unfolding reset_ticker
reset-panics s p spawned c n e low high m =
    rw e (rw (back_off-negative c.config n low high m) (not_ticking (2 ^ 64 - n * 2 - 1) _))

-- If the retry interval has reached 2 ^ 62 nanoseconds and the maximum is not below it, then a round
-- in which the server cannot be reached, or does not take the greeting, panics: twice the interval
-- is negative as a duration, so it is not cut at the maximum, and `Reset` gets it.
pub start_internal-overflows :
    (dials : ℕ → Dial) (s s' : Store) (p p' : Pool) (spawned : List Connection) (c : Client)
    (err : ConnectError) (n : ℕ)
    → connector c.config dials s p ≡ ok (some err, s', p', spawned)
    → (err ≡ not_dialed) ⊎ (err ≡ greeting_failed)
    → p'.retry_interval ≡ pos n
    → 2 ^ 62 ≤ n
    → n < 2 ^ 63
    → pos n ≤ℤ max_interval c.config
    → start_internal dials s p c ≡ panic
unfolding start_internal after_connector
start_internal-overflows dials s s' p p' spawned c err n e (inl a) r low high m =
    rw (e, a) (reset-panics s' p' spawned c n r low high m)
start_internal-overflows dials s s' p p' spawned c err n e (inr a) r low high m =
    rw (e, a) (reset-panics s' p' spawned c n r low high m)
