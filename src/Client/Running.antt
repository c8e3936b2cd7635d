-- ===== src/Client/Running.antt =====
-- The client as it runs: the loop that `Start` of client/pool.go begins, the requests of
-- client/client.go, the refreshes of the token, and the start and the end of its connections, in any
-- order. Each of them is one step.
pub mod Handling
pub mod Rounds
pub mod Ending
pub mod Killed
use zk_wsp.Prelude.{ℕ, Bool, true, false, ◌&&◌, Option, none, some, List, [], ◌∷◌, if◌then◌else◌}
use zk_wsp.Outcome.{Outcome, ok, ◌>>=◌}
use zk_wsp.Http.Writer.{ResponseWriter}
use zk_wsp.Http.Request.{UrlLib, Request}
use zk_wsp.Common.Store.{Connection, Store}
use zk_wsp.Common.Write.{release}
use zk_wsp.Common.Read.{close_connection}
use zk_wsp.Client.Login.{LoginLib, Refreshing, refresh_wsp_token}
use zk_wsp.Client.Pool.{Pool, Dial, client_pool, remove}
use zk_wsp.Client.Handlers.{Client, RequestEnv, set_pool, start_internal, request}

-- A tick that the loop of the pool's `Start` receives: how the dials of its round end, and whether the
-- loop takes `done` instead if that is closed by then.
pub record Tick : Type 0 where
  pub dials : ℕ → Dial
  pub quits : Bool

-- Whether the loop of the pool's `Start` still runs, and what the goroutines share.
abbrev pub Running : Type 0
Running = Bool × Store × Client

-- One turn of the loop
unfoldable pub turn : Tick → Store → Client → Option Pool → Outcome Running
turn t s c none = ok (false, s, c)
turn t s c (some p) =
    if p.done && t.quits
    then ok (false, s, c)
    else (start_internal t.dials s p c >>= λ (s', p', _, c'). ok (true, s', set_pool p' c'))

-- What `RefreshWspToken` leaves; its error is logged.
abbrev pub set_login : Refreshing → Client → Client
set_login (err, login) c = record c { wsp_login = login }

-- `Release`
abbrev pub start_in : ℕ → ℕ → Store → Client → Option Pool → Outcome (Store × Client)
start_in i now s c none = ok (s, c)
start_in i now s c (some p) = release client_pool now i s p >>= λ (s', p'). ok (s', set_pool p' c)

-- `Remove` and `Close`
abbrev pub end_in : Connection → Store → Client → Option Pool → Outcome (Store × Client)
end_in d s c none = close_connection d s >>= λ s'. ok (s', c)
end_in d s c (some p) = close_connection d s >>= λ s'. ok (s', set_pool (remove d p) c)

module _ (lib : UrlLib) where
  -- `refreshed` is the goroutine that `Request` starts, `started` the call of `Release` at the start of
  -- a write connection's `Start`, and `ended` what the end of a connection's `Start` defers.
  pub data Call : Type 0 where
    ticked : Tick → Call
    requested : RequestEnv → ResponseWriter → Request lib.Url → Call
    refreshed : LoginLib → Call
    started : ℕ → ℕ → Call
    ended : Connection → Call

  unfoldable pub call : Call → Running → Outcome Running
  call (ticked t) (false, s, c) = ok (false, s, c)
  call (ticked t) (true, s, c) = turn t s c c.pool
  call (requested e w r) (looping, s, c) =
      request lib e w r s c >>= λ (_, s', c', _). ok (looping, s', c')
  call (refreshed login) (looping, s, c) =
      ok (looping, s, set_login (refresh_wsp_token login c.config c.wsp_login) c)
  call (started i now) (looping, s, c) =
      start_in i now s c c.pool >>= λ (s', c'). ok (looping, s', c')
  call (ended d) (looping, s, c) = end_in d s c c.pool >>= λ (s', c'). ok (looping, s', c')

  unfoldable pub run : List Call → Running → Outcome Running
  run [] x = ok x
  run (k ∷ ks) x = call k x >>= run ks
