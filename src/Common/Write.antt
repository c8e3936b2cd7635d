-- ===== src/Common/Write.antt =====
-- common/writeConnection.go: the methods that change the status of a `WriteConnection`.
pub mod Laws
pub mod History
pub mod Uses
use zk_wsp.Prelude.{ℕ, Bool, true, false, Option, none, some, if◌then◌else◌}
use zk_wsp.Outcome.{Outcome, ok, panic, ◌>>=◌}
use zk_wsp.Common.Types.{idle, busy, closed, is_closed, is_busy}
use zk_wsp.Common.Store.{Store, set_write, close_ws}
use zk_wsp.Common.Pool.{ConnectionPool}

-- `Take`: true if the connection was free, which is then busy.
unfoldable pub take : ℕ → Store → Bool × Store
take i s =
    let c = s.writes i in
    if is_closed c.status
    then (false, s)
    else if is_busy c.status
    then (false, s)
    else (true, set_write i (record c { status = busy }) s)

-- `CloseWithOutLock`: closing the channel `nextResponse` a second time would panic.
unfoldable pub close_without_lock : ℕ → Store → Outcome Store
close_without_lock i s =
    let c = s.writes i in
    if is_closed c.status
    then ok s
    else if c.next_response_closed
    then panic
    else ok (
        set_write i (record c { next_response_closed = true; status = closed })
          (record s { ws_closes = close_ws c.ws s.ws_closes }))

-- `Close` takes the lock around `CloseWithOutLock`.
abbrev pub close : ℕ → Store → Outcome Store
close i s = close_without_lock i s

-- `Release`: the offer is made under the connection's lock.
module _ {P : Type 0} (ops : ConnectionPool P) where
  unfoldable pub release : ℕ → ℕ → Store → P → Outcome (Store × P)
  release now i s p =
      let c = s.writes i in
      if is_closed c.status
      then ok (s, p)
      else (ops.offer i p >>= λ p'.
          ok (set_write i (record c { idle_since = now; status = idle }) s, p'))

-- The errors of `SendPingMessage`.
pub data PingError : Type 0 where
  write_failed pong_timeout : PingError

-- `WriteMessage` succeeds or not, and the pong comes before the deadline of 15 seconds or not.
pub record PingEnv : Type 0 where
  pub write_ok : Bool
  pub pong : Bool
  pub now : ℕ

unfoldable pub ping_error : PingEnv → Option PingError
ping_error e =
    if e.write_ok then (if e.pong then none else some pong_timeout) else some write_failed

-- A call on the websocket of a connection that has none panics: `ws` is nil before `SetWs`.
abbrev pub on_socket {ℓ} : {A : Type ℓ} → Option ℕ → A → Outcome A
on_socket none a = panic
on_socket (some ws) a = ok a

-- `SendPingMessage`: the deferred call releases the connection on every path, and before a panic
-- goes on.
module _ {P : Type 0} (ops : ConnectionPool P) where
  unfoldable pub send_ping_message :
      PingEnv → ℕ → Store → P → Outcome (Option PingError × Store × P)
  unfolding release
  send_ping_message e i s p =
      release ops e.now i s p >>= λ (s', p'). on_socket (s.writes i).ws (ping_error e, s', p')
