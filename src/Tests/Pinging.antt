-- ===== src/Tests/Pinging.antt =====
-- The two goroutines of a read connection at concrete states.
use zk_wsp.Prelude.{suc, ◌≡◌, ◌≤◌, refl, true}
use zk_wsp.Common.Types.{is_idle}
use zk_wsp.Common.Read.{close_without_lock}
use zk_wsp.Common.Pings.{
  head, ended, awake, Conn, closes, Step, Steps, IsStart, listen, arrive, begin, turn_error, answer,
  turn_ends, take_out, shut, ping_error, ping_close, close_elsewhere, done, then_,
}
use zk_wsp.Common.Pings.Closes.{Steps-closes}
use zk_wsp.Common.Pings.Reopened.{listening, closed-IsReopened}
use zk_wsp.Server.Pool.{Pool, server_pool}
use zk_wsp.Tests.Data.{store, pool}

abbrev start : Conn Pool
start = record { store = store; pool = pool; loop = head; pings = awake }

abbrev start-IsStart : IsStart server_pool 4 start
start-IsStart = record {
  ws = 50;
  connected = refl;
  unclosed = refl;
  alive = refl;
  at_head = refl;
  pinging = refl;
}

-- The peer stops answering pings while the loop serves its first request.
abbrev cut_off : (t : Conn Pool) × Steps server_pool 4 start t
unfolding close_without_lock
cut_off = (
  _,
  then_
      (then_
        (then_
          (then_ (then_ (then_ (then_ done (listen refl)) (arrive refl)) (begin refl))
            (answer refl refl))
          (ping_error refl))
        (ping_close refl))
      (turn_ends refl),
)

-- Three closes: by the pings, by the pool and at the end of `Start`.
abbrev closed_thrice : (t : Conn Pool) × Steps server_pool 4 start t
unfolding cut_off close_without_lock
closed_thrice = (
  _,
  then_
      (then_
        (then_
          (then_ (then_ (then_ (then_ cut_off.1 (listen refl)) close_elsewhere) (arrive refl))
            (begin refl))
          (turn_error refl))
        (take_out refl))
      (shut refl),
)

three_closes : closes 4 closed_thrice.0.store ≡ 3
unfolding closed_thrice close_without_lock
three_closes = refl

closes_example : closes 4 closed_thrice.0.store ≤ 3
closes_example = Steps-closes server_pool 4 start-IsStart closed_thrice.1

reopened_example :
    Step server_pool 4 cut_off.0 (listening server_pool 4 cut_off.0)
    × (is_idle ((listening server_pool 4 cut_off.0).store.reads 4).status ≡ true)
    × (1 ≤ closes 4 (listening server_pool 4 cut_off.0).store)
    × ((u : Conn Pool) × Steps server_pool 4 (listening server_pool 4 cut_off.0) u
        × (u.loop ≡ ended)
        × (closes 4 u.store ≡ suc (closes 4 cut_off.0.store)))
unfolding cut_off close_without_lock
reopened_example = closed-IsReopened server_pool 4 start-IsStart cut_off.1 refl refl
