-- ===== src/Tests/Reading.antt =====
-- The goroutine of `Start` and a handler at concrete states, and the rules of requests.
use zk_wsp.Prelude.{◌≡◌, ◌≤◌, refl, false}
use zk_wsp.Common.Write.{take, close_without_lock}
use zk_wsp.Common.Reader.{
  head, absent, response, waiting, panicked, Conn, Reach, started, later, own, next, arrive,
  expected, meet, give, take_request, write_ok, leaving, leave,
}
use zk_wsp.Common.Reader.Exclusive.{Reach-exclusive}
use zk_wsp.Common.Reader.Lost.{IsDoomed, Events, Steps, done, more, read_error-panics, then_, now}
use zk_wsp.Common.Reader.Progress.{steps_taken, steps_taken-le}
use zk_wsp.Server.Pool.{Pool, server_pool}
use zk_wsp.Server.Pool.Interface.{server_pool-lawful}
use zk_wsp.Tests.Data.{store, pool}
use zk_wsp.Tests.Connections.{store-IsSound}

abbrev start : Conn Pool
start = record { store = store; pool = pool; reader = head; handler = absent }

-- The goroutine reads, and a handler has sent its request and asks for the response.
abbrev asked : (s : Conn Pool) × Reach server_pool 2 s
unfolding take
asked = (
  _,
  later
      (later (later (started {s = start} store-IsSound refl refl) (own (next refl refl)))
        (take_request refl))
      (own (write_ok refl)),
)

-- The response has come, and the handler reads it.
abbrev held : (s : Conn Pool) × Reach server_pool 2 s
unfolding take
held = (
  _,
  later
      (later (later (later asked.1 (own (arrive refl))) (own (expected refl refl)))
        (own (meet refl refl refl)))
      (own (give refl refl)),
)

exclusive_example : (held.0.reader ≡ waiting) × ((take 2 held.0.store).0 ≡ false)
unfolding held
exclusive_example = Reach-exclusive server_pool server_pool-lawful 2 held.1 response refl

-- The websocket fails, and the goroutine closes the connection.
abbrev failed_read :
    (u : Conn Pool) × Events server_pool server_pool-lawful 2
      (record asked.0 { reader = leaving })
      u
unfolding asked take close_without_lock
failed_read = (_, then_ now (own (leave refl refl)))

lost_example :
    IsDoomed server_pool server_pool-lawful 2 response failed_read.0
    × ((t : Conn Pool) × Steps server_pool server_pool-lawful 2 failed_read.0 t
        × (t.handler ≡ panicked))
unfolding asked take
lost_example =
    read_error-panics server_pool server_pool-lawful 2 response asked.1 refl refl failed_read.1

abbrev first_step : (t : Conn Pool) × Steps server_pool server_pool-lawful 2 asked.0 t
unfolding take
first_step = (_, more (arrive refl) done)

progress_example : steps_taken server_pool server_pool-lawful 2 first_step.1 ≤ 87
progress_example = steps_taken-le server_pool server_pool-lawful 2 first_step.1 asked.1
