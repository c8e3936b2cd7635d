-- ===== src/Tests/Locks.antt =====
-- Goroutines of the client that meet at its locks.
use zk_wsp.Prelude.{ℕ, ◌≡◌, refl, true, none, [], ◌∷◌, arith, Bool, some}
use zk_wsp.Prelude.Int.{pos}
use zk_wsp.Common.Store.{write_conn, update}
use zk_wsp.Client.Config.{Config, new_config}
use zk_wsp.Client.Locks.{
  State, Steps, done, then_, begin, release_open, stop, resting, releasing, getting, stopping,
  offering, closing, closing_all, receiving, go, idled, close_it, get, receive,
}
use zk_wsp.Client.Locks.Invariant.{IsStart, Steps-exclusive}
use zk_wsp.Client.Locks.Moves.{holds_pool}
use zk_wsp.Client.Locks.Progress.{Goes, Steps-progress}
use zk_wsp.Client.Locks.Deadlock.{Deadlocked, Deadlocked-stays}
use zk_wsp.Common.Read.{close_connection}
use zk_wsp.Common.Write.{close_without_lock}
use zk_wsp.Common.Write.Laws.{IsSound}
use zk_wsp.Client.Pool.Bounds.{IsWithin}
use zk_wsp.Tests.Data.{store}
use zk_wsp.Tests.Connections.{store-IsSound}

abbrev config : Config
config = record new_config { pool_max_size = pos 1 }

-- The channel has room for one connection, and holds one that was closed.
abbrev start : State
start = record {
  store = store;
  pool = record {
    read_connections = [];
    write_connections = 1 ∷ [];
    idle = 0 ∷ [];
    capacity = 1;
    done = Bool.false;
    retry_interval = pos 1;
  };
  pool_lock = none;
  conn_locks = λ _. none;
  pc = λ _. resting;
}

start-IsStart : IsStart config start
unfolding new_config
start-IsStart = record {
  sound = store-IsSound;
  within = (omega arith, omega arith, (omega arith, omega arith, omega arith, omega arith));
  at_rest = λ t. refl;
  pool_free = refl;
  conns_free = λ i. refl;
}

-- Goroutine 1 releases connection 1, and waits since the channel is full; goroutine 3 asks for a
-- connection, and goroutine 2 shuts the pool down.
abbrev waiting : State
waiting = go 1 (offering 1) (record (go 1 (releasing 1) start) {
  store = idled 5 1 store;
  conn_locks = update start.conn_locks 1 (some 1);
})

abbrev asked : State
asked = go 2 stopping (go 3 getting waiting)

abbrev met : State
met =
    go 2 (closing_all (write_conn 1 ∷ []))
      (record asked { pool = record start.pool { done = true }; pool_lock = some 2 })

abbrev to_waiting : Steps config start waiting
to_waiting = then_ (then_ done (begin (releasing 1) refl tt)) (release_open 5 refl refl refl)

abbrev meeting : Steps config start met
meeting =
    then_ (then_ (then_ to_waiting (begin getting refl tt)) (begin stopping refl tt))
      (stop refl refl refl)

-- Meanwhile goroutine 4 closes another connection.
abbrev later : State
later = go 4 resting (record (go 4 (closing (write_conn 0)) met) { store = met.store })

abbrev waits : Steps config met later
unfolding close_connection close_without_lock
waits = then_ (then_ done (begin (closing (write_conn 0)) refl tt)) (close_it refl refl refl)

hanging_example : Deadlocked config 1 1 2 3 [] later
hanging_example =
    Deadlocked-stays config 1 1 2 3 [] start-IsStart meeting
      (record { offers = refl; full = omega arith; shuts = refl; asks = refl }) waits

excluding_example :
    ((t u : ℕ) → holds_pool (met.pc t) ≡ true → holds_pool (met.pc u) ≡ true → t ≡ u)
    × ((i t u : ℕ) → met.pc t ≡ offering i → met.pc u ≡ offering i → t ≡ u)
    × IsSound met.store
    × IsWithin config met.pool
excluding_example = Steps-exclusive config start-IsStart meeting

-- Goroutine 3 has the pool's lock and takes the closed connection out of the channel, so that
-- goroutine 1 can go on.
abbrev drained : State
drained =
    go 3 receiving (record (go 3 receiving (record (go 3 getting waiting) { pool_lock = some 3 })) {
      pool = record start.pool { idle = [] };
    })

abbrev draining : Steps config start drained
draining =
    then_ (then_ (then_ to_waiting (begin getting refl tt)) (get refl refl)) (receive refl refl)

going_example : Goes config drained
going_example = Steps-progress config start-IsStart draining (omega arith) 3 refl
