-- ===== src/Client/Locks.antt =====
-- The locks of client/pool.go and common/writeConnection.go. The other modules take a method that
-- runs under a lock as one step; here a goroutine may wait between taking a lock and giving it back.
-- It does so in `Release`, which sends on the channel under the connection's lock, and in
-- `GetIdleWriteConnection`, `connector` and `Shutdown`, which hold the pool's lock.
pub mod Owners
pub mod Moves
pub mod Invariant
pub mod Progress
pub mod Deadlock
use zk_wsp.Prelude.{ℕ, ◌≡◌, true, false, Option, none, some, List, [], ◌∷◌, ◌++◌, if◌then◌else◌}
use zk_wsp.Outcome.{ok}
use zk_wsp.Common.Types.{Status, is_closed, is_idle}
use zk_wsp.Common.Store.{Store, Connection, read_conn, write_conn, set_write, update}
use zk_wsp.Common.Pool.{send}
use zk_wsp.Common.Write.{take}
use zk_wsp.Common.Read.{close_connection}
use zk_wsp.Client.Config.{Config}
use zk_wsp.Client.Pool.{Pool, Dial, Created, connector, conns, remove}

-- Where a goroutine stands.
pub data Pc : Type 0 where
  resting : Pc  -- in none of these methods
  releasing : ℕ → Pc  -- `Release`, before the connection's lock
  offering : ℕ → Pc  -- `Release`, at the send on the channel, under the connection's lock
  getting : Pc  -- `GetIdleWriteConnection`, before the pool's lock
  receiving : Pc  -- in `GetValueWithTimeout`, under the pool's lock
  taking : ℕ → Pc  -- before `Take`, under the pool's lock
  removing : Connection → Pc  -- `Remove`, before the pool's lock
  closing : Connection → Pc  -- `Close`, before the connection's lock
  connecting : Pc  -- `connector`, before the pool's lock
  dialing : Pc  -- `connector`, under the pool's lock
  stopping : Pc  -- `Shutdown`, before the pool's lock
  closing_all : List Connection → Pc  -- `Shutdown`, before `Close` of these, under the pool's lock
  panicked : Pc

-- `pool_lock` and `conn_locks i` are the goroutines that hold the pool's lock and the lock of the write
-- connection `i`. The lock of a read connection is only held by `Close`, which waits for nothing.
pub record State : Type 0 where
  pub store : Store
  pub pool : Pool
  pub pool_lock : Option ℕ
  pub conn_locks : ℕ → Option ℕ
  pub pc : ℕ → Pc

-- Nobody holds the connection's lock.
abbrev pub IsFree : Connection → State → Type 0
IsFree (read_conn i) s = Unit
IsFree (write_conn i) s = s.conn_locks i ≡ none

-- Where a method begins.
abbrev pub IsEntry : Pc → Type 0
IsEntry (releasing i) = Unit
IsEntry getting = Unit
IsEntry (removing c) = Unit
IsEntry (closing c) = Unit
IsEntry connecting = Unit
IsEntry stopping = Unit
IsEntry resting = ⊥
IsEntry (offering i) = ⊥
IsEntry receiving = ⊥
IsEntry (taking c) = ⊥
IsEntry dialing = ⊥
IsEntry (closing_all cs) = ⊥
IsEntry panicked = ⊥

-- The goroutine `t` goes to `c`.
abbrev pub go : ℕ → Pc → State → State
go t c s = record s { pc = update s.pc t c }

abbrev pub idled : ℕ → ℕ → Store → Store
idled now i s = set_write i (record (s.writes i) { idle_since = now; status = Status.idle }) s

module _ (config : Config) where
  -- A step of the goroutine `t`.
  pub data Step (s : State) (t : ℕ) : State → Type 0 where
    begin : (c : Pc) → s.pc t ≡ resting → IsEntry c → Step s t (go t c s)
    release_closed :
        {i : ℕ}
        → s.pc t ≡ releasing i
        → s.conn_locks i ≡ none
        → is_closed (s.store.writes i).status ≡ true
        → Step s t (go t resting s)
    release_open :
        (now : ℕ) {i : ℕ}
        → s.pc t ≡ releasing i
        → s.conn_locks i ≡ none
        → is_closed (s.store.writes i).status ≡ false
        → Step s t (
            go t (offering i) (record s {
              store = idled now i s.store;
              conn_locks = update s.conn_locks i (some t);
            }))
    offer :
        {i : ℕ} {q : List ℕ}
        → s.pc t ≡ offering i
        → send s.pool.capacity s.pool.idle i ≡ ok q
        → Step s t (
            go t resting (record s {
              pool = record s.pool { idle = q };
              conn_locks = update s.conn_locks i none;
            }))
    get :
        s.pc t ≡ getting
        → s.pool_lock ≡ none
        → Step s t (go t receiving (record s { pool_lock = some t }))
    receive :
        {i : ℕ} {q : List ℕ}
        → s.pc t ≡ receiving
        → s.pool.idle ≡ i ∷ q
        → Step s t (
            go t
              (if is_idle (s.store.writes i).status then taking i else receiving)
              (record s { pool = record s.pool { idle = q } }))
    time_out : s.pc t ≡ receiving → Step s t (go t resting (record s { pool_lock = none }))
    take_it :
        {i : ℕ}
        → s.pc t ≡ taking i
        → s.conn_locks i ≡ none
        → Step s t (go t resting (record s { store = (take i s.store).1; pool_lock = none }))
    remove_it :
        {c : Connection}
        → s.pc t ≡ removing c
        → s.pool_lock ≡ none
        → Step s t (go t resting (record s { pool = remove c s.pool }))
    close_it :
        {c : Connection} {s' : Store}
        → s.pc t ≡ closing c
        → IsFree c s
        → close_connection c s.store ≡ ok s'
        → Step s t (go t resting (record s { store = s' }))
    connect :
        s.pc t ≡ connecting
        → s.pool_lock ≡ none
        → Step s t (go t dialing (record s { pool_lock = some t }))
    connected :
        (dials : ℕ → Dial) {x : Created}
        → s.pc t ≡ dialing
        → connector config dials s.store s.pool ≡ ok x
        → Step s t (go t resting (record s { store = x.1; pool = x.2; pool_lock = none }))
    stop :
        s.pc t ≡ stopping
        → s.pool_lock ≡ none
        → s.pool.done ≡ false
        → Step s t (
            go t
              (closing_all (
                conns read_conn s.pool.read_connections
                ++ conns write_conn s.pool.write_connections))
              (record s { pool = record s.pool { done = true }; pool_lock = some t }))
    stop_again :
        s.pc t ≡ stopping → s.pool_lock ≡ none → s.pool.done ≡ true → Step s t (go t panicked s)
    close_next :
        {c : Connection} {cs : List Connection} {s' : Store}
        → s.pc t ≡ closing_all (c ∷ cs)
        → IsFree c s
        → close_connection c s.store ≡ ok s'
        → Step s t (go t (closing_all cs) (record s { store = s' }))
    stopped :
        s.pc t ≡ closing_all []
        → Step s t (
            go t resting (record s {
              pool = record s.pool { read_connections = []; write_connections = [] };
              pool_lock = none;
            }))

  -- Steps of any goroutines, one after the other.
  pub data Steps (s : State) : State → Type 0 where
    done : Steps s s
    then_ : {t : ℕ} {a b : State} → Steps s a → Step a t b → Steps s b
