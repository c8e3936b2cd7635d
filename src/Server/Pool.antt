-- ===== src/Server/Pool.antt =====
-- server/pool.go. Each method runs under the pool's lock, so it is one step on the store and the
-- pool; `done` and the lists are the pool's fields, the connections themselves are in the store.
pub mod Interface
pub mod Remove
pub mod Clean
pub mod Survivors
pub mod Shutdown
pub mod Idle
use zk_wsp.Prelude.{
  ℕ, suc, ◌-◌, ◌/◌, ◌≡◌, Bool, true, false, not, ◌&&◌, Option, none, some, List, [], ◌∷◌, ◌++◌,
  if◌then◌else◌, ◌==◌, keep, Bytes,
}
use Prim.Native.Nat.{min, ◌^◌}
use zk_wsp.Prelude.Int.{pos_part, ℤ, pos, ltb_ℤ}
use zk_wsp.Outcome.{Outcome, ok, ◌>>=◌}
use zk_wsp.Common.Types.{ConnectionType, read, write, unknown, idle, is_idle, is_busy}
use zk_wsp.Common.Store.{
  Connection, read_conn, write_conn, Store, new_read_connection, new_write_connection, set_ws,
  get_status, idle_since,
}
use zk_wsp.Common.Pool.{ConnectionPool, send}
use zk_wsp.Common.Write.{take}
use zk_wsp.Common.Write
use zk_wsp.Common.Read
use zk_wsp.Common.Read.{close_connection}
use zk_wsp.Common.Receive.{Round, get_value_with_timeout}
use zk_wsp.Server.Config.{Config, second, get_timeout}

-- `idle` is what the channel holds, oldest first, and `capacity` the size that it was made with.
pub record Pool : Type 0 where
  pub client_id : Bytes
  pub idle_size : ℤ
  pub write_connections : List ℕ
  pub read_connections : List ℕ
  pub idle : List ℕ
  pub capacity : ℕ
  pub done : Bool

-- `NewPool`, of a size that is not negative: `make` panics at others, which the caller tests.
unfoldable pub new_pool : Config → Bytes → Pool
new_pool config id = record {
  client_id = id;
  idle_size = pos 0;
  write_connections = [];
  read_connections = [];
  idle = [];
  capacity = pos_part config.pool_max_size;
  done = false;
}

-- `AddConnection`: the new store and pool, and the connection whose `Start` is spawned.
abbrev pub add_new : ℕ → ConnectionType → Store → Pool → Option Connection × Store × Pool
add_new ws read s p =
    let (i, s') = new_read_connection idle s in
    (
      some (read_conn i),
      set_ws (read_conn i) ws s',
      record p { read_connections = p.read_connections ++ i ∷ [] },
    )
add_new ws write s p =
    let (i, s') = new_write_connection idle s in
    (
      some (write_conn i),
      set_ws (write_conn i) ws s',
      record p { write_connections = p.write_connections ++ i ∷ [] },
    )
add_new ws (unknown n) s p = (none, s, p)

unfoldable pub add_connection : ℕ → ConnectionType → Store → Pool → Option Connection × Store × Pool
unfolding new_read_connection new_write_connection
add_connection ws type s p = if p.done then (none, s, p) else add_new ws type s p

-- `Offer`
unfoldable pub offer : ℕ → Pool → Outcome Pool
offer i p = send p.capacity p.idle i >>= λ q. ok (record p { idle = q })

-- The list without one connection.
abbrev pub without : ℕ → List ℕ → List ℕ
without i = keep (λ j. not (j == i))

-- `RemoveWithoutLock`, and `Remove`, which takes the lock around it.
unfoldable pub remove_without_lock : Connection → Pool → Pool
remove_without_lock (read_conn i) p = record p { read_connections = without i p.read_connections }
remove_without_lock (write_conn i) p = record p {
  write_connections = without i p.write_connections;
}

abbrev pub remove : Connection → Pool → Pool
remove c p = remove_without_lock c p

-- `RemoveAllConnections`
unfoldable pub remove_all_connections : Pool → Pool
remove_all_connections p = record p { read_connections = []; write_connections = [] }

-- What a connection calls of this pool.
abbrev pub server_pool : ConnectionPool Pool
server_pool = record { offer = offer; remove = remove }

-- `int(time.Now().Sub(t).Seconds())`: the difference of two times has at most 63 bits.
abbrev pub elapsed_seconds : ℕ → ℕ → ℕ
elapsed_seconds now t = min (now - t) (2 ^ 63 - 1) / second

-- The two nested tests of `CleanConnection` on an idle connection, the `n`-th one.
abbrev pub is_excess : Config → ℕ → Connection → ℕ → Store → Pool → Bool
is_excess config now c n s p =
    ltb_ℤ p.idle_size (pos n)
    && ltb_ℤ config.idle_timeout (pos (elapsed_seconds now (idle_since c s)))

-- `CleanConnection` at the time `now`; `n` counts the idle connections before this one.
unfoldable pub clean_connection :
    Config → ℕ → Connection → ℕ → Store → Pool → Outcome (ℕ × Store × Pool)
clean_connection config now c n s p =
    if is_idle (get_status c s)
    then if is_excess config now c (suc n) s p
      then (close_connection c s >>= λ s'. ok (suc n, s', remove_without_lock c p))
      else ok (suc n, s, p)
    else ok (n, s, p)

-- The loop of `Clean` over a list as it was at the start.
unfoldable pub clean_loop : Config → ℕ → List Connection → ℕ → Store → Pool → Outcome (Store × Pool)
clean_loop config now [] n s p = ok (s, p)
clean_loop config now (c ∷ cs) n s p =
    clean_connection config now c n s p >>= λ (n', s', p'). clean_loop config now cs n' s' p'

abbrev pub conns : (ℕ → Connection) → List ℕ → List Connection
conns f [] = []
conns f (i ∷ is) = f i ∷ conns f is

-- `Clean`
unfoldable pub clean : Config → ℕ → Store → Pool → Outcome (Store × Pool)
clean config now s p =
    clean_loop config now (conns read_conn p.read_connections) 0 s p >>= λ (s', p').
    clean_loop config now (conns write_conn p'.write_connections) 0 s' p'

abbrev pub is_nil : List ℕ → Bool
is_nil [] = true
is_nil (_ ∷ _) = false

-- `IsEmpty` cleans the pool first.
unfoldable pub is_empty : Config → ℕ → Store → Pool → Outcome (Bool × Store × Pool)
is_empty config now s p = clean config now s p >>= λ (s', p').
    ok (is_nil p'.write_connections && is_nil p'.read_connections, s', p')

-- The loops of `Shutdown`
unfoldable pub close_all : List Connection → Store → Outcome Store
close_all [] s = ok s
close_all (c ∷ cs) s = close_connection c s >>= close_all cs

-- `Shutdown`
unfoldable pub shutdown : Store → Pool → Outcome (Store × Pool)
unfolding remove_all_connections
shutdown s p = close_all (conns write_conn p.write_connections) s >>= λ s'.
    close_all (conns read_conn p.read_connections) s' >>= λ s''.
    ok (s'', remove_all_connections (record p { done = true }))

-- `GetAllBusyWriteConnections`
unfoldable pub get_all_busy_write_connections : Store → Pool → List ℕ
get_all_busy_write_connections s p = keep (λ i. is_busy (s.writes i).status) p.write_connections

abbrev pub take_received : Option ℕ × List ℕ → Store → Pool → Option ℕ × Store × Pool
take_received (none, rest) s p = (none, s, record p { idle = rest })
take_received (some c, rest) s p =
    let (taken, s') = take c s in (if taken then some c else none, s', record p { idle = rest })

-- `GetIdleWriteConnection`
unfoldable pub get_idle_write_connection :
    Config → (ℕ → Round) → Store → Pool → Option ℕ × Store × Pool
get_idle_write_connection config rounds s p =
    take_received (get_value_with_timeout s rounds 0 (get_timeout config) p.idle) s p
