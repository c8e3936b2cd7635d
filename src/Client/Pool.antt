-- ===== src/Client/Pool.antt =====
-- client/pool.go, and `Connect` of client/utils.go. Each method runs under the pool's lock, so it is
-- one step on the store and the pool. The connections whose `Start` is spawned are a result.
pub mod Bounds
pub mod Interface
pub mod Idle
pub mod Filling
use zk_wsp.Prelude.{
  ℕ, zero, suc, not, ◌==◌, ◌||◌, Bool, true, false, Option, none, some, List, [], ◌∷◌, ◌++◌, keep,
  length, count, if◌then◌else◌, Bytes,
}
use zk_wsp.Prelude.Int.{ℤ, pos, pos_part, ◌+ℤ◌, ◌-ℤ◌, ◌*ℤ◌, ltb_ℤ, wrap}
use zk_wsp.Outcome.{Outcome, ok, panic, ◌>>=◌}
use zk_wsp.Common.Types.{
  ConnectionType, read, write, unknown, Status, connecting, is_idle, is_connecting,
}
use zk_wsp.Common.Store.{
  Connection, read_conn, write_conn, Store, new_read_connection, new_write_connection, set_ws,
}
use zk_wsp.Common.Pool.{make_chan, ConnectionPool, send}
use zk_wsp.Common.Write.{take}
use zk_wsp.Common.Read.{close_connection}
use zk_wsp.Common.Receive.{Round, get_value_with_timeout}
use zk_wsp.Greeting.{greeting}
use zk_wsp.Client.Config.{Config, get_timeout, invalid_cluster_key_response_code}

abbrev pub second : ℕ
second = 1_000_000_000

-- `idle` is what the channel holds, oldest first, and `capacity` the size that it was made with.
pub record Pool : Type 0 where
  pub read_connections : List ℕ
  pub write_connections : List ℕ
  pub idle : List ℕ
  pub capacity : ℕ
  pub done : Bool
  pub retry_interval : ℤ

-- `time.NewTicker` and `Ticker.Reset` panic at an interval that is not positive.
abbrev pub ticking {ℓ} : {A : Type ℓ} → ℤ → A → Outcome A
ticking interval a = if ltb_ℤ (pos 0) interval then ok a else panic

abbrev pub default_interval : Config → ℤ
default_interval config = wrap (pos second *ℤ config.default_retry_interval)

-- `NewPool`
unfoldable pub new_pool : Config → Outcome Pool
new_pool config = make_chan config.pool_max_size >>= λ n.
    ticking (default_interval config) (record {
      read_connections = [];
      write_connections = [];
      idle = [];
      capacity = n;
      done = false;
      retry_interval = default_interval config;
    })

pub record PoolSize : Type 0 where
  pub idle : ℕ
  pub total : ℕ

-- What `updateIdleConnCount` counts.
abbrev pub is_available : Status → Bool
is_available s = is_idle s || is_connecting s

-- `Size`: of the read and of the write connections
unfoldable pub size : Store → Pool → PoolSize × PoolSize
size s p = (
  record {
    idle = count (λ i. is_available (s.reads i).status) p.read_connections;
    total = length p.read_connections;
  },
  record {
    idle = count (λ i. is_available (s.writes i).status) p.write_connections;
    total = length p.write_connections;
  },
)

-- `connectionsToCreate`, in the 64 bits of an `int`
unfoldable pub connections_to_create : Config → PoolSize → ℤ
connections_to_create config z =
    let to_create = wrap (config.pool_idle_size -ℤ pos z.idle) in
    if ltb_ℤ config.pool_max_size (wrap (pos z.total +ℤ to_create))
    then wrap (config.pool_max_size -ℤ pos z.total)
    else to_create

-- How a dial of the server ends: the status of the response, if there is one, the websocket, if
-- there is no error, and whether the greeting can be written.
pub record Dial : Type 0 where
  pub response_code : Option ℤ
  pub ws : Option ℕ
  pub write_message : Bytes → Bool

pub data ConnectError : Type 0 where
  invalid_cluster_key not_dialed greeting_failed : ConnectError

abbrev pub same_ℤ : ℤ → ℤ → Bool
same_ℤ a b = not (ltb_ℤ a b || ltb_ℤ b a)

abbrev is_invalid : Option ℤ → Bool
is_invalid none = false
is_invalid (some code) = same_ℤ code invalid_cluster_key_response_code

abbrev pub greet :
    Config → Dial → ConnectionType → Connection → Store → Option ℕ → Option ConnectError × Store
greet config d type c s none = (some not_dialed, s)
greet config d type c s (some ws) = (
  if d.write_message (greeting config.pool_idle_size type) then none else some greeting_failed,
  set_ws c ws s,
)

-- `connectInternal`
unfoldable pub connect_internal :
    Config → Dial → ConnectionType → Connection → Store → Option ConnectError × Store
connect_internal config d type c s =
    if is_invalid d.response_code
    then (some invalid_cluster_key, s)
    else greet config d type c s d.ws

-- The switch of `createConnections`: on an unknown type the connection is nil, and all that is done
-- with it panics.
unfoldable pub create : ConnectionType → Store → Pool → Outcome (Connection × Store × Pool)
unfolding new_read_connection new_write_connection
create read s p =
    let (i, s') = new_read_connection connecting s in
    ok (read_conn i, s', record p { read_connections = p.read_connections ++ i ∷ [] })
create write s p =
    let (i, s') = new_write_connection connecting s in
    ok (write_conn i, s', record p { write_connections = p.write_connections ++ i ∷ [] })
create (unknown n) s p = panic

abbrev pub without : ℕ → List ℕ → List ℕ
without i = keep (λ j. not (j == i))

-- `RemoveWithoutLock`, and `Remove`, which takes the lock around it.
unfoldable pub remove_without_lock : Connection → Pool → Pool
remove_without_lock (read_conn i) p = record p { read_connections = without i p.read_connections }
remove_without_lock (write_conn i) p = record p {
  write_connections = without i p.write_connections;
}

abbrev pub Created : Type 0
Created = Option ConnectError × Store × Pool × List Connection

abbrev pub start_too : Connection → Created → Created
start_too c (err, s, p, started) = (err, s, p, c ∷ started)

-- `createConnections`, `n` more times; `dials i` is how the dial for the object `i` ends.
unfoldable pub create_connections :
    Config → (ℕ → Dial) → ℕ → ConnectionType → Store → Pool → Outcome Created
create_connections config dials zero type s p = ok (none, s, p, [])
create_connections config dials (suc n) type s p = create type s p >>= λ (c, s', p').
    let (err, t) = connect_internal config (dials s.next) type c s' in
    elim err [
      | none ↦ create_connections config dials n type t p' >>= λ x. ok (start_too c x)
      | some e ↦ close_connection c t >>= λ u. ok (some e, u, remove_without_lock c p', [])
    ]

abbrev pub start_all : List Connection → Created → Created
start_all cs (err, s, p, started) = (err, s, p, cs ++ started)

-- `connector`: both sizes are taken at the start.
unfoldable pub connector : Config → (ℕ → Dial) → Store → Pool → Outcome Created
connector config dials s p =
    let (reads, writes) = size s p in
    create_connections config dials (pos_part (connections_to_create config reads)) read s p
    >>= λ (err, s', p', started). elim err [
      | some e ↦ ok (some e, s', p', started)
      | none ↦
          create_connections config dials (pos_part (connections_to_create config writes)) write s'
            p'
          >>= λ x. ok (start_all started x)
    ]

-- `Offer`
unfoldable pub offer : ℕ → Pool → Outcome Pool
offer i p = send p.capacity p.idle i >>= λ q. ok (record p { idle = q })

abbrev pub remove : Connection → Pool → Pool
remove c p = remove_without_lock c p

-- What a connection calls of this pool.
abbrev pub client_pool : ConnectionPool Pool
client_pool = record { offer = offer; remove = remove }

abbrev pub conns : (ℕ → Connection) → List ℕ → List Connection
conns f [] = []
conns f (i ∷ is) = f i ∷ conns f is

unfoldable pub close_all : List Connection → Store → Outcome Store
close_all [] s = ok s
close_all (c ∷ cs) s = close_connection c s >>= close_all cs

-- `Shutdown`: closing the channel `done` a second time panics.
unfoldable pub shutdown : Store → Pool → Outcome (Store × Pool)
shutdown s p =
    if p.done
    then panic
    else (close_all (conns read_conn p.read_connections) s >>= λ s'.
        close_all (conns write_conn p.write_connections) s' >>= λ s''.
        ok (s'', record p { done = true; read_connections = []; write_connections = [] }))

abbrev pub take_received : Option ℕ × List ℕ → Store → Pool → Option ℕ × Store × Pool
take_received (none, rest) s p = (none, s, record p { idle = rest })
take_received (some c, rest) s p =
    let (taken, s') = take c s in (if taken then some c else none, s', record p { idle = rest })

-- `GetIdleWriteConnection`
unfoldable pub get_idle_write_connection :
    Config → (ℕ → Round) → Store → Pool → Option ℕ × Store × Pool
get_idle_write_connection config rounds s p =
    take_received (get_value_with_timeout s rounds 0 (get_timeout config) p.idle) s p
