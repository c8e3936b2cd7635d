-- ===== src/Link.antt =====
-- The two ends together: a client that opens a connection to read requests from (client/utils.go), and
-- the server that registers it and sends its next request over it (server/server.go).
use zk_wsp.Prelude.{
  Option, not, ℕ, ◌≡◌, ◌<◌, ◌++◌, ◌∙◌, refl, true, false, none, some, List, [], ◌∷◌, All, Bytes,
  arith, length, ==_refl, same_refl,
}
use zk_wsp.Prelude.Int.{ℤ, pos, negsuc, pos_part, ltb_ℤ}
use zk_wsp.Prelude.Dict.{lookup, lookup-insert}
use zk_wsp.Outcome.{ok, Succeeds}
use zk_wsp.Result.{value}
use zk_wsp.Http.Header.{Header}
use zk_wsp.Http.Writer.{ResponseWriter}
use zk_wsp.Http.Request.{UrlLib}
use zk_wsp.Common.Types.{ConnectionType, read, write, is_idle, to_int, of_int}
use zk_wsp.Common.Store.{Connection, Store, write_conn}
use zk_wsp.Common.Write.Laws.{release-ok, freed}
use zk_wsp.Common.Receive.{Round}
use zk_wsp.Common.Receive.Laws.{AllStale}
use zk_wsp.Common.Auth.{ValidateAccessTokenResponse}
use zk_wsp.Greeting.{greeting, parse_greeting, server_conn_type}
use zk_wsp.Greeting.RoundTrip.{IsInt, parse_greeting-greeting}
use zk_wsp.Client.Config.{Config}
use zk_wsp.Client.Pool.{Dial, connect_internal}
use zk_wsp.Server.Pool.{Pool, server_pool, get_idle_write_connection}
use zk_wsp.Server.Pool.Interface.{server_pool-lawful, offer-room}
use zk_wsp.Server.Pool.Idle.{
  with_new, with_socket, with_socket-next, add_connection-write, get_idle_write_connection-finds,
}
use zk_wsp.Server.Handlers.{
  Server, RegisterEnv, register, admit, upgrade, greet, enter, set_pool, is_made, find_pool,
}
use zk_wsp.Server.Config.{Config as ServerConfig}
use zk_wsp.Server.Pool.{new_pool}
use zk_wsp.Server.Handlers.Pools.{
  find_pool-lookup, IsFiled, pool_or_new, put_connection, register_connection-put_connection,
}
use zk_wsp.Server.Handlers.Registration.{validated}
use zk_wsp.Server.Running.{registered, started, call, run}

-- A client that connects without an error has written its greeting.
connect_internal-greets :
    (config : Config) (d : Dial) (type : ConnectionType) (c : Connection) (t : Store)
    → (connect_internal config d type c t).0 ≡ none
    → d.write_message (greeting config.pool_idle_size type) ≡ true
unfolding connect_internal
connect_internal-greets config d type c t h = ground arith

-- The cloud service calls the key valid, and the websocket is open.
pub record IsWelcome (e : RegisterEnv) (header : Header) (sv : Server) (id : Bytes) (ws : ℕ)
    : Type 0 where
  pub response : ValidateAccessTokenResponse
  pub answered : validated e header sv ≡ value response
  pub valid : response.payload.is_valid ≡ true
  pub cluster : response.payload.cluster_id ≡ id
  pub upgraded : e.upgrade ≡ some ws

parse_greeting-read :
    (size : ℤ) → IsInt size → parse_greeting (greeting size read) ≡ ok (some (size, pos 1))
unfolding server_conn_type to_int
parse_greeting-read size h = parse_greeting-greeting size read h (omega arith)

write_type : of_int (pos 1) ≡ write
unfolding of_int
write_type = refl

positive_size : (n : ℤ) → 0 < pos_part n → not (ltb_ℤ n (pos 0)) ≡ true
positive_size (pos n) h = ground arith
positive_size (negsuc n) h = ground arith

made_for :
    (config : ServerConfig) (id : Bytes) (found : Option Pool)
    → length (pool_or_new config id found).idle < (pool_or_new config id found).capacity
    → is_made config (elim found [ none ↦ none | some p ↦ some (id, p) ]) ≡ true
unfolding new_pool
made_for config id (some p) h = refl
made_for config id none h = positive_size config.pool_max_size h

module _ (e : RegisterEnv) (header : Header) (w : ResponseWriter) (s : Store) (sv : Server)
    (id : Bytes) (ws : ℕ) (size : ℤ) where
  -- `Register` behind a greeting of a client that reads
  register-greeting :
      IsWelcome e header sv id ws
      → e.read_message ≡ some (greeting size read)
      → IsInt size
      → IsFiled sv.pools
      → is_made sv.config (find_pool id sv.pools) ≡ true
      → register e header w s sv
        ≡ (let (c, s', sv') = put_connection id size write ws s sv in ok (w, s', sv', c))
  unfolding register admit upgrade greet enter
  register-greeting v g h f made =
      rw
        (
          v.answered,
          v.valid,
          v.upgraded,
          g,
          parse_greeting-read size h,
          write_type,
          v.cluster,
          (register_connection-put_connection id size write ws s sv f).0,
          made,
        )
        refl

  -- The pool that gets the connection
  abbrev pub target : Pool
  target = record (pool_or_new sv.config id (lookup id sv.pools)) { idle_size = size }

  -- A channel with room was made.
  room-is_made :
      IsFiled sv.pools
      → length target.idle < target.capacity
      → is_made sv.config (find_pool id sv.pools) ≡ true
  room-is_made f room =
      rw (find_pool-lookup id sv.pools f) (made_for sv.config id (lookup id sv.pools) room)

  registered-ok :
      IsWelcome e header sv id ws
      → e.read_message ≡ some (greeting size read)
      → IsInt size
      → IsFiled sv.pools
      → target.done ≡ false
      → length target.idle < target.capacity
      → register e header w s sv
        ≡ ok (w, with_socket ws s, set_pool id (with_new s target) sv, some (write_conn s.next))
  registered-ok v g h f alive room =
      register-greeting v g h f (room-is_made f room)
      ∙ rw (add_connection-write ws s target alive) refl

  -- The pool and the store behind the `Release` of `Start`
  abbrev pub offered : Pool
  offered = record (with_new s target) { idle = target.idle ++ s.next ∷ [] }

  abbrev started_store : ℕ → Store
  started_store now = freed server_pool server_pool-lawful now s.next (with_socket ws s)

  lookup-set_pool : (p : Pool) (sv' : Server) → lookup id (set_pool id p sv').pools ≡ some p
  lookup-set_pool p sv' = lookup-insert sv'.pools id id p ∙ rw (same_refl id) refl

  started-ok :
      (lib : UrlLib) (now : ℕ)
      → length target.idle < target.capacity
      → call lib (started id s.next now) (with_socket ws s) (set_pool id (with_new s target) sv)
        ≡ ok (started_store now, set_pool id offered (set_pool id (with_new s target) sv))
  unfolding call
  started-ok lib now room = rw (lookup-set_pool (with_new s target) sv) (
      rw
        (release-ok server_pool server_pool-lawful now s.next (with_socket ws s) (with_new s target)
          offered (rw (with_socket-next ws s) refl) (offer-room s.next (with_new s target) room))
        refl)

  registered_call-ok :
      (lib : UrlLib)
      → IsWelcome e header sv id ws
      → e.read_message ≡ some (greeting size read)
      → IsInt size
      → IsFiled sv.pools
      → target.done ≡ false
      → length target.idle < target.capacity
      → call lib (registered e header w) s sv
        ≡ ok (with_socket ws s, set_pool id (with_new s target) sv)
  unfolding call
  registered_call-ok lib v g h f alive room = rw (registered-ok v g h f alive room) refl

  run-ok :
      (lib : UrlLib) (now : ℕ)
      → IsWelcome e header sv id ws
      → e.read_message ≡ some (greeting size read)
      → IsInt size
      → IsFiled sv.pools
      → target.done ≡ false
      → length target.idle < target.capacity
      → run lib (registered e header w ∷ started id s.next now ∷ []) s sv
        ≡ ok (started_store now, set_pool id offered (set_pool id (with_new s target) sv))
  unfolding run
  run-ok lib now v g h f alive room =
      rw (registered_call-ok lib v g h f alive room, started-ok lib now room) refl

  -- An older connection is as it was.
  started-AllStale :
      (now : ℕ) (js : List ℕ)
      → All (λ j. j < s.next) js
      → AllStale s js
      → AllStale (started_store now) js
  started-AllStale now [] older stale = tt
  started-AllStale now (j ∷ js) (o, older) (x, stale) =
      (ground (arith, o, x), started-AllStale now js older stale)

  started-IsIdle : (now : ℕ) → is_idle ((started_store now).writes s.next).status ≡ true
  started-IsIdle now = rw (==_refl s.next) refl

  -- What the server needs to send its next request over the new connection: the client's pool there
  -- is not shut down and has room, and its channel holds only older connections that are not idle.
  pub record IsReady : Type 0 where
    pub alive : target.done ≡ false
    pub room : length target.idle < target.capacity
    pub older : All (λ j. j < s.next) target.idle
    pub stale : AllStale s target.idle

  -- The client's pool at the server hands out the connection `s.next`.
  abbrev pub Serves : (ℕ → Round) → Store × Server → Type 0
  Serves rounds (s', sv') =
      (p : Pool) × (lookup id sv'.pools ≡ some p)
      × (p.idle_size ≡ size)
      × ((get_idle_write_connection sv'.config rounds s' p).0 ≡ some s.next)

  served :
      (lib : UrlLib) (now : ℕ) (rounds : ℕ → Round)
      → IsWelcome e header sv id ws
      → e.read_message ≡ some (greeting size read)
      → IsInt size
      → IsFiled sv.pools
      → IsReady
      → ((j : ℕ) → (rounds j).timer_first ≡ false)
      → Succeeds (Serves rounds) (run lib (registered e header w ∷ started id s.next now ∷ []) s sv)
  served lib now rounds v g h f r quiet = rw (run-ok lib now v g h f r.alive r.room) (
    offered,
    lookup-set_pool offered (set_pool id (with_new s target) sv),
    refl,
    get_idle_write_connection-finds sv.config rounds (started_store now) offered target.idle s.next
        [] quiet refl (started-AllStale now target.idle r.older r.stale) (started-IsIdle now),
  )

-- Let a client connect to read requests, without an error, and let the server read on the websocket
-- what the client wrote there. If the cloud service calls the key valid, the idle size is an int, the
-- pools of the server are filed under their clients, and the client's pool is ready for the
-- connection, then `Register` and the `Release` at the start of the new connection return. The server
-- has taken over the client's idle size, and while the channel wins over the timer, the next request
-- for this client gets the new connection.
pub connect_internal-Serves :
    (config : Config) (d : Dial) (c : Connection) (t : Store) (e : RegisterEnv) (header : Header)
    (w : ResponseWriter) (s : Store) (sv : Server) (id : Bytes) (ws : ℕ) (lib : UrlLib) (now : ℕ)
    (rounds : ℕ → Round)
    → (connect_internal config d read c t).0 ≡ none
    → ((m : Bytes) → d.write_message m ≡ true → e.read_message ≡ some m)
    → IsWelcome e header sv id ws
    → IsInt config.pool_idle_size
    → IsFiled sv.pools
    → IsReady e header w s sv id ws config.pool_idle_size
    → ((j : ℕ) → (rounds j).timer_first ≡ false)
    → Succeeds
        (Serves e header w s sv id ws config.pool_idle_size rounds)
        (run lib (registered e header w ∷ started id s.next now ∷ []) s sv)
connect_internal-Serves config d c t e header w s sv id ws lib now rounds ok_ wire v h f r quiet =
    served e header w s sv id ws config.pool_idle_size lib now rounds v
      (wire _ (connect_internal-greets config d read c t ok_)) h f r quiet
