-- ===== src/Server/Handlers.antt =====
-- server/server.go: the handlers of the server, its periodic cleaning and its shutdown.
pub mod Requests
pub mod Registration
pub mod Pools
pub mod Entered
pub mod Errors
use zk_wsp.Prelude.{
  ℕ, ◌≡◌, Bool, true, false, not, Option, none, some, List, [], ◌∷◌, ◌++◌, if◌then◌else◌, Bytes,
  codes, same, length, ltb,
}
use zk_wsp.Prelude.Int.{ltb_ℤ, pos, ℤ}
use zk_wsp.Prelude.Dict.{lookup, insert}
use zk_wsp.Outcome.{Outcome, ok, panic, ◌>>=◌}
use zk_wsp.Result.{Result, value, error}
use zk_wsp.Http.Header.{Header, get}
use zk_wsp.Http.Writer.{ResponseWriter}
use zk_wsp.Http.Response.{proxy_error, proxy_errorf, invalid_cluster_errorf}
use zk_wsp.Http.Request.{UrlLib, Request}
use zk_wsp.Common.Types.{ConnectionType, of_int}
use zk_wsp.Common.Store.{Connection, write_conn, Store}
use zk_wsp.Common.Write.{close_without_lock, PingEnv, PingError, send_ping_message}
use zk_wsp.Common.Receive.{Round}
use zk_wsp.Common.Proxy.{ProxyEnv, ProxyError, proxy_request}
use zk_wsp.Common.Utils.{get_client_id, get_destination_url}
use zk_wsp.Common.Auth.{AuthLib, AuthError, ValidateAccessTokenResponse, validate_key_with_zk_cloud}
use zk_wsp.Greeting.{parse_greeting}
use zk_wsp.Server.Config.{Config}
use zk_wsp.Server.Pool.{
  Pool, new_pool, add_connection, is_empty, shutdown, remove, server_pool,
  get_all_busy_write_connections, get_idle_write_connection,
}

pub record Server : Type 0 where
  pub config : Config
  pub pools : List (Bytes × Pool)
  pub done : Bool

-- `NewServer`
unfoldable pub new_server : Config → Server
new_server config = record { config = config; pools = []; done = false }

abbrev pub set_pool : Bytes → Pool → Server → Server
set_pool id p sv = record sv { pools = insert id p sv.pools }

-- The loop of `Register` over the pools: the key and the pool of a client.
unfoldable pub find_pool : Bytes → List (Bytes × Pool) → Option (Bytes × Pool)
find_pool id [] = none
find_pool id ((k, p) ∷ ps) = if same p.client_id id then some (k, p) else find_pool id ps

abbrev pub pool_for : Config → Bytes → Option (Bytes × Pool) → Bytes × Pool
pool_for config id none = (id, new_pool config id)
pool_for config id (some x) = x

-- `NewPool` is only called for a client without a pool, and panics at a negative `PoolMaxSize`.
abbrev pub is_made : Config → Option (Bytes × Pool) → Bool
is_made config none = not (ltb_ℤ config.pool_max_size (pos 0))
is_made config (some x) = true

-- Step 3 of `Register`, if the pool is made
unfoldable pub register_connection :
    Bytes → ℤ → ConnectionType → ℕ → Store → Server → Option Connection × Store × Server
register_connection id idle_size type ws s sv =
    let (k, p) = pool_for sv.config id (find_pool id sv.pools) in
    let (started, s', p') = add_connection ws type s (record p { idle_size = idle_size }) in
    (started, s', set_pool k p' sv)

-- What `Register` calls: the cloud service, the upgrade of the connection to a websocket, and the
-- first message on it. The messages are the texts of the errors.
pub record RegisterEnv : Type 0 where
  pub auth : AuthLib
  pub upgrade : Option ℕ
  pub read_message : Option Bytes
  pub auth_message : AuthError → Bytes
  pub upgrade_message : Bytes

abbrev pub Registered : Type 0
Registered = ResponseWriter × Store × Server × Option Connection

-- `ws.Close()`
abbrev close_socket : ℕ → Store → Store
close_socket ws s = record s { ws_closes = ws ∷ s.ws_closes }

-- Once the connection is a websocket, what `ProxyErrorf` writes goes nowhere.
unfoldable pub enter :
    Bytes → ℕ → ResponseWriter → Store → Server → Option (ℤ × ℤ) → Outcome Registered
enter id ws w s sv none = ok (w, close_socket ws s, sv, none)
enter id ws w s sv (some (idle_size, type)) =
    let (started, s', sv') = register_connection id idle_size (of_int type) ws s sv in
    if is_made sv.config (find_pool id sv.pools) then ok (w, s', sv', started) else panic

unfoldable pub greet :
    Bytes → ℕ → ResponseWriter → Store → Server → Option Bytes → Outcome Registered
greet id ws w s sv none = ok (w, close_socket ws s, sv, none)
greet id ws w s sv (some g) = parse_greeting g >>= enter id ws w s sv

unfoldable pub upgrade :
    RegisterEnv → Bytes → ResponseWriter → Store → Server → Option ℕ → Outcome Registered
upgrade e id w s sv none = ok (proxy_errorf e.upgrade_message w, s, sv, none)
upgrade e id w s sv (some ws) = greet id ws w s sv e.read_message

unfoldable pub admit :
    RegisterEnv
    → ResponseWriter
    → Store
    → Server
    → Result AuthError ValidateAccessTokenResponse
    → Outcome Registered
admit e w s sv (error x) = ok (proxy_errorf (e.auth_message x) w, s, sv, none)
admit e w s sv (value response) =
    if not response.payload.is_valid
    then ok (invalid_cluster_errorf (codes "Secret key is invalid or killed.") w, s, sv, none)
    else upgrade e response.payload.cluster_id w s sv e.upgrade

abbrev pub login_url : Config → Bytes
login_url c =
    codes "http://" ++ c.zk_cloud.host ++ codes ":" ++ c.zk_cloud.port ++ c.zk_cloud.login_path

-- `Register`: the connection whose `Start` is spawned comes last.
unfoldable pub register :
    RegisterEnv → Header → ResponseWriter → Store → Server → Outcome Registered
register e header w s sv = admit e w s sv (
    validate_key_with_zk_cloud e.auth (get header (codes "X-SECRET-KEY"))
      (get header (codes "X-CLUSTER-ID")) (login_url sv.config))

pub record RequestEnv : Type 0 where
  pub rounds : ℕ → Round
  pub proxy : ProxyEnv
  pub message : ProxyError → Bytes

abbrev pub Served : Type 0
Served = ResponseWriter × Store × Server

-- Behind `ProxyRequest`: a connection that failed is thrown away.
unfoldable pub settle :
    RequestEnv
    → Bytes
    → ℕ
    → Server
    → Option ProxyError
    → ResponseWriter
    → Store
    → Pool
    → Outcome Served
settle e id c sv none w s p = ok (w, s, set_pool id p sv)
settle e id c sv (some err) w s p = close_without_lock c s >>= λ s'.
    ok (proxy_error (e.message err) w, s', set_pool id (remove (write_conn c) p) sv)

abbrev pub on_connection :
    (lib : UrlLib)
    → RequestEnv
    → Bytes
    → ResponseWriter
    → Request lib.Url
    → Server
    → Option ℕ × Store × Pool
    → Outcome Served
on_connection lib e id w r sv (none, s, p) =
    ok (proxy_errorf (codes "Unable to get a proxy connection") w, s, set_pool id p sv)
on_connection lib e id w r sv (some i, s, p) =
    proxy_request server_pool lib e.proxy i w r s p >>= λ (q, w', s', p').
    settle e id i sv q.err w' s' p'

-- `Request` from the point where the pool of the client is found
unfoldable pub request_on :
    (lib : UrlLib)
    → RequestEnv
    → Bytes
    → Pool
    → ResponseWriter
    → Request lib.Url
    → Store
    → Server
    → Outcome Served
request_on lib e id p w r s sv =
    on_connection lib e id w r sv (get_idle_write_connection sv.config e.rounds s p)

-- `Request` from the point where the pool of the client was looked up
abbrev pub on_pool :
    (lib : UrlLib)
    → RequestEnv
    → Bytes
    → ResponseWriter
    → Request lib.Url
    → Store
    → Server
    → Option Pool
    → Outcome Served
on_pool lib e id w r s sv none =
    ok (proxy_errorf (codes "No pool available for the target client.") w, s, sv)
on_pool lib e id w r s sv (some p) = request_on lib e id p w r s sv

-- `Request` behind `GetClientId`
abbrev pub on_client :
    (lib : UrlLib)
    → RequestEnv
    → Request lib.Url
    → Store
    → Server
    → Option Bytes × ResponseWriter
    → Outcome Served
on_client lib e r s sv (none, w) = ok (proxy_errorf (codes "Missing clientId value") w, s, sv)
on_client lib e r s sv (some id, w) = on_pool lib e id w r s sv (lookup id sv.pools)

-- `Request` behind `GetDestinationUrl`: the client id is looked up after the URL was replaced.
abbrev pub on_destination :
    (lib : UrlLib)
    → RequestEnv
    → Request lib.Url
    → Store
    → Server
    → Option lib.Url × ResponseWriter
    → Outcome Served
on_destination lib e r s sv (none, w) = ok (w, s, sv)
on_destination lib e r s sv (some url, w) =
    let r' = record r { url = url } in on_client lib e r' s sv (get_client_id lib w r')

-- `Request`
unfoldable pub request :
    (lib : UrlLib) → RequestEnv → ResponseWriter → Request lib.Url → Store → Server → Outcome Served
request lib e w r s sv = on_destination lib e r s sv (get_destination_url lib w r)
