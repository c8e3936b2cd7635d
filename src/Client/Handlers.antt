-- ===== src/Client/Handlers.antt =====
-- client/client.go, and the rounds of `Start` of client/pool.go, which change the client as well.
pub mod Retry
pub mod Overflow
pub mod Kill
pub mod Requests
use zk_wsp.Prelude.{
  ℕ, ◌≡◌, ◌||◌, ◌&&◌, not, Bool, true, false, Option, none, some, List, Bytes, codes, length,
  if◌then◌else◌,
}
use zk_wsp.Prelude.Int.{ℤ, pos, ◌*ℤ◌, ltb_ℤ, wrap}
use zk_wsp.Outcome.{Outcome, ok, panic, ◌>>=◌}
use zk_wsp.Http.Header
use zk_wsp.Http.Writer.{ResponseWriter, header_set, send_status, write}
use zk_wsp.Http.Response.{proxy_error, proxy_errorf}
use zk_wsp.Http.Request.{UrlLib, Request}
use zk_wsp.Common.Store.{Connection, write_conn, Store}
use zk_wsp.Common.Write.{close_without_lock}
use zk_wsp.Common.Receive.{Round}
use zk_wsp.Common.Proxy.{ProxyEnv, ProxyError, Proxied, proxy_request}
use zk_wsp.Common.Utils.{get_destination_url}
use zk_wsp.Client.Config.{Config, auth_token_un_authorized_code, auth_token_session_expired_code}
use zk_wsp.Client.Login.{WspLogin, LoginLib, create_wsp_login}
use zk_wsp.Client.Pool.{
  Pool, Dial, ConnectError, invalid_cluster_key, not_dialed, greeting_failed, Created, connector,
  shutdown, new_pool, remove, client_pool, get_idle_write_connection, same_ℤ, second, ticking,
  default_interval,
}

pub record Client : Type 0 where
  pub config : Config
  pub pool : Option Pool
  pub ready : Bool
  pub killed : Bool
  pub wsp_login : WspLogin

abbrev pub max_interval : Config → ℤ
max_interval config = wrap (pos second *ℤ config.max_retry_interval)

-- After a failure: twice the interval, at most the maximum.
abbrev pub back_off : Config → ℤ → ℤ
back_off config interval =
    let doubled = wrap (interval *ℤ pos 2) in
    if ltb_ℤ (max_interval config) doubled then max_interval config else doubled

-- The end of `startInternal`: the ticker is reset, and the client is ready once the channel holds
-- `PoolIdleSize` connections.
unfoldable pub reset_ticker :
    Store → Pool → List Connection → Client → Outcome (Store × Pool × List Connection × Client)
reset_ticker s p started c = ticking p.retry_interval (
  s,
  p,
  started,
  record c { ready = c.ready || same_ℤ (pos (length p.idle)) c.config.pool_idle_size },
)

-- `startInternal` behind `connector`, by the error that this returned.
unfoldable pub after_connector :
    Created → Client → Outcome (Store × Pool × List Connection × Client)
after_connector (some invalid_cluster_key, s, p, started) c =
    shutdown s p >>= λ (s', p'). ok (s', p', started, record c { killed = true; ready = true })
after_connector (some not_dialed, s, p, started) c =
    reset_ticker s (record p { retry_interval = back_off c.config p.retry_interval }) started c
after_connector (some greeting_failed, s, p, started) c =
    reset_ticker s (record p { retry_interval = back_off c.config p.retry_interval }) started c
after_connector (none, s, p, started) c =
    reset_ticker s (record p { retry_interval = default_interval c.config }) started c

-- `startInternal`
unfoldable pub start_internal :
    (ℕ → Dial) → Store → Pool → Client → Outcome (Store × Pool × List Connection × Client)
start_internal dials s p c = connector c.config dials s p >>= λ x. after_connector x c

-- `NewClient`: nil if the login fails.
unfoldable pub new_client : LoginLib → Config → Option Client
new_client lib config = elim (create_wsp_login lib config) [
  | none ↦ none
  | some login ↦
      some
        (record { config = config; pool = none; ready = false; killed = false; wsp_login = login })
]

-- `Start` up to its goroutines: a new pool and its first round
unfoldable pub start : (ℕ → Dial) → Store → Client → Outcome (Store × List Connection × Client)
start dials s c = new_pool c.config >>= λ p. start_internal dials s p c >>= λ (s', p', started, c').
    ok (s', started, record c' { pool = some p' })

-- `Shutdown`: a nil pool makes it panic.
unfoldable pub shutdown_client : Store → Client → Outcome (Store × Client)
shutdown_client s c = elim c.pool [
  | none ↦ panic
  | some p ↦ shutdown s p >>= λ (s', p'). ok (s', record c { pool = some p' })
]

-- `Status`
unfoldable pub status : ResponseWriter → Client → ResponseWriter
status w c =
    if c.ready
    then write (codes "OK") (send_status 200 w)
    else write (codes "Wsp Client Not Ready.") (send_status 503 w)

-- `SendKillResponse` with the text that `json.Marshal` made; it cannot fail on this record.
unfoldable pub send_kill_response : Bytes → ResponseWriter → ResponseWriter
send_kill_response json w =
    write json (header_set (codes "Content-Type") (codes "application/json") (send_status 200 w))

pub record RequestEnv : Type 0 where
  pub rounds : ℕ → Round
  pub proxy : ProxyEnv
  pub message : ProxyError → Bytes
  pub kill_json : Bytes

-- Last: whether a goroutine was started that refreshes the token.
abbrev pub Served : Type 0
Served = ResponseWriter × Store × Client × Bool

abbrev pub needs_refresh : ℤ → Bool
needs_refresh code =
    same_ℤ code auth_token_un_authorized_code || same_ℤ code auth_token_session_expired_code

abbrev pub set_pool : Pool → Client → Client
set_pool p c = record c { pool = some p }

-- Behind `ProxyRequest`: a connection that failed is thrown away.
unfoldable pub settle :
    RequestEnv → ℕ → Client → ℤ → Option ProxyError → ResponseWriter → Store → Pool → Outcome Served
settle e i c code none w s p = ok (w, s, set_pool p c, needs_refresh code)
settle e i c code (some err) w s p = close_without_lock i s >>= λ s'.
    ok (proxy_error (e.message err) w, s', set_pool (remove (write_conn i) p) c, needs_refresh code)

abbrev pub on_connection :
    (lib : UrlLib)
    → RequestEnv
    → ResponseWriter
    → Request lib.Url
    → Client
    → Option ℕ × Store × Pool
    → Outcome Served
on_connection lib e w r c (none, s, p) =
    ok (proxy_errorf (codes "Unable to get a proxy connection") w, s, set_pool p c, false)
on_connection lib e w r c (some i, s, p) =
    proxy_request client_pool lib e.proxy i w r s p >>= λ (q, w', s', p').
    settle e i c q.response_code q.err w' s' p'

-- `Request` from the point where the pool is read
abbrev pub on_pool :
    (lib : UrlLib)
    → RequestEnv
    → ResponseWriter
    → Request lib.Url
    → Store
    → Client
    → Option Pool
    → Outcome Served
on_pool lib e w r s c none =
    ok (proxy_errorf (codes "No pool available for the target client.") w, s, c, false)
on_pool lib e w r s c (some p) =
    on_connection lib e w r c (get_idle_write_connection c.config e.rounds s p)

-- `Request` behind `GetDestinationUrl`: the request goes to its destination, with the token.
abbrev pub on_destination :
    (lib : UrlLib)
    → RequestEnv
    → Request lib.Url
    → Store
    → Client
    → Option lib.Url × ResponseWriter
    → Outcome Served
on_destination lib e r s c (none, w) = ok (w, s, c, false)
on_destination lib e r s c (some url, w) =
    let h = Header.set r.header (codes "Operator-Auth-Token") c.wsp_login.auth_token in
    on_pool lib e w (record r { url = url; header = h }) s c c.pool

-- `Request`
unfoldable pub request :
    (lib : UrlLib) → RequestEnv → ResponseWriter → Request lib.Url → Store → Client → Outcome Served
request lib e w r s c =
    if c.killed
    then ok (send_kill_response e.kill_json w, s, c, false)
    else on_destination lib e r s c (get_destination_url lib w r)
