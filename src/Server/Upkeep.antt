-- ===== src/Server/Upkeep.antt =====
-- server/server.go: the periodic cleaning of the server and its shutdown.
pub mod Cleaning
pub mod Stop
use zk_wsp.Prelude.{
  ◌||◌, ℕ, ◌≡◌, Bool, true, false, not, Option, none, some, List, [], ◌∷◌, ◌++◌, if◌then◌else◌,
  Bytes, codes, same, length, ltb,
}
use zk_wsp.Prelude.Int.{ℤ}
use zk_wsp.Prelude.Dict.{lookup, insert}
use zk_wsp.Outcome.{Outcome, ok, panic, blocked, ◌>>=◌}
use zk_wsp.Result.{Result, value, error}
use zk_wsp.Http.Header.{Header, get}
use zk_wsp.Http.Writer.{ResponseWriter}
use zk_wsp.Http.Response.{proxy_error, proxy_errorf, invalid_cluster_errorf}
use zk_wsp.Http.Request.{UrlLib, Request}
use zk_wsp.Common.Types.{ConnectionType, of_int}
use zk_wsp.Common.Store.{Connection, read_conn, write_conn, Store}
use zk_wsp.Common.Write.{close_without_lock, PingEnv, PingError, send_ping_message}
use zk_wsp.Common.Receive.{Round}
use zk_wsp.Common.Proxy.{ProxyEnv, ProxyError, proxy_request}
use zk_wsp.Common.Utils.{get_client_id, get_destination_url}
use zk_wsp.Common.Auth.{AuthLib, AuthError, ValidateAccessTokenResponse, validate_key_with_zk_cloud}
use zk_wsp.Greeting.{parse_greeting}
use zk_wsp.Server.Config.{Config}
use zk_wsp.Server.Pool.{
  conns, Pool, new_pool, add_connection, is_empty, shutdown, remove, server_pool,
  get_all_busy_write_connections, get_idle_write_connection,
}
use zk_wsp.Server.Handlers.{Server, set_pool}

abbrev pub any_held : (Connection → Bool) → List Connection → Bool
any_held held [] = false
any_held held (c ∷ cs) = held c || any_held held cs

-- `Clean` takes the lock of each connection of the pool in turn; `held` says which of these locks is
-- never given back, as by a `Release` that waits at the full channel.
abbrev pub waits : (Connection → Bool) → Pool → Bool
waits held p =
    any_held held (conns read_conn p.read_connections)
    || any_held held (conns write_conn p.write_connections)

-- The loop of `clean`: an empty pool is shut down and dropped.
unfoldable pub clean_pools :
    (Connection → Bool)
    → Config
    → ℕ
    → List (Bytes × Pool)
    → Store
    → Outcome (Store × List (Bytes × Pool))
clean_pools held config now [] s = ok (s, [])
clean_pools held config now ((id, p) ∷ ps) s = elim (waits held p) [
  | true ↦ blocked
  | false ↦ is_empty config now s p >>= λ (empty, s', p'). elim empty [
    | true ↦ shutdown s' p' >>= λ (s'', _). clean_pools held config now ps s''
    | false ↦ clean_pools held config now ps s' >>= λ (s'', qs). ok (s'', (id, p') ∷ qs)
  ]
]

-- `clean`
unfoldable pub clean : (Connection → Bool) → ℕ → Store → Server → Outcome (Store × Server)
clean held now s sv =
    clean_pools held sv.config now sv.pools s >>= λ (s', ps). ok (s', record sv { pools = ps })

unfoldable pub shutdown_pools : List (Bytes × Pool) → Store → Outcome Store
shutdown_pools [] s = ok s
shutdown_pools ((id, p) ∷ ps) s = shutdown s p >>= λ (s', _). shutdown_pools ps s'

-- `Shutdown`: closing the channel `done` a second time would panic.
unfoldable pub shutdown_server : Store → Server → Outcome (Store × Server)
shutdown_server s sv =
    if sv.done
    then panic
    else (shutdown_pools sv.pools s >>= λ s'. ok (s', record sv { pools = []; done = true }))
