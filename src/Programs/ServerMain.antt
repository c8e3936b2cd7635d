-- ===== src/Programs/ServerMain.antt =====
-- The server's program: cmd/wsp_server/main.go, and `Start` of server/server.go.
use zk_wsp.Prelude.{Option, none, some, List, Bytes}
use zk_wsp.Outcome.{Outcome, ok, ◌>>=◌}
use zk_wsp.Http.Request.{UrlLib}
use zk_wsp.Files.{Files, ArgsError, process_args}
use zk_wsp.Common.Store.{Store}
use zk_wsp.Server.Config.{Config, new_config}
use zk_wsp.Server.Handlers.{Server, new_server}
use zk_wsp.Server.Status.{SyncEnv, periodic_sync}
use zk_wsp.Server.Running.{Call, run}
use zk_wsp.Server.Upkeep.{shutdown_server}

-- `Start`: `StartPeriodicSync` makes the first sync itself. What the goroutines, the ticker and
-- net/http call later are the calls of `Server.Running`.
unfoldable pub start : SyncEnv → Store → Server → Outcome (Store × Server)
start e s sv = periodic_sync e s sv >>= λ (_, _, s', sv'). ok (s', sv')

module _ (lib : UrlLib) where
  -- `main` behind the configuration: `NewServer`, `Start`, what the server does until the signal, and
  -- `Shutdown`.
  unfoldable pub run_server : SyncEnv → List (Call lib) → Store → Config → Outcome (Store × Server)
  run_server e calls s config = start e s (new_server config) >>= λ (s', sv).
      run lib calls s' sv >>= λ (s'', sv'). shutdown_server s'' sv'

  abbrev main_with :
      SyncEnv
      → List (Call lib)
      → Store
      → Option ArgsError × Config
      → Outcome (Option (Store × Server))
  main_with e calls s (some _, config) = ok none
  main_with e calls s (none, config) = run_server e calls s config >>= λ x. ok (some x)

  -- `main`: without a configuration there is no server.
  unfoldable pub server_main :
      Files Config → Bytes → SyncEnv → List (Call lib) → Store → Outcome (Option (Store × Server))
  server_main files path e calls s = main_with e calls s (process_args files path new_config)
