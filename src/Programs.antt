-- ===== src/Programs.antt =====
-- The client's program: cmd/wsp_client/main.go.
pub mod Ends
pub mod ServerMain
use zk_wsp.Prelude.{
  Bool, true, false, ◌&&◌, Option, none, some, List, [], ◌∷◌, Bytes, is_empty, if◌then◌else◌, ℕ,
}
use zk_wsp.Outcome.{Outcome, ok, ◌>>=◌}
use zk_wsp.Result.{Result, value, error}
use zk_wsp.Files.{Files, ArgsError, process_args}
use zk_wsp.Common.Store.{Store}
use zk_wsp.Common.Secrets.{K8sLib, SecretError, get_secret_value}
use zk_wsp.Client.Secrets
use zk_wsp.Client.Config.{Config, new_config}
use zk_wsp.Client.Login.{LoginLib}
use zk_wsp.Client.Pool.{Dial}
use zk_wsp.Client.Handlers.{Client, new_client, start, shutdown_client}
use zk_wsp.Client.Running.{Call, run}
use zk_wsp.Http.Request.{UrlLib}

module _ (lib : UrlLib) where
  -- `main` behind `NewClient`: `Start`, what the client does until the signal, and `Shutdown`.
  unfoldable pub run_client :
      (ℕ → Dial) → List (Call lib) → Store → Client → Outcome (Store × Client)
  run_client dials calls s c = start dials s c >>= λ (s', _, c').
      run lib calls (true, s', c') >>= λ (_, s'', c''). shutdown_client s'' c''

abbrev with_key : Config → Result SecretError Bytes → Option Config
with_key config (error _) = none
with_key config (value key) = some (record config { target_secret_key = key })

-- The key of the target, from the cluster's secret unless it is configured.
unfoldable pub find_key : (lib : K8sLib) → lib.Cluster → Config → Option Config
find_key lib k config =
    if is_empty config.target_secret_key
    then with_key config (
        get_secret_value lib k config.wsp_login.cluster_key_namespace
          config.wsp_login.cluster_secret_name config.wsp_login.cluster_key_data)
    else some config

abbrev configured : (lib : K8sLib) → lib.Cluster → Option ArgsError × Config → Option Config
configured lib k (some _, config) = none
configured lib k (none, config) = find_key lib k config

abbrev to_option : Result SecretError Bytes → Option Bytes
to_option (value v) = some v
to_option (error _) = none

-- The login of the client reads its key from the same cluster.
abbrev pub with_secrets : (lib : K8sLib) → lib.Cluster → Config → LoginLib → LoginLib
with_secrets lib k config login = record login {
  get_secret_value = to_option (
      Secrets.get_secret_value lib k config.wsp_login.cluster_key_namespace
        config.wsp_login.cluster_secret_name config.wsp_login.cluster_key_data);
}

abbrev create : (lib : K8sLib) → lib.Cluster → LoginLib → Option Config → Option Client
create lib k login none = none
create lib k login (some config) = new_client (with_secrets lib k config login) config

-- `main` up to the client, which it has only if nothing failed.
unfoldable pub make_client :
    (lib : K8sLib) → lib.Cluster → Files Config → Bytes → LoginLib → Option Client
make_client lib k files path login =
    create lib k login (configured lib k (process_args files path new_config))

module _ (urls : UrlLib) where
  abbrev main_with :
      (ℕ → Dial) → List (Call urls) → Store → Option Client → Outcome (Option (Store × Client))
  main_with dials calls s none = ok none
  main_with dials calls s (some c) = run_client urls dials calls s c >>= λ x. ok (some x)

  -- `main`
  unfoldable pub client_main :
      (lib : K8sLib)
      → lib.Cluster
      → Files Config
      → Bytes
      → LoginLib
      → (ℕ → Dial)
      → List (Call urls)
      → Store
      → Outcome (Option (Store × Client))
  client_main lib k files path login dials calls s =
      main_with dials calls s (make_client lib k files path login)
