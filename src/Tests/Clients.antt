-- ===== src/Tests/Clients.antt =====
-- The client at concrete inputs.
use zk_wsp.Client.Handlers.Overflow.{start_internal-overflows}
use zk_wsp.Common.Read.{close_connection, close_without_lock}
use zk_wsp.Client.Pool.{
  size, connections_to_create, create_connections, create, connect_internal, remove_without_lock,
  not_dialed,
}
use zk_wsp.Prelude.{◌^◌}
use zk_wsp.Prelude.{
  ℕ, ◌≡◌, refl, true, false, some, none, [], ◌∷◌, List, arith, codes, inl, if◌then◌else◌, ◌==◌, ◌^◌,
}
use zk_wsp.Prelude.Int.{wrap, pos, ◌*ℤ◌, ◌+ℤ◌, ◌-ℤ◌}
use zk_wsp.Outcome.{panic, Returns}
use zk_wsp.Result.{value, error}
use zk_wsp.Http.Writer.{fresh}
use zk_wsp.Client.Config.{Config, new_config}
use zk_wsp.Client.Login.{
  WspLogin, LoginLib, WspLoginResponse, new_login, refresh_wsp_token, cluster_killed, bad_status,
}
use zk_wsp.Client.Login.Refresh.{refresh-killed}
use zk_wsp.Client.Login.Interleaving.{Event, call, answer, run, IsExclusive, run-IsExclusive}
use zk_wsp.Client.Pool.{
  Pool, Dial, new_pool, connector, size, connections_to_create, create_connections, create,
  connect_internal,
}
use zk_wsp.Client.Handlers.Requests.{ServedBy, request-ServedBy}
use zk_wsp.Http.Request.{Request}
use zk_wsp.Client.Handlers.{Client, RequestEnv, start_internal, request}
use zk_wsp.Tests.Data.{store, plain_urls, http_request, rounds, proxy}
use zk_wsp.Tests.Connections.{store-IsSound}

abbrev pub config : Config
config = record new_config { default_retry_interval = pos 5; max_retry_interval = pos 60 }

abbrev token : WspLoginResponse
token = record {
  payload = record { auth_token = codes "t"; cluster_id = codes "c1"; killed = true };
  error = none;
}

abbrev pub login_lib : LoginLib
login_lib = record {
  get_secret_value = some (codes "key");
  marshal = λ _. some (codes "{}");
  new_request = λ _. true;
  post = λ _ _. some (record { status_code = pos 200; body = some (codes "{}") });
  unmarshal = λ _. some token;
}

abbrev killed_login : WspLogin
killed_login = record new_login { killed = true }

killed_login_example :
    let stuck = record killed_login { refresh_in_progress = true } in
    (refresh_wsp_token login_lib config killed_login ≡ (some cluster_killed, stuck))
    × (refresh_wsp_token login_lib config stuck ≡ (none, stuck))
killed_login_example = refresh-killed login_lib login_lib config killed_login refl refl

abbrev events : List Event
events =
    call ∷ call ∷ answer (error (bad_status (pos 500))) ∷ call ∷ answer (value token) ∷ call ∷ []

interleaved_example : IsExclusive (run events (record { login = new_login; asking = 0 }))
interleaved_example = run-IsExclusive events (record { login = new_login; asking = 0 }) (inl refl)

abbrev pool : Pool
pool = record {
  read_connections = 4 ∷ [];
  write_connections = 2 ∷ 3 ∷ [];
  idle = 2 ∷ [];
  capacity = 100;
  done = false;
  retry_interval = pos 10_000_000_000;
}

-- The third dial fails.
abbrev pub dials : ℕ → Dial
dials n = record {
  response_code = none;
  ws = if n == 11 then none else some n;
  write_message = λ _. true;
}

abbrev pub client : Client
client = record {
  config = config;
  pool = some pool;
  ready = false;
  killed = false;
  wsp_login = new_login;
}

-- Without a retry interval in the configuration there is no ticker.
no_interval : new_pool new_config ≡ panic
unfolding new_pool new_config ◌*ℤ◌ wrap
no_interval = refl

abbrev pub kill_env : RequestEnv
kill_env = record {
  rounds = rounds;
  proxy = proxy;
  message = λ _. codes "error";
  kill_json = codes "{\"payload\":{\"killed\":true}}";
}

-- The channel holds a closed connection in front of two idle ones.
abbrev busy_client : Client
busy_client = record client {
  pool = some (record pool { write_connections = 0 ∷ 2 ∷ 3 ∷ []; idle = 0 ∷ 2 ∷ 3 ∷ [] });
}

abbrev pub sent : Request plain_urls.Url
sent = record http_request { header = (codes "X-Proxy-Destination", codes "http://h/x") ∷ [] }

client_request_example :
    Returns
      (ServedBy store (record pool { write_connections = 0 ∷ 2 ∷ 3 ∷ []; idle = 0 ∷ 2 ∷ 3 ∷ [] }))
      (request plain_urls kill_env fresh sent store busy_client)
client_request_example =
    request-ServedBy plain_urls kill_env busy_client
      (record pool { write_connections = 0 ∷ 2 ∷ 3 ∷ []; idle = 0 ∷ 2 ∷ 3 ∷ [] }) fresh sent store
      store-IsSound refl

abbrev accepting : ℕ → Dial
accepting i = record { response_code = some (pos 101); ws = some i; write_message = λ _. true }

-- The maximal retry interval is nine billion seconds, and half of that has been reached.
abbrev patient : Client
patient = record client {
  config = record config { max_retry_interval = pos 9_000_000_000; pool_idle_size = pos 1 };
}

abbrev waiting : Pool
waiting = record {
  read_connections = [];
  write_connections = [];
  idle = [];
  capacity = 100;
  done = false;
  retry_interval = pos (2 ^ 62);
}

abbrev unreachable : ℕ → Dial
unreachable i = record { response_code = none; ws = none; write_message = λ _. true }

overflows_example : start_internal unreachable store waiting patient ≡ panic
unfolding ◌*ℤ◌ new_config wrap connector size connections_to_create create_connections ◌+ℤ◌ ◌-ℤ◌
    create connect_internal close_connection remove_without_lock close_without_lock
overflows_example =
    start_internal-overflows unreachable store _ waiting waiting [] patient not_dialed (2 ^ 62) refl
      (inl refl) refl (omega arith) (omega arith) (omega arith)
