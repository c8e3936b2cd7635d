-- ===== src/Client/Config.antt =====
-- client/config.go and client/constants.go. Durations are nanoseconds.
use zk_wsp.Prelude.{ℕ, Bytes, codes, [], ◌++◌}
use zk_wsp.Greeting.{print_ℤ}
use zk_wsp.Prelude.Int.{ℤ, pos, ◌*ℤ◌, wrap}

pub record WspLoginConfig : Type 0 where
  pub path : Bytes
  pub host : Bytes
  pub port : Bytes
  pub cluster_secret_name : Bytes
  pub cluster_key_data : Bytes
  pub cluster_key_namespace : Bytes

pub record Config : Type 0 where
  pub target_url : Bytes
  pub target_secret_key : Bytes
  pub pool_idle_size : ℤ
  pub pool_max_size : ℤ
  pub host : Bytes
  pub port : ℤ
  pub timeout : ℤ
  pub max_retry_interval : ℤ
  pub default_retry_interval : ℤ
  pub wsp_login : WspLoginConfig

abbrev pub millisecond : ℕ
millisecond = 1_000_000

-- `GetTimeout`
unfoldable pub get_timeout : Config → ℤ
get_timeout c = wrap (c.timeout *ℤ pos millisecond)

-- `GetAddr`
unfoldable pub get_addr : Config → Bytes
get_addr c = c.host ++ codes ":" ++ print_ℤ c.port

-- `NewConfig`: the fields that it does not name keep Go's zero values.
unfoldable pub new_config : Config
new_config = record {
  target_url = codes "ws://127.0.0.1:8080/register";
  target_secret_key = [];
  pool_idle_size = pos 10;
  pool_max_size = pos 100;
  host = [];
  port = pos 0;
  timeout = pos 0;
  max_retry_interval = pos 0;
  default_retry_interval = pos 0;
  wsp_login = record {
    path = [];
    host = [];
    port = [];
    cluster_secret_name = [];
    cluster_key_data = [];
    cluster_key_namespace = [];
  };
}

abbrev pub invalid_cluster_key_response_code : ℤ
invalid_cluster_key_response_code = pos 526

abbrev pub auth_token_un_authorized_code : ℤ
auth_token_un_authorized_code = pos 401

abbrev pub auth_token_session_expired_code : ℤ
auth_token_session_expired_code = pos 419
