-- ===== src/Server/Config.antt =====
-- server/config.go. Durations are nanoseconds.
use zk_wsp.Prelude.{ℕ, Bytes, codes, [], ◌++◌, Bool, true, false, Option, none, some}
use zk_wsp.Files.{Files}
use zk_wsp.Greeting.{print_ℤ}
use zk_wsp.Prelude.Int.{ℤ, pos, ◌*ℤ◌, wrap}

pub record ZkCloudConfig : Type 0 where
  pub host : Bytes
  pub port : Bytes
  pub login_path : Bytes
  pub connection_sync_interval : ℤ
  pub connection_sync_path : Bytes

pub record Config : Type 0 where
  pub host : Bytes
  pub port : ℤ
  pub timeout : ℤ
  pub idle_timeout : ℤ
  pub secret_key : Bytes
  pub pool_max_size : ℤ
  pub zk_cloud : ZkCloudConfig

abbrev pub second : ℕ
second = 1_000_000_000

-- `GetTimeout`
unfoldable pub get_timeout : Config → ℤ
get_timeout c = wrap (c.timeout *ℤ pos second)

-- `NewConfig`: the fields that it does not name keep Go's zero values.
unfoldable pub new_config : Config
new_config = record {
  host = codes "127.0.0.1";
  port = pos 8080;
  timeout = pos 1000;
  idle_timeout = pos 60000;
  secret_key = [];
  pool_max_size = pos 0;
  zk_cloud = record {
    host = [];
    port = [];
    login_path = [];
    connection_sync_interval = pos 0;
    connection_sync_path = [];
  };
}

-- `GetAddr`
unfoldable pub get_addr : Config → Bytes
get_addr c = c.host ++ codes ":" ++ print_ℤ c.port

pub data LoadError : Type 0 where
  unreadable not_yaml : LoadError

abbrev loaded : Bool × Config → Config × Option LoadError
loaded (true, c) = (c, none)
loaded (false, c) = (c, some not_yaml)

abbrev load_into : Files Config → Config → Option Bytes → Config × Option LoadError
load_into files c none = (c, some unreadable)
load_into files c (some contents) = loaded (files.unmarshal contents c)

-- `LoadConfiguration` returns a configuration also on an error.
unfoldable pub load_configuration : Files Config → Bytes → Config × Option LoadError
load_configuration files path = load_into files new_config (files.read_file path)
