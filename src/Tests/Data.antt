-- ===== src/Tests/Data.antt =====
-- Stores, pools and environments that the tests share.
use zk_wsp.Prelude.{ℕ, zero, suc, Bool, true, false, some, [], ◌∷◌, Bytes, codes}
use zk_wsp.Prelude.Int.{pos}
use zk_wsp.Http.Response.{HttpResponse}
use zk_wsp.Http.Request.{UrlLib, Request}
use zk_wsp.Common.Types.{Status, idle, busy, closed}
use zk_wsp.Common.Store.{ReadConnection, WriteConnection, Store}
use zk_wsp.Common.Write.{PingEnv}
use zk_wsp.Common.Receive.{Round}
use zk_wsp.Common.Proxy.{ProxyEnv, reader}
use zk_wsp.Server.Config.{Config}
use zk_wsp.Server.Pool.{Pool}
use zk_wsp.Server.Handlers.{RequestEnv, Server}

abbrev pub write_at : Status → Bool → WriteConnection
write_at s c = record { ws = some 40; status = s; idle_since = 0; next_response_closed = c }

abbrev pub reading : ReadConnection
reading = record { ws = some 50; idle_since = 0; status = idle }

-- Connection 0 is closed, 1 is busy, and all others are idle.
abbrev pub writes : ℕ → WriteConnection
writes zero = write_at closed true
writes (suc zero) = write_at busy false
writes (suc (suc n)) = write_at idle false

abbrev pub store : Store
store = record { reads = λ _. reading; writes = writes; next = 9; ws_closes = [] }

abbrev pub config : Config
config = record {
  host = codes "0.0.0.0";
  port = pos 8989;
  timeout = pos 30;
  idle_timeout = pos 30;
  secret_key = [];
  pool_max_size = pos 3;
  zk_cloud = record {
    host = codes "localhost";
    port = codes "8883";
    login_path = codes "/login";
    connection_sync_interval = pos 30;
    connection_sync_path = codes "/sync";
  };
}

abbrev pub pool : Pool
pool = record {
  client_id = codes "c1";
  idle_size = pos 1;
  write_connections = 0 ∷ 1 ∷ 2 ∷ 3 ∷ [];
  read_connections = 4 ∷ 5 ∷ [];
  idle = 0 ∷ 2 ∷ 3 ∷ [];
  capacity = 3;
  done = false;
}

abbrev pub empty_pool : Pool
empty_pool = record pool { write_connections = []; read_connections = []; idle = [] }

abbrev pub rounds : ℕ → Round
rounds k = record { elapsed = 5; timer_first = false }

abbrev pub ping : PingEnv
ping = record { write_ok = true; pong = true; now = 80 }

abbrev pub plain_urls : UrlLib
plain_urls = record { Url = Bytes; parse = λ b. some b; string = λ u. u; query = λ _. [] }

abbrev pub http_request : Request Bytes
http_request = record {
  method = codes "GET";
  url = codes "http://h/hello";
  header = [];
  content_length = pos 0;
}

abbrev pub answer : HttpResponse
answer = record {
  status_code = pos 404;
  header = (codes "A", codes "b") ∷ [];
  content_length = pos 2;
}

abbrev pub proxy : ProxyEnv
proxy = record {
  marshal = λ _. some (codes "{}");
  write_message = λ _. true;
  next_writer = true;
  copy_request = true;
  close_writer = true;
  response = reader;
  read_all = some (codes "{}");
  unmarshal = λ _. some answer;
  response_body = reader;
  copied = codes "no";
  copy_response = true;
  now = 90;
}

abbrev pub request_env : RequestEnv
request_env = record { rounds = rounds; proxy = proxy; message = λ _. codes "error" }

abbrev pub server : Server
server = record { config = config; pools = (codes "c1", pool) ∷ []; done = false }
