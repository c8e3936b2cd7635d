-- ===== src/Tests/Links.antt =====
-- A client and a server that connect.
use zk_wsp.Prelude.{refl, sym, ap, some, [], ◌∷◌, arith, codes, same, same→eq}
use zk_wsp.Prelude.Dict.{lookup}
use zk_wsp.Prelude.Int.{pos}
use zk_wsp.Outcome.{Succeeds}
use zk_wsp.Http.Writer.{fresh}
use zk_wsp.Common.Types.{to_int}
use zk_wsp.Common.Store.{read_conn}
use zk_wsp.Common.Auth.{validate_key_with_zk_cloud}
use zk_wsp.Common.Utils.{resp_code_is_ok}
use zk_wsp.Greeting.{greeting, print_ℤ, server_conn_type}
use zk_wsp.Client.Config.{Config, new_config}
use zk_wsp.Client.Pool.{Dial, connect_internal}
use zk_wsp.Server.Handlers.{Server}
use zk_wsp.Server.Running.{registered, started, run}
use zk_wsp.Link.{IsWelcome, Serves, connect_internal-Serves}
use zk_wsp.Tests.Data.{store, server, pool, plain_urls, rounds}
use zk_wsp.Tests.Handlers.{register_env, accepted}

abbrev config : Config
config = record new_config { pool_idle_size = pos 5 }

-- The websocket takes the greeting that the server reads in the end.
abbrev dial : Dial
dial = record {
  response_code = some (pos 101);
  ws = some 70;
  write_message = λ m. same m (codes "5_1");
}

-- The channel of the client's pool holds a connection that was closed.
abbrev meeting : Server
meeting = record server { pools = (codes "c1", record pool { idle = 0 ∷ [] }) ∷ [] }

welcome : IsWelcome register_env [] meeting (codes "c1") 40
unfolding validate_key_with_zk_cloud resp_code_is_ok
welcome = record {
  response = accepted;
  answered = refl;
  valid = refl;
  cluster = refl;
  upgraded = refl;
}

serves_example :
    Succeeds (Serves register_env [] fresh store meeting (codes "c1") 40 (pos 5) rounds) (
      run plain_urls
        (registered register_env [] fresh ∷ started (codes "c1") store.next 7 ∷ [])
        store
        meeting)
unfolding new_config connect_internal greeting print_ℤ to_int server_conn_type lookup
serves_example =
    connect_internal-Serves config dial (read_conn 0) store register_env [] fresh store meeting
      (codes "c1") 40 plain_urls 7 rounds refl
      (λ m e. ap (λ x. some x) (sym (same→eq m (codes "5_1") e))) welcome (omega arith) (refl, tt)
      (record { alive = refl; room = omega arith; older = (omega arith, tt); stale = (refl, tt) })
      (λ j. refl)
