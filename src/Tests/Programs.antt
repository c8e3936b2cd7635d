-- ===== src/Tests/Programs.antt =====
-- Runs of the client's program.
use zk_wsp.Prelude.{codes, ◌≡◌, refl, true, some, none, [], ◌∷◌, false}
use zk_wsp.Prelude.Int.{pos, wrap, ◌*ℤ◌, ◌+ℤ◌, ◌-ℤ◌}
use zk_wsp.Outcome.{ok, panic}
use zk_wsp.Common.Read.{close_connection, close_without_lock}
use zk_wsp.Client.Config.{new_config}
use zk_wsp.Client.Pool.{
  new_pool, connector, size, connections_to_create, create_connections, shutdown, create,
  connect_internal, remove_without_lock, close_all,
}
use zk_wsp.Client.Handlers.{start_internal, shutdown_client, after_connector, reset_ticker}
use zk_wsp.Programs.{run_client, client_main, make_client}
use zk_wsp.Prelude.{List}
use zk_wsp.Http.Writer.{fresh}
use zk_wsp.Outcome.{Returns}
use zk_wsp.Common.Store.{write_conn}
use zk_wsp.Client.Handlers.{start}
use zk_wsp.Client.Running.{Tick, Call, ticked, requested, refreshed, ended, run, call, turn}
use zk_wsp.Tests.Data.{plain_urls}
use zk_wsp.Tests.Clients.{kill_env, sent}
use zk_wsp.Client.Running.Killed.{IsRefusal, run-IsRefusal}
use zk_wsp.Client.Running.{started}
use zk_wsp.Prelude.{Bool}
use zk_wsp.Tests.Data.{store}
use zk_wsp.Tests.Data
use zk_wsp.Server.Config.{get_addr}
use zk_wsp.Greeting.{print_ℤ}
use zk_wsp.Files.{Files, process_args}
use zk_wsp.Client.Config.{Config}
use zk_wsp.Tests.Secrets.{k8s, before}
use zk_wsp.Tests.Clients.{login_lib, dials, client}

-- The third dial of the first round fails, and in the second round the server refuses the key.
abbrev refusing : Tick
refusing = record {
  dials = λ _. record { response_code = some (pos 526); ws = none; write_message = λ _. true };
  quits = true;
}

-- The client is asked twice, renews its token, and loses a connection.
abbrev calls : List (Call plain_urls)
calls =
    requested kill_env fresh sent
    ∷ ticked refusing
    ∷ refreshed login_lib
    ∷ ended (write_conn 1)
    ∷ requested kill_env fresh sent
    ∷ []

abbrev prompt_calls : List (Call plain_urls)
prompt_calls = ticked refusing ∷ refreshed login_lib ∷ ended (write_conn 1) ∷ ticked refusing ∷ []

-- The server accepts the key again, and the client gets a new token, but it stays killed.
abbrev reached : Tick
reached = record { dials = dials; quits = Bool.false }

refuses_example :
    Returns
      (λ (_, s', c'). IsRefusal plain_urls kill_env fresh sent s' c')
      (run plain_urls
        (ticked reached ∷ refreshed login_lib ∷ started 3 7 ∷ [])
        (true, store, record client { killed = true }))
refuses_example =
    run-IsRefusal plain_urls (ticked reached ∷ refreshed login_lib ∷ started 3 7 ∷ []) true store
      (record client { killed = true }) kill_env fresh sent refl refl

-- The client was killed, so `main` panics at the signal.
killed_main :
    run_client plain_urls dials (ticked refusing ∷ ticked refusing ∷ []) store client ≡ panic
unfolding run_client new_pool ◌*ℤ◌ new_config wrap start start_internal connector size
    connections_to_create create_connections run call turn shutdown shutdown_client after_connector
    reset_ticker ◌+ℤ◌ ◌-ℤ◌ create connect_internal close_connection remove_without_lock
    close_without_lock close_all
killed_main = refl

abbrev files : Files Config
files = record { read_file = λ _. none; unmarshal = λ _ c. (false, c) }

-- Without a path there is no client.
no_args : client_main plain_urls k8s before files [] login_lib dials [] store ≡ ok none
unfolding client_main make_client process_args
no_args = refl

server_addr : get_addr Data.config ≡ codes "0.0.0.0:8989"
unfolding get_addr print_ℤ
server_addr = refl
