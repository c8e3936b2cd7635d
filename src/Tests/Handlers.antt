-- ===== src/Tests/Handlers.antt =====
-- The handlers of the server at concrete inputs.
use zk_wsp.Prelude.{false, zero, suc, ◌≡◌, refl, true, some, none, [], ◌∷◌, arith, codes, Bytes}
use zk_wsp.Prelude.Int.{pos}
use zk_wsp.Outcome.{ok, Returns, Succeeds}
use zk_wsp.Http.Header.{get, canonical, query_get}
use zk_wsp.Http.Writer.{fresh}
use zk_wsp.Common.Types.{read}
use zk_wsp.Common.Auth.{AuthLib, ValidateAccessTokenResponse}
use zk_wsp.Server.Handlers.{RegisterEnv, register, register_connection, request}
use zk_wsp.Server.Upkeep.{clean}
use zk_wsp.Server.Handlers.Errors.{request-missing_client}
use zk_wsp.Http.Response.{proxy_errorf}
use zk_wsp.Http.Request.{Request}
use zk_wsp.Server.Handlers.Registration.{Registers, register-Registers}
use zk_wsp.Server.Handlers.Pools.{IsFiled, put_connection, register_connection-put_connection}
use zk_wsp.Server.Upkeep.Cleaning.{Swept, clean-Swept}
use zk_wsp.Tests.Data.{store, plain_urls, request_env, server, rounds, ping}
use zk_wsp.Prelude.Dict.{keys}
use zk_wsp.Server.Status.{SyncEnv, periodic_sync}
use zk_wsp.Server.Status.Sync.{IsDialed, Reports, IsSeen, periodic_sync-IsSeen}
use zk_wsp.Tests.Connections.{store-IsSound}

abbrev pub accepted : ValidateAccessTokenResponse
accepted = record {
  payload = record { is_valid = true; ttl = pos 60; cluster_id = codes "c1" };
  error = none;
}

abbrev pub cloud : AuthLib
cloud = record {
  new_request = λ _. true;
  post = λ _ _. some (record { status_code = pos 200; body = some (codes "{}") });
  unmarshal = λ _. some accepted;
}

abbrev pub register_env : RegisterEnv
register_env = record {
  auth = cloud;
  upgrade = some 40;
  read_message = some (codes "5_1");
  auth_message = λ _. codes "refused";
  upgrade_message = codes "no upgrade";
}

register_example :
    Returns (Registers register_env [] store server) (register register_env [] fresh store server)
register_example = register-Registers register_env [] fresh store server (refl, tt)

put_connection_example :
    (register_connection (codes "c1") (pos 5) read 40 store server
      ≡ put_connection (codes "c1") (pos 5) read 40 store server)
    × IsFiled (register_connection (codes "c1") (pos 5) read 40 store server).2.pools
put_connection_example =
    register_connection-put_connection (codes "c1") (pos 5) read 40 store server (refl, tt)

sweep_example :
    Succeeds
      (λ (s', sv'). Swept store server.pools s' sv'.pools)
      (clean (λ _. false) 90 store server)
sweep_example = clean-Swept (λ _. false) 90 store server store-IsSound (refl, tt)

abbrev nameless : Request Bytes
nameless = record {
  method = codes "GET";
  url = codes "/x?X-CLIENT-ID=c1";
  header = (codes "X-Proxy-Destination", codes "http://h/hello") ∷ [];
  content_length = pos 0;
}

missing_client_example :
    request plain_urls request_env fresh nameless store server
    ≡ ok (
      proxy_errorf
          (codes "Missing clientId value")
          (proxy_errorf (codes "Missing clientId value") fresh),
      store,
      server,
    )
unfolding get canonical query_get
missing_client_example =
    request-missing_client plain_urls request_env fresh nameless store server
      (codes "http://h/hello") refl refl refl refl

abbrev pub sync_env : SyncEnv
sync_env = record {
  rounds = λ _. rounds;
  ping = λ _. ping;
  marshal = λ _. some (codes "{}");
  new_request = λ _. true;
  post = λ _ _. some (pos 200);
}

sync_example :
    Succeeds
      (λ (states, _, s', sv').
        (keys states ≡ keys server.pools)
        × IsSeen store server s' sv'
        × Reports sync_env states store server s' sv')
      (periodic_sync sync_env store server)
sync_example = periodic_sync-IsSeen sync_env store server ((omega arith), tt) store-IsDialed
  where
    store-IsDialed : IsDialed store
    store-IsDialed zero h = (40, refl)
    store-IsDialed (suc zero) h = (40, refl)
    store-IsDialed (suc (suc n)) h = (40, refl)
