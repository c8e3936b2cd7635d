-- ===== src/Tests/Proxying.antt =====
-- Requests at concrete inputs.
use zk_wsp.Prelude.{◌≡◌, refl, none, some, [], ◌∷◌, arith, codes, inl}
use zk_wsp.Prelude.Int.{pos}
use zk_wsp.Outcome.{ok, panic, Returns}
use zk_wsp.Http.Writer.{fresh, write, send_status}
use zk_wsp.Common.Types.{idle}
use zk_wsp.Common.Store.{set_write}
use zk_wsp.Common.Proxy.{ProxyEnv, proxy_request, send_request, add_all}
use zk_wsp.Common.Proxy.Laws.{Answered, proxy_request-completes, proxy_request-bad_status}
use zk_wsp.Server.Pool.{server_pool}
use zk_wsp.Server.Pool.Interface.{server_pool-lawful}
use zk_wsp.Server.Handlers.{request_on}
use zk_wsp.Server.Handlers.Requests.{ServedBy, request_on-ServedBy}
use zk_wsp.Tests.Data.{
  store, pool, empty_pool, proxy, plain_urls, http_request, answer, request_env, server,
}
use zk_wsp.Tests.Connections.{store-IsSound}

abbrev answered : Answered server_pool plain_urls proxy http_request answer
unfolding send_request
answered = record {
  went_out = refl;
  handed = refl;
  json = codes "{}";
  was_read = refl;
  was_parsed = refl;
}

proxy_request-completes_example :
    proxy_request server_pool plain_urls proxy 1 fresh http_request store empty_pool
    ≡ ok (
      record { response_code = pos 404; err = none },
      write (codes "no") (send_status 404 (add_all answer.header fresh)),
      set_write 1 (record (store.writes 1) { idle_since = 90; status = idle }) store,
      record empty_pool { idle = 1 ∷ [] },
    )
unfolding send_request
proxy_request-completes_example =
    proxy_request-completes server_pool plain_urls proxy server_pool-lawful 1 404 fresh http_request
      store empty_pool answer answered refl (omega arith) (omega arith) refl refl refl (omega arith)

abbrev bad_proxy : ProxyEnv
bad_proxy = record proxy { unmarshal = λ _. some (record answer { status_code = pos 0 }) }

bad_status_example :
    proxy_request server_pool plain_urls bad_proxy 1 fresh http_request store empty_pool ≡ panic
unfolding send_request
bad_status_example =
    proxy_request-bad_status server_pool plain_urls bad_proxy 1 fresh http_request store empty_pool
      (record answer { status_code = pos 0 })
      (record {
        went_out = refl;
        handed = refl;
        json = codes "{}";
        was_read = refl;
        was_parsed = refl;
      })
      refl (inl (omega arith))

request_on_example :
    Returns
      (ServedBy (codes "c1") store pool)
      (request_on plain_urls request_env (codes "c1") pool fresh http_request store server)
request_on_example =
    request_on-ServedBy plain_urls request_env (codes "c1") pool fresh http_request store server
      store-IsSound
