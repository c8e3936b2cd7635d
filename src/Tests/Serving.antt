-- ===== src/Tests/Serving.antt =====
-- Read connections at concrete inputs.
use zk_wsp.Prelude.{◌≡◌, refl, true, some, none, List, [], ◌∷◌, arith, codes, length}
use zk_wsp.Prelude.Int.{pos}
use zk_wsp.Outcome.{ok}
use zk_wsp.Http.Writer.{fresh, write, send_status}
use zk_wsp.Http.Response.{Response, serialize_http_response}
use zk_wsp.Http.Request.{serialize_http_request}
use zk_wsp.Common.Types.{idle}
use zk_wsp.Common.Store.{set_write}
use zk_wsp.Common.Proxy.{add_all}
use zk_wsp.Common.Serve.{Turn, serve}
use zk_wsp.Common.Serve.Protocol.{IsServed, serve-IsServed}
use zk_wsp.Common.Serve.Exchange.{Json, exchange, exchange-completes}
use zk_wsp.Server.Pool.{server_pool}
use zk_wsp.Server.Pool.Interface.{server_pool-lawful}
use zk_wsp.Tests.Data.{store, pool, empty_pool, plain_urls, http_request}

abbrev response : Response
response = record {
  status_code = pos 404;
  header = (codes "A", codes "b") ∷ [];
  content_length = pos 2;
  body = codes "no";
}

abbrev answered : Turn plain_urls
answered = record {
  read_message = some (codes "q");
  unmarshal = λ _.
      some (record { method = codes "GET"; url = codes "/"; header = []; content_length = pos 0 });
  next_reader = true;
  execute = λ _. some response;
  marshal = λ _. some (codes "{}");
  write_text = true;
  write_binary = true;
  next_writer = true;
  copy_body = true;
  close_writer = true;
  message = codes "error";
}

-- The second request cannot be executed, the third not be parsed.
abbrev turns : List (Turn plain_urls)
turns =
    answered
    ∷ record answered { execute = λ _. none }
    ∷ record answered { unmarshal = λ _. none }
    ∷ answered
    ∷ []

serve_example :
    IsServed server_pool 4 (length turns) pool (serve server_pool plain_urls 4 turns store pool)
serve_example =
    serve-IsServed server_pool plain_urls 4 turns store pool (refl, (refl, (refl, (refl, tt))))

abbrev json : Json
json = record {
  marshal_request = λ _. codes "q";
  unmarshal_request = λ _. some (serialize_http_request plain_urls http_request);
  marshal_response = λ _. codes "{}";
  unmarshal_response = λ _. some (serialize_http_response response);
}

exchange_example :
    exchange plain_urls json
      (λ _. some response)
      server_pool
      90
      1
      fresh
      http_request
      store
      empty_pool
    ≡ ok (
      record { response_code = pos 404; err = none },
      write (codes "no") (send_status 404 (add_all response.header fresh)),
      set_write 1 (record (store.writes 1) { idle_since = 90; status = idle }) store,
      record empty_pool { idle = 1 ∷ [] },
    )
exchange_example =
    exchange-completes plain_urls json (λ _. some response) server_pool 90 1 fresh http_request
      store empty_pool server_pool-lawful 404 response (refl, refl) refl refl refl (omega arith)
      (omega arith) refl (omega arith)
