-- ===== src/Common/Proxy.antt =====
-- common/writeConnection.go: `ProxyRequest`, which sends a request to the peer and its response to
-- the writer. The websocket, JSON and what the reader goroutine hands over are decided outside.
pub mod Laws
use zk_wsp.Prelude.{ℕ, Bool, true, false, Option, none, some, List, [], ◌∷◌, Bytes}
use zk_wsp.Prelude.Int.{ℤ, pos}
use zk_wsp.Outcome.{Outcome, ok, blocked, panic, ◌>>=◌}
use zk_wsp.Result.{Result, value, error, ◌>>=◌ as ◌>>>=◌, ◌>>◌, or_error, require}
use zk_wsp.Http.Header.{Header}
use zk_wsp.Http.Writer.{ResponseWriter, header_add, write_header, write}
use zk_wsp.Http.Response.{HttpResponse}
use zk_wsp.Http.Request.{UrlLib, Request, HttpRequest, serialize_http_request}
use zk_wsp.Common.Store.{Store}
use zk_wsp.Common.Pool.{ConnectionPool}
use zk_wsp.Common.Write.{release}

-- How `connection.nextResponse <- ch` and the receive from `ch` end: with a reader, with nil and
-- whether `ch` is still open, by a panic since `nextResponse` was closed, or never.
pub data Handoff : Type 0 where
  reader : Handoff
  nil_reader : Bool → Handoff
  closed_channel : Handoff
  never : Handoff

pub data ProxyError : Type 0 where
  not_serialized not_written no_body_writer body_not_piped body_not_closed : ProxyError
  no_response response_unread response_not_parsed no_response_body response_body_not_piped :
      ProxyError

-- The library calls in the order of the code; `false` and `none` are errors.
pub record ProxyEnv : Type 0 where
  pub marshal : HttpRequest → Option Bytes
  pub write_message : Bytes → Bool
  pub next_writer : Bool
  pub copy_request : Bool
  pub close_writer : Bool
  pub response : Handoff
  pub read_all : Option Bytes
  pub unmarshal : Bytes → Option HttpResponse
  pub response_body : Handoff
  pub copied : Bytes
  pub copy_response : Bool
  pub now : ℕ

-- What `ProxyRequest` returns.
pub record Proxied : Type 0 where
  pub response_code : ℤ
  pub err : Option ProxyError

abbrev pub bad_request : ProxyError → Proxied
bad_request e = record { response_code = pos 400; err = some e }

abbrev pub server_error : ProxyError → Proxied
server_error e = record { response_code = pos 500; err = some e }

-- Steps [1] and [2]: the request and its body go to the peer.
unfoldable pub send_request :
    (lib : UrlLib) → ProxyEnv → Request lib.Url → Result Proxied (Unit {0})
unfolding serialize_http_request
send_request lib e r =
    or_error (e.marshal (serialize_http_request lib r)) (bad_request not_serialized) >>>= λ json.
    require (e.write_message json) (server_error not_written)
    >> require e.next_writer (server_error no_body_writer)
    >> require e.copy_request (server_error body_not_piped)
    >> require e.close_writer (server_error body_not_closed)

-- Steps [3] and [4]: wait for the response, read it and parse it.
abbrev pub receive_response : ProxyEnv → Handoff → Outcome (Result Proxied HttpResponse)
receive_response e reader = ok (
    or_error e.read_all (server_error response_unread) >>>= λ json.
    or_error (e.unmarshal json) (server_error response_not_parsed))
receive_response e (nil_reader _) = ok (error (server_error no_response))
receive_response e closed_channel = panic
receive_response e never = blocked

-- `w.Header().Add` for each value of each field.
unfoldable pub add_all : Header → ResponseWriter → ResponseWriter
add_all [] w = w
add_all ((k, v) ∷ h) w = add_all h (header_add k v w)

-- Step [5]: a nil reader on an open channel makes the code close `responseChannel`, which it has
-- closed before.
abbrev pub receive_body : Handoff → Outcome (Result Proxied (Unit {0}))
receive_body reader = ok (value tt)
receive_body (nil_reader true) = panic
receive_body (nil_reader false) = ok (error (server_error no_response_body))
receive_body closed_channel = panic
receive_body never = blocked

-- What a call of `ProxyRequest` returns and leaves behind.
abbrev pub Ended : Type 0 → Type 0
Ended P = Proxied × ResponseWriter × Store × P

-- `if err != nil { return }` behind a step, with what to return then.
abbrev pub on_result {ℓ} :
    {A X : Type ℓ} → Result Proxied A → (Proxied → X) → (A → Outcome X) → Outcome X
on_result (error f) failed continue = ok (failed f)
on_result (value a) failed continue = continue a

module _ {P : Type 0} (ops : ConnectionPool P) (lib : UrlLib) (e : ProxyEnv) where
  -- Step [6]: the body goes to the writer, and if all of it did, the connection is released.
  unfoldable pub finish : Bool → ℕ → ℤ → ResponseWriter → Store → P → Outcome (Ended P)
  finish false i code w s p = ok (server_error response_body_not_piped, write e.copied w, s, p)
  finish true i code w s p = release ops e.now i s p >>= λ (s', p').
      ok (record { response_code = code; err = none }, write e.copied w, s', p')

  unfoldable pub forward : ℕ → HttpResponse → ResponseWriter → Store → P → Outcome (Ended P)
  forward i r w s p = write_header r.status_code (add_all r.header w) >>= λ w'.
      receive_body e.response_body >>= λ b.
      on_result b (λ f. (f, w', s, p)) (λ _. finish e.copy_response i r.status_code w' s p)

  unfoldable pub proxy_request :
      ℕ → ResponseWriter → Request lib.Url → Store → P → Outcome (Ended P)
  proxy_request i w r s p =
      on_result (send_request lib e r) (λ f. (f, w, s, p))
        λ _. receive_response e e.response >>= λ x.
          on_result x (λ f. (f, w, s, p)) (λ resp. forward i resp w s p)
