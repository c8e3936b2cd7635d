-- ===== src/Common/Proxy/Laws.antt =====
-- What `ProxyRequest` leaves behind on each path.
use zk_wsp.Prelude.{
  inl, inr, Option-cases, [], ◌∷◌, ℕ, ◌≡◌, refl, ◌⊎◌, ◌≢◌, Bool, true, false, Option, none, some,
  Bytes, arith, ◌≤◌, ◌∙◌, length, ◌<◌,
}
use zk_wsp.Prelude.Int.{pos, ◌<ℤ◌}
use zk_wsp.Outcome.{Outcome, ok, panic, Returns, Returns->>=}
use zk_wsp.Result.{Result, value, error}
use zk_wsp.Http.Header.{Header}
use zk_wsp.Http.Writer.{header_add, ResponseWriter, write_header, send_status, write}
use zk_wsp.Http.Response.{HttpResponse}
use zk_wsp.Http.Request.{UrlLib, Request}
use zk_wsp.Common.Types.{idle, is_closed}
use zk_wsp.Common.Store.{Store, set_write}
use zk_wsp.Common.Pool.{ConnectionPool, IsConnectionPool}
use zk_wsp.Common.Write.{release}
use zk_wsp.Common.Proxy.{
  ProxyEnv, Proxied, Ended, send_request, add_all, proxy_request, Handoff, finish, receive_response,
  receive_body, on_result, forward, server_error, reader, response_body_not_piped, ProxyError,
}

-- The first type with an error, the second without one.
abbrev pub ByError : Option ProxyError → Type 0 → Type 0 → Type 0
ByError (some _) A B = A
ByError none A B = B

module _ {P : Type 0} (ops : ConnectionPool P) (lib : UrlLib) (e : ProxyEnv) where
  -- An error comes with the code 400 or 500, and leaves the connection and the pool as they were.
  pub record Failed (s : Store) (p : P) (q : Proxied) (s' : Store) (p' : P) : Type 0 where
    pub code : (q.response_code ≡ pos 400) ⊎ (q.response_code ≡ pos 500)
    pub same_store : s' ≡ s
    pub same_pool : p' ≡ p

  -- Without an error the code is the peer's, and the connection is released.
  pub record Completed (i : ℕ) (s : Store) (p : P) (q : Proxied) (s' : Store) (p' : P)
      : Type 0 where
    pub json : Bytes
    pub response : HttpResponse
    pub received : e.read_all ≡ some json
    pub parsed : e.unmarshal json ≡ some response
    pub code : q.response_code ≡ response.status_code
    pub released : release ops e.now i s p ≡ ok (s', p')

  abbrev pub Ends : ℕ → Store → P → Ended P → Type 0
  Ends i s p (q, w', s', p') = ByError q.err (Failed s p q s' p') (Completed i s p q s' p')

  -- The failures of the steps carry an error, and the code 400 or 500.
  abbrev IsFailure : Proxied → Type 0
  IsFailure q = (q.err ≢ none) × ((q.response_code ≡ pos 400) ⊎ (q.response_code ≡ pos 500))

  Ends-failure :
      (i : ℕ) (w : ResponseWriter) (s : Store) (p : P) (q : Proxied)
      → IsFailure q
      → Ends i s p (q, w, s, p)
  Ends-failure i w s p q h = ground arith

  send_request-error :
      (r : Request lib.Url) (q : Proxied) → send_request lib e r ≡ error q → IsFailure q
  unfolding send_request
  send_request-error r q h = ground arith

  receive_response-error :
      (h : Handoff) (x : Result Proxied HttpResponse) (q : Proxied)
      → receive_response e h ≡ ok x
      → x ≡ error q
      → IsFailure q
  receive_response-error h x q a b = ground arith

  receive_response-value :
      (h : Handoff) (x : Result Proxied HttpResponse) (resp : HttpResponse)
      → receive_response e h ≡ ok x
      → x ≡ value resp
      → (json : Bytes) × (e.read_all ≡ some json) × (e.unmarshal json ≡ some resp)
  receive_response-value h x resp a b = ground arith

  receive_body-error :
      (h : Handoff) (x : Result Proxied (Unit {0})) (q : Proxied)
      → receive_body h ≡ ok x
      → x ≡ error q
      → IsFailure q
  receive_body-error h x q a b = ground arith

  Returns-on_result :
      {A X : Type 0} (Q : X → Type 0) (x : Result Proxied A) (failed : Proxied → X)
      (k : A → Outcome X)
      → ((q : Proxied) → x ≡ error q → Q (failed q))
      → ((a : A) → x ≡ value a → Returns Q (k a))
      → Returns Q (on_result x failed k)
  Returns-on_result Q (error q) failed k a b = a q refl
  Returns-on_result Q (value x) failed k a b = b x refl

  finish-Ends :
      (copied : Bool) (i : ℕ) (json : Bytes) (resp : HttpResponse) (w : ResponseWriter) (s : Store)
      (p : P)
      → e.read_all ≡ some json
      → e.unmarshal json ≡ some resp
      → Returns (Ends i s p) (finish ops lib e copied i resp.status_code w s p)
  unfolding finish
  finish-Ends false i json resp w s p a b =
      Ends-failure i (write e.copied w) s p (server_error response_body_not_piped) (ground arith)
  finish-Ends true i json resp w s p a b =
      Returns->>= (Ends i s p) (release ops e.now i s p) _ λ (s', p') r. record {
        json = json;
        response = resp;
        received = a;
        parsed = b;
        code = refl;
        released = r;
      }

  forward-Ends :
      (i : ℕ) (json : Bytes) (resp : HttpResponse) (w : ResponseWriter) (s : Store) (p : P)
      → e.read_all ≡ some json
      → e.unmarshal json ≡ some resp
      → Returns (Ends i s p) (forward ops lib e i resp w s p)
  unfolding forward
  forward-Ends i json resp w s p a b =
      Returns->>= (Ends i s p) (write_header resp.status_code (add_all resp.header w)) _ λ w' _.
        Returns->>= (Ends i s p) (receive_body e.response_body) _ λ x got.
          Returns-on_result (Ends i s p) x _ _
            (λ q f. Ends-failure i w' s p q (receive_body-error e.response_body x q got f))
            (λ _ _. finish-Ends e.copy_response i json resp w' s p a b)

  -- If `ProxyRequest` returns with an error, then its code is 400 or 500 and neither the connection
  -- nor the pool has changed. If it returns without one, then it read and parsed a response, returns
  -- the status code of that response, and has released the connection.
  pub proxy_request-Ends :
      (i : ℕ) (w : ResponseWriter) (r : Request lib.Url) (s : Store) (p : P)
      → Returns (Ends i s p) (proxy_request ops lib e i w r s p)
  unfolding proxy_request
  proxy_request-Ends i w r s p =
      Returns-on_result (Ends i s p) (send_request lib e r) _ _
        (λ q f. Ends-failure i w s p q (send_request-error r q f))
        λ _ _. Returns->>= (Ends i s p) (receive_response e e.response) _ λ x got.
          Returns-on_result (Ends i s p) x _ _
            (λ q f. Ends-failure i w s p q (receive_response-error e.response x q got f))
            λ resp v.
              let (json, a, b) = receive_response-value e.response x resp got v in
              forward-Ends i json resp w s p a b

  -- The request has gone out, and the peer's response was read and parsed.
  pub record Answered (r : Request lib.Url) (resp : HttpResponse) : Type 0 where
    pub went_out : send_request lib e r ≡ value tt
    pub handed : e.response ≡ reader
    pub json : Bytes
    pub was_read : e.read_all ≡ some json
    pub was_parsed : e.unmarshal json ≡ some resp

  proxy_request-forward :
      (i : ℕ) (w : ResponseWriter) (r : Request lib.Url) (s : Store) (p : P) (resp : HttpResponse)
      → Answered r resp
      → proxy_request ops lib e i w r s p ≡ forward ops lib e i resp w s p
  unfolding proxy_request
  proxy_request-forward i w r s p resp a = rw (a.went_out, a.handed, a.was_read, a.was_parsed) refl

  write_header-final :
      (c : ℕ) (w : ResponseWriter)
      → 200 ≤ c
      → c ≤ 999
      → write_header (pos c) w ≡ ok (send_status c w)
  unfolding write_header
  write_header-final c w a b = elim (Option-cases w.sent) [
    | inl n ↦ ground arith
    | inr (x, y) ↦ ground arith
  ]

  -- The fields of a header do not send a status.
  add_all-sent : (h : Header) (w : ResponseWriter) → (add_all h w).sent ≡ w.sent
  unfolding add_all
  add_all-sent [] w = refl
  add_all-sent ((k, v) ∷ h) w = add_all-sent h (header_add k v w)

  -- When the peer answers with a final status and its body arrives, and the pool has room for the
  -- connection, `ProxyRequest` returns that status without an error, the writer has been given the
  -- header fields, the status and the body in this order, and the connection is idle and offered.
  pub proxy_request-completes :
      (lawful : IsConnectionPool ops) (i c : ℕ) (w : ResponseWriter) (r : Request lib.Url)
      (s : Store) (p : P) (resp : HttpResponse)
      → Answered r resp
      → resp.status_code ≡ pos c
      → 200 ≤ c
      → c ≤ 999
      → e.response_body ≡ reader
      → e.copy_response ≡ true
      → is_closed (s.writes i).status ≡ false
      → (room : length (lawful.idle p) < lawful.capacity p)
      → proxy_request ops lib e i w r s p
        ≡ ok (
          record { response_code = pos c; err = none },
          write e.copied (send_status c (add_all resp.header w)),
          set_write i (record (s.writes i) { idle_since = e.now; status = idle }) s,
          (lawful.offer-room i p room).after,
        )
  proxy_request-completes lawful i c w r s p resp a code low high body copied alive room =
      proxy_request-forward i w r s p resp a
      ∙ unfold forward finish release in
        rw
          (
            code,
            write_header-final c (add_all resp.header w) low high,
            body,
            copied,
            alive,
            (lawful.offer-room i p room).offered,
          )
          refl

  -- If the writer has not sent a status yet, then a status of the peer that has not three digits ends
  -- `ProxyRequest` in a panic.
  pub proxy_request-bad_status :
      (i : ℕ) (w : ResponseWriter) (r : Request lib.Url) (s : Store) (p : P) (resp : HttpResponse)
      → Answered r resp
      → w.sent ≡ none
      → (resp.status_code <ℤ pos 100) ⊎ (pos 999 <ℤ resp.status_code)
      → proxy_request ops lib e i w r s p ≡ panic
  proxy_request-bad_status i w r s p resp a unsent bad =
      proxy_request-forward i w r s p resp a
      ∙ unfold forward write_header in rw (add_all-sent resp.header w, unsent) (ground arith)
