-- ===== src/Common/Serve/Exchange.antt =====
-- Both ends of a websocket: a request that `ProxyRequest` sends and the `Start` of the peer's read
-- connection executes (common/writeConnection.go, common/readConnection.go).
use zk_wsp.Prelude.{
  ℕ, ◌≡◌, ◌≤◌, ◌<◌, ◌∙◌, refl, true, false, Option, none, some, List, [], ◌∷◌, Bytes, length, ap,
}
use zk_wsp.Prelude.Int.{pos}
use zk_wsp.Outcome.{Outcome, ok, blocked}
use zk_wsp.Http.Writer.{ResponseWriter, write, send_status}
use zk_wsp.Http.Response.{HttpResponse, Response, serialize_http_response}
use zk_wsp.Http.Request.{
  UrlLib, Request, HttpRequest, serialize_http_request, unserialize_http_request,
}
use zk_wsp.Common.Types.{idle, is_closed}
use zk_wsp.Common.Store.{Store, set_write}
use zk_wsp.Common.Pool.{ConnectionPool, IsConnectionPool}
use zk_wsp.Common.Proxy.{ProxyEnv, Ended, reader, proxy_request, add_all, send_request}
use zk_wsp.Common.Proxy.Laws.{proxy_request-completes}
use zk_wsp.Common.Serve.{Message, text, binary, Turn, turn}

-- `json.Marshal` and `json.Unmarshal` on the two serialized records.
pub record Json : Type 0 where
  pub marshal_request : HttpRequest → Bytes
  pub unmarshal_request : Bytes → Option HttpRequest
  pub marshal_response : HttpResponse → Bytes
  pub unmarshal_response : Bytes → Option HttpResponse

-- These two records are unmarshaled from what they are marshaled to.
abbrev pub IsRoundTrip : Json → HttpRequest → HttpResponse → Type 0
IsRoundTrip j q a =
    (j.unmarshal_request (j.marshal_request q) ≡ some q)
    × (j.unmarshal_response (j.marshal_response a) ≡ some a)

unserialize-serialize :
    (lib : UrlLib) (r : Request lib.Url)
    → lib.parse (lib.string r.url) ≡ some r.url
    → unserialize_http_request lib (serialize_http_request lib r) ≡ some r
unfolding unserialize_http_request serialize_http_request
unserialize-serialize lib r url = rw (unserialize_http_request, url) refl

module _ (lib : UrlLib) (j : Json) (execute : Request lib.Url → Option Response) where
  -- A turn of the peer, on a websocket that does not fail.
  abbrev pub peer : Bytes → Turn lib
  peer json = record {
    read_message = some json;
    unmarshal = j.unmarshal_request;
    next_reader = true;
    execute = execute;
    marshal = λ h. some (j.marshal_response h);
    write_text = true;
    write_binary = true;
    next_writer = true;
    copy_body = true;
    close_writer = true;
    message = [];
  }

  -- What `ProxyRequest` meets when the peer sends these two messages.
  abbrev pub near : Bytes → Bytes → ℕ → ProxyEnv
  near json body now = record {
    marshal = λ h. some (j.marshal_request h);
    write_message = λ _. true;
    next_writer = true;
    copy_request = true;
    close_writer = true;
    response = reader;
    read_all = some json;
    unmarshal = j.unmarshal_response;
    response_body = reader;
    copied = body;
    copy_response = true;
    now = now;
  }

  module _ {P : Type 0} (ops : ConnectionPool P) (now i : ℕ) (w : ResponseWriter)
      (r : Request lib.Url) (s : Store) (p : P) where
    -- `ProxyRequest` on the messages that the peer sends; without an answer it waits.
    abbrev pub relay : List Message → Outcome (Ended P)
    relay (text json ∷ binary body ∷ []) = proxy_request ops lib (near json body now) i w r s p
    relay _ = blocked

    abbrev pub request_json : Bytes
    request_json = j.marshal_request (serialize_http_request lib r)

    -- The request over the websocket, and the answer back.
    abbrev pub exchange : Outcome (Ended P)
    exchange = relay (turn lib (peer request_json) request_json).1

    turn-messages :
        (resp : Response)
        → IsRoundTrip j (serialize_http_request lib r) (serialize_http_response resp)
        → lib.parse (lib.string r.url) ≡ some r.url
        → execute r ≡ some resp
        → (turn lib (peer request_json) request_json).1
          ≡ text (j.marshal_response (serialize_http_response resp)) ∷ binary resp.body ∷ []
    unfolding turn
    turn-messages resp trip url done = rw (trip.0, unserialize-serialize lib r url, done) refl

    -- If JSON and the URL survive their round trips and the websocket does not fail, then what
    -- the peer answers to a request arrives at the writer: the header fields, the final status and
    -- the body of the response to this very request, and the connection is idle and offered.
    pub exchange-completes :
        (lawful : IsConnectionPool ops) (c : ℕ) (resp : Response)
        → IsRoundTrip j (serialize_http_request lib r) (serialize_http_response resp)
        → lib.parse (lib.string r.url) ≡ some r.url
        → execute r ≡ some resp
        → resp.status_code ≡ pos c
        → 200 ≤ c
        → c ≤ 999
        → is_closed (s.writes i).status ≡ false
        → (room : length (lawful.idle p) < lawful.capacity p)
        → exchange
          ≡ ok (
            record { response_code = pos c; err = none },
            write resp.body (send_status c (add_all resp.header w)),
            set_write i (record (s.writes i) { idle_since = now; status = idle }) s,
            (lawful.offer-room i p room).after,
          )
    unfolding send_request serialize_http_response
    exchange-completes lawful c resp trip url done code low high alive room =
        let json = j.marshal_response (serialize_http_response resp) in
        ap relay (turn-messages resp trip url done)
        ∙ proxy_request-completes ops lib (near json resp.body now) lawful i c w r s p
            (serialize_http_response resp)
            (record {
              went_out = refl;
              handed = refl;
              json = json;
              was_read = refl;
              was_parsed = trip.1;
            })
            code low high refl refl alive room
