-- ===== src/Common/Serve.antt =====
-- common/readConnection.go: the loop of `Start`, which executes the requests of the peer, and
-- `error`. One turn of the loop takes what the websocket and the libraries answer from a record.
pub mod Protocol
pub mod Exchange
use zk_wsp.Prelude.{
  ℕ, Bool, true, false, Option, none, some, List, [], ◌∷◌, ◌++◌, Bytes, length, if◌then◌else◌,
}
use zk_wsp.Prelude.Int.{ℤ, pos}
use zk_wsp.Http.Response.{HttpResponse, Response, serialize_http_response}
use zk_wsp.Http.Request.{UrlLib, Request, HttpRequest, unserialize_http_request}
use zk_wsp.Common.Types.{Status, idle, busy}
use zk_wsp.Common.Store.{Store, read_conn, set_read}
use zk_wsp.Common.Pool.{ConnectionPool}
use zk_wsp.Common.Read.{close}

-- A message on the websocket.
pub data Message : Type 0 where
  text binary : Bytes → Message

-- The calls of a turn; `false` and `none` are errors. `message` is the text of the error that the
-- turn reports.
pub record Turn (lib : UrlLib) : Type 0 where
  pub read_message : Option Bytes
  pub unmarshal : Bytes → Option HttpRequest
  pub next_reader : Bool
  pub execute : Request lib.Url → Option Response
  pub marshal : HttpResponse → Option Bytes
  pub write_text : Bool
  pub write_binary : Bool
  pub next_writer : Bool
  pub copy_body : Bool
  pub close_writer : Bool
  pub message : Bytes

-- What a turn sends, and whether the loop goes on.
abbrev pub Turned : Type 0
Turned = Bool × List Message

unfoldable pub error_response : Bytes → HttpResponse
error_response message = record {
  status_code = pos 527;
  header = [];
  content_length = pos (length message);
}

module _ (lib : UrlLib) where
  abbrev pub write_error : Turn lib → Option Bytes → Turned
  write_error t none = (false, [])
  write_error t (some json) =
      if t.write_text
      then if t.write_binary
        then (true, text json ∷ binary t.message ∷ [])
        else (false, text json ∷ [])
      else (false, [])

  -- `error`: the loop may go on if it returns no error.
  unfoldable pub report_error : Turn lib → Turned
  unfolding error_response
  report_error t = write_error t (t.marshal (error_response t.message))

  -- The body goes out as one message; an error of the last `Close` is only logged.
  abbrev pub write_body : Turn lib → Bytes → Bytes → Turned
  write_body t json body =
      if t.next_writer
      then if t.copy_body
        then if t.close_writer then (true, text json ∷ binary body ∷ []) else (true, text json ∷ [])
        else (false, text json ∷ [])
      else (false, text json ∷ [])

  abbrev pub write_response : Turn lib → Bytes → Option Bytes → Turned
  write_response t body none = report_error t
  write_response t body (some json) = if t.write_text then write_body t json body else (false, [])

  abbrev pub respond : Turn lib → Option Response → Turned
  respond t none = report_error t
  respond t (some r) = write_response t r.body (t.marshal (serialize_http_response r))

  -- An error that ends the loop in any case
  abbrev pub break_with : Turned → Turned
  break_with (_, sent) = (false, sent)

  abbrev pub execute_request : Turn lib → Option (Request lib.Url) → Turned
  execute_request t none = break_with (report_error t)
  execute_request t (some r) = if t.next_reader then respond t (t.execute r) else (false, [])

  abbrev pub deserialize : Turn lib → Option HttpRequest → Turned
  deserialize t none = break_with (report_error t)
  deserialize t (some r) = execute_request t (unserialize_http_request lib r)

  -- A turn of the loop behind `ReadMessage`
  unfoldable pub turn : Turn lib → Bytes → Turned
  turn t json = deserialize t (t.unmarshal json)

abbrev pub set_status : ℕ → Status → Store → Store
set_status i status s = set_read i (record (s.reads i) { status = status }) s

-- How far the loop has come: whether it still runs, what it sent, the store and the pool.
abbrev pub Serving : Type 0 → Type 0
Serving P = Bool × List Message × Store × P

abbrev pub send_too : {P : Type 0} → List Message → Serving P → Serving P
send_too sent (running, more, s, p) = (running, sent ++ more, s, p)

module _ {P : Type 0} (ops : ConnectionPool P) (lib : UrlLib) where
  -- What the deferred call does.
  abbrev pub leave : ℕ → List Message → Store → P → Serving P
  leave i sent s p = (false, sent, close i s, ops.remove (read_conn i) p)

  -- The loop of `Start`, which waits for the next message once the turns are used up.
  unfoldable pub serve : ℕ → List (Turn lib) → Store → P → Serving P
  serve i [] s p = (true, [], set_status i idle s, p)
  serve i (t ∷ ts) s p = elim t.read_message [
    | none ↦ leave i [] (set_status i idle s) p
    | some json ↦
        let s' = set_status i busy (set_status i idle s) in
        let (go_on, sent) = turn lib t json in
        elim go_on [ true ↦ send_too sent (serve i ts s' p) | false ↦ leave i sent s' p ]
  ]
