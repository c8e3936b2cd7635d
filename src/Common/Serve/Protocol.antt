-- ===== src/Common/Serve/Protocol.antt =====
-- What a read connection sends to its peer: common/readConnection.go, `Start`.
use zk_wsp.Prelude.{
  if◌then◌else◌, ◌++◌, ℕ, suc, ◌≡◌, refl, Bool, true, false, Option, none, some, List, [], ◌∷◌,
  Bytes, All, length, ==_refl, arith,
}
use zk_wsp.Http.Request.{UrlLib, HttpRequest, Request, unserialize_http_request}
use zk_wsp.Http.Response.{Response, serialize_http_response}
use zk_wsp.Common.Types.{idle, busy, closed}
use zk_wsp.Common.Store.{Store, read_conn}
use zk_wsp.Common.Read.{close, close_without_lock}
use zk_wsp.Common.Pool.{ConnectionPool}
use zk_wsp.Common.Serve.{
  Message, text, binary, Turn, Turned, write_error, report_error, write_body, write_response,
  respond, execute_request, deserialize, turn, serve, Serving, leave, send_too, set_status,
  error_response,
}

-- What a turn may send: nothing or the head of an answer, and then the loop ends, or a whole answer.
pub data Sends : Bool → List Message → Type 0 where
  nothing : Sends false []
  head : (h : Bytes) → Sends false (text h ∷ [])
  answer : (go_on : Bool) (h b : Bytes) → Sends go_on (text h ∷ binary b ∷ [])

-- What is sent in `n` turns: one answer for each as long as the loop runs, each a
-- text and a binary message, and at the end at most the head of one more.
pub data Answers : ℕ → Bool → List Message → Type 0 where
  waiting : Answers 0 true []
  last : {n : ℕ} {ms : List Message} → Sends false ms → Answers (suc n) false ms
  next :
      {n : ℕ} {running : Bool} {ms : List Message} (h b : Bytes)
      → Answers n running ms
      → Answers (suc n) running (text h ∷ binary b ∷ ms)

module _ (lib : UrlLib) (t : Turn lib) (closes : t.close_writer ≡ true) where
  write_error-Sends : (j : Option Bytes) → Sends (write_error lib t j).0 (write_error lib t j).1
  write_error-Sends none = nothing
  write_error-Sends (some json) = written t.write_text t.write_binary
    where
      written :
          (x y : Bool)
          → let r : Turned =
              if x
              then (if y
                  then (true, text json ∷ binary t.message ∷ [])
                  else (false, text json ∷ []))
              else (false, []) in
            Sends r.0 r.1
      written true true = answer true json t.message
      written true false = head json
      written false y = nothing

  write_body-Sends :
      (json body : Bytes) → Sends (write_body lib t json body).0 (write_body lib t json body).1
  write_body-Sends json body = rw closes (written t.next_writer t.copy_body)
    where
      written :
          (x y : Bool)
          → let r : Turned =
              if x
              then (if y then (true, text json ∷ binary body ∷ []) else (false, text json ∷ []))
              else (false, text json ∷ []) in
            Sends r.0 r.1
      written true true = answer true json body
      written true false = head json
      written false y = head json

  report_error-Sends : Sends (report_error lib t).0 (report_error lib t).1
  unfolding report_error
  report_error-Sends = write_error-Sends (t.marshal (error_response t.message))

  write_response-Sends :
      (body : Bytes) (j : Option Bytes)
      → Sends (write_response lib t body j).0 (write_response lib t body j).1
  write_response-Sends body none = report_error-Sends
  write_response-Sends body (some json) = written t.write_text
    where
      written :
          (x : Bool)
          → let r : Turned = if x then write_body lib t json body else (false, []) in Sends r.0 r.1
      written true = write_body-Sends json body
      written false = nothing

  respond-Sends : (r : Option Response) → Sends (respond lib t r).0 (respond lib t r).1
  respond-Sends none = report_error-Sends
  respond-Sends (some r) = write_response-Sends r.body (t.marshal (serialize_http_response r))

  break-Sends : {go_on : Bool} {ms : List Message} → Sends go_on ms → Sends false ms
  break-Sends nothing = nothing
  break-Sends (head h) = head h
  break-Sends (answer go_on h b) = answer false h b

  execute-Sends :
      (r : Option (Request lib.Url)) → Sends (execute_request lib t r).0 (execute_request lib t r).1
  execute-Sends none = break-Sends report_error-Sends
  execute-Sends (some r) = piped t.next_reader
    where
      piped :
          (x : Bool)
          → let y : Turned = if x then respond lib t (t.execute r) else (false, []) in Sends y.0 y.1
      piped true = respond-Sends (t.execute r)
      piped false = nothing

  deserialize-Sends :
      (r : Option HttpRequest) → Sends (deserialize lib t r).0 (deserialize lib t r).1
  deserialize-Sends none = break-Sends report_error-Sends
  deserialize-Sends (some r) = execute-Sends (unserialize_http_request lib r)

  turn-Sends : (json : Bytes) → Sends (turn lib t json).0 (turn lib t json).1
  unfolding turn
  turn-Sends json = deserialize-Sends (t.unmarshal json)

-- Idle as long as the loop runs, and closed and out of the pool afterwards.
abbrev pub IsLeft : {P : Type 0} → ConnectionPool P → ℕ → P → Bool → Store → P → Type 0
IsLeft ops i p true s' p' = ((s'.reads i).status ≡ idle) × (p' ≡ p)
IsLeft ops i p false s' p' = ((s'.reads i).status ≡ closed) × (p' ≡ ops.remove (read_conn i) p)

-- The messages and the end of the loop over `n` turns.
abbrev pub IsServed : {P : Type 0} → ConnectionPool P → ℕ → ℕ → P → Serving P → Type 0
IsServed ops i n p (running, ms, s', p') = Answers n running ms × IsLeft ops i p running s' p'

Answers-next :
    {n : ℕ} {ms : List Message} (go_on : Bool) (sent : List Message)
    → Sends go_on sent
    → go_on ≡ true
    → {running : Bool} → Answers n running ms
    → Answers (suc n) running (sent ++ ms)
Answers-next false sent h e a = cc
Answers-next true sent (answer go_on h b) e a = next h b a

module _ {P : Type 0} (ops : ConnectionPool P) (lib : UrlLib) (i : ℕ) where
  closed-IsLeft : (s : Store) → ((close i s).reads i).status ≡ closed
  unfolding close_without_lock
  closed-IsLeft s = ground (arith, ==_refl i)

  turned-IsServed :
      (n : ℕ) (go_on : Bool) (sent : List Message) (s : Store) (p : P) (rest : Serving P)
      → Sends go_on sent
      → IsServed ops i n p rest
      → IsServed ops i
          (suc n)
          p
          (elim go_on [ true ↦ send_too sent rest | false ↦ leave ops lib i sent s p ])
  turned-IsServed n true sent s p (running, ms, s', p') h (a, b) =
      (Answers-next true sent h refl a, b)
  turned-IsServed n false sent s p rest h k = (last h, (closed-IsLeft s, refl))

  read-IsServed :
      (t : Turn lib) (n : ℕ) (m : Option Bytes) (s s' : Store) (p : P) (rest : Serving P)
      → t.close_writer ≡ true
      → IsServed ops i n p rest
      → IsServed ops i (suc n) p (elim m [
        | none ↦ leave ops lib i [] s p
        | some json ↦
            let (go_on, sent) = turn lib t json in
            elim go_on [ true ↦ send_too sent rest | false ↦ leave ops lib i sent s' p ]
      ])
  read-IsServed t n none s s' p rest c k = (last nothing, (closed-IsLeft s, refl))
  read-IsServed t n (some json) s s' p rest c k =
      let (go_on, sent) = turn lib t json in
      turned-IsServed n go_on sent s' p rest (turn-Sends lib t c json) k

  -- If closing the writer of a body never fails, then a read connection sends one answer, a text and
  -- a binary message, in each turn as long as its loop runs, and at the end of the
  -- loop at most the head of one more answer. While the loop waits the connection is idle and in its
  -- pool; afterwards it is closed and was removed from its pool.
  pub serve-IsServed :
      (ts : List (Turn lib)) (s : Store) (p : P)
      → All (λ t. t.close_writer ≡ true) ts
      → IsServed ops i (length ts) p (serve ops lib i ts s p)
  unfolding serve
  serve-IsServed [] s p a = (waiting, (rw (==_refl i) refl, refl))
  serve-IsServed (t ∷ ts) s p a =
      let s' = set_status i busy (set_status i idle s) in
      read-IsServed t (length ts) t.read_message (set_status i idle s) s' p
        (serve ops lib i ts s' p) a.0 (serve-IsServed ts s' p a.1)
