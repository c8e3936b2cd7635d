-- ===== src/Http/Writer.antt =====
-- `http.ResponseWriter`: the header map may change until the status line is sent with it.
use zk_wsp.Prelude.{
  Bool, true, false, ◌||◌, leb, ◌==◌, if◌then◌else◌, ℕ, Option, none, some, [], ◌∷◌, ◌++◌, Bytes,
  codes,
}
use zk_wsp.Prelude.Int.{ℤ, pos, pos_part, ltb_ℤ}
use zk_wsp.Outcome.{Outcome, ok, panic}
use zk_wsp.Http.Header
use zk_wsp.Http.Header.{Header}

pub record ResponseWriter : Type 0 where
  pub header : Header
  pub sent : Option (ℕ × Header)
  pub body : Bytes

-- The writer that a handler is given.
abbrev pub fresh : ResponseWriter
fresh = record { header = []; sent = none; body = [] }

abbrev pub header_add : Bytes → Bytes → ResponseWriter → ResponseWriter
header_add k v w = record w { header = Header.add w.header k v }

abbrev pub header_set : Bytes → Bytes → ResponseWriter → ResponseWriter
header_set k v w = record w { header = Header.set w.header k v }

-- Only the first status line is sent. A status from 100 to 199 but 101 is not a final one.
abbrev first_sent : Option (ℕ × Header) → ℕ → Header → Option (ℕ × Header)
first_sent none code h = some (code, h)
first_sent (some x) code h = some x

abbrev is_final : ℕ → Bool
is_final code = code == 101 || leb 200 code

abbrev pub send_status : ℕ → ResponseWriter → ResponseWriter
send_status code w = record w { sent = first_sent w.sent code w.header }

abbrev is_sent : Option (ℕ × Header) → Bool
is_sent none = false
is_sent (some x) = true

-- `WriteHeader` does nothing if a status was sent, and else panics at a code that has not three
-- digits.
unfoldable pub write_header : ℤ → ResponseWriter → Outcome ResponseWriter
write_header code w =
    if is_sent w.sent
    then ok w
    else if ltb_ℤ code (pos 100) || ltb_ℤ (pos 999) code
    then panic
    else if is_final (pos_part code)
    then ok (send_status (pos_part code) w)
    else ok w

-- `Write` sends the status 200 first if none was sent.
abbrev pub write : Bytes → ResponseWriter → ResponseWriter
write b w = record w { sent = first_sent w.sent 200 w.header; body = w.body ++ b }

-- `http.Error`: the message, with a line feed, as plain text; the callers' codes are final ones.
unfoldable pub error : Bytes → ℕ → ResponseWriter → ResponseWriter
error message code w = write (message ++ 10 ∷ []) (
    send_status code (
      header_set (codes "X-Content-Type-Options") (codes "nosniff")
        (header_set (codes "Content-Type") (codes "text/plain; charset=utf-8") w)))

-- The status that the client of this response sees.
abbrev pub status : ResponseWriter → Option ℕ
status w = elim w.sent [ none ↦ none | some (code, _) ↦ some code ]
