-- ===== src/Common/Reader/Progress.antt =====
-- How long the goroutine and the handler can go on: common/writeConnection.go, `Start` and
-- `ProxyRequest`.
use zk_wsp.Prelude.{ℕ, suc, ◌+◌, ◌*◌, ◌≤◌, ◌<◌, ◌≡◌, ap, true, false, arith, if◌then◌else◌}
use zk_wsp.Common.Types.{is_closed}
use zk_wsp.Common.Store.{Store}
use zk_wsp.Common.Pool.{ConnectionPool, IsConnectionPool}
use zk_wsp.Common.Reader.{
  ReaderPc, head, reading, arrived, receiving, giving, waiting, notified, leaving, ended, notify,
  Part, response, body, HandlerPc, absent, pinging, writing, asking, awaiting, holding, releasing,
  failed, panicked, Conn, Step, Reach, own, stop, next, arrive, read_error, wild, expected, unlock,
  meet, give, resume, leave, write_ok, write_error, send_on_closed, read_response, read_body,
  part_error, bad_status, put_back, ping_ends, throw_away, close_elsewhere,
}
use zk_wsp.Common.Write.Uses.{close-closes}
use zk_wsp.Common.Reader.Invariant.{Inv, Reach-Inv, Event-Inv}
use zk_wsp.Common.Reader.Lost.{Steps, done, more}

-- Bounds for the steps that the goroutine can take alone, and for those that the handler can take.
abbrev reader_rank : ReaderPc → ℕ
reader_rank ended = 0
reader_rank leaving = 1
reader_rank receiving = 2
reader_rank giving = 3
reader_rank waiting = 3
reader_rank arrived = 3
reader_rank reading = 4
reader_rank head = 5
reader_rank notified = 6

abbrev handler_rank : HandlerPc → ℕ
handler_rank absent = 0
handler_rank panicked = 0
handler_rank pinging = 1
handler_rank releasing = 1
handler_rank failed = 1
handler_rank (holding body) = 2
handler_rank (awaiting body) = 3
handler_rank (asking body) = 4
handler_rank (holding response) = 5
handler_rank (awaiting response) = 6
handler_rank (asking response) = 7
handler_rank writing = 8

abbrev openness : ℕ → Store → ℕ
openness i s = if is_closed (s.writes i).status then 0 else 1

openness-le : (i : ℕ) (s : Store) → openness i s ≤ 1
openness-le i s = ground arith

openness-closed : (i : ℕ) (s : Store) → is_closed (s.writes i).status ≡ true → openness i s ≡ 0
openness-closed i s h = rw h

openness-open : (i : ℕ) (s : Store) → is_closed (s.writes i).status ≡ false → openness i s ≡ 1
openness-open i s h = rw h

reader_rank-le : (r : ReaderPc) → reader_rank r ≤ 6
reader_rank-le ended = omega arith
reader_rank-le leaving = omega arith
reader_rank-le receiving = omega arith
reader_rank-le giving = omega arith
reader_rank-le waiting = omega arith
reader_rank-le arrived = omega arith
reader_rank-le reading = omega arith
reader_rank-le head = omega arith
reader_rank-le notified = omega arith

handler_rank-le : (h : HandlerPc) → handler_rank h ≤ 8
handler_rank-le absent = omega arith
handler_rank-le panicked = omega arith
handler_rank-le pinging = omega arith
handler_rank-le releasing = omega arith
handler_rank-le failed = omega arith
handler_rank-le writing = omega arith
handler_rank-le (asking response) = omega arith
handler_rank-le (asking body) = omega arith
handler_rank-le (awaiting response) = omega arith
handler_rank-le (awaiting body) = omega arith
handler_rank-le (holding response) = omega arith
handler_rank-le (holding body) = omega arith

-- A handler that gets a reader comes closer to its end, whichever part it is for.
parts-fall :
    (k : Part)
    → (handler_rank (awaiting k) + 1 ≡ handler_rank (asking k))
      × (handler_rank (holding k) + 1 ≡ handler_rank (awaiting k))
      × (2 ≤ handler_rank (holding k))
parts-fall response = omega arith
parts-fall body = omega arith

module _ {P : Type 0} (ops : ConnectionPool P) (lawful : IsConnectionPool ops) (i : ℕ) where
  abbrev measure : Conn P → ℕ
  measure s = 10 * handler_rank s.handler + reader_rank s.reader + openness i s.store

  Step-measure : {s t : Conn P} → Step ops i s t → Inv ops lawful i s → measure t < measure s
  Step-measure {s} (stop r c) v = omega (arith, ap reader_rank r)
  Step-measure {s} (next r o) v = omega (arith, ap reader_rank r)
  Step-measure {s} (arrive r) v = omega (arith, ap reader_rank r)
  Step-measure {s} (read_error r) v = omega (arith, ap reader_rank r)
  Step-measure {s} (wild r b) v = omega (arith, ap reader_rank r)
  Step-measure {s} (expected r b) v = omega (arith, ap reader_rank r)
  Step-measure {s} (unlock r c) v = omega (arith, ap reader_rank r)
  Step-measure {s} (meet {k} r o g) v =
      omega (arith, parts-fall k, ap reader_rank r, ap handler_rank g)
  Step-measure {s} (give {k} r g) v =
      omega (arith, parts-fall k, ap reader_rank r, ap handler_rank g)
  Step-measure {s} (resume r) v = omega (arith, ap reader_rank r)
  Step-measure {s} (leave {s'} r c) v =
      omega (arith, ap reader_rank r, openness-closed i s' (close-closes i s.store s' v.sound c))
  Step-measure {s} (write_ok g) v = omega (arith, ap handler_rank g)
  Step-measure {s} (write_error g) v = omega (arith, ap handler_rank g)
  Step-measure {s} (send_on_closed {k} g c) v = omega (arith, parts-fall k, ap handler_rank g)
  Step-measure {s} (read_response g) v =
      omega (arith, ap handler_rank g, reader_rank-le (notify s.reader))
  Step-measure {s} (read_body g) v =
      omega (arith, ap handler_rank g, reader_rank-le (notify s.reader))
  Step-measure {s} (part_error {k} g) v =
      omega (arith, parts-fall k, ap handler_rank g, reader_rank-le (notify s.reader))
  Step-measure {s} (bad_status g) v =
      omega (arith, ap handler_rank g, reader_rank-le (notify s.reader))
  Step-measure {s} (put_back now {s'} g e) v = omega (arith, ap handler_rank g, openness-le i s')
  Step-measure {s} (ping_ends now {s'} g e) v = omega (arith, ap handler_rank g, openness-le i s')
  Step-measure {s} (throw_away {s'} g c) v = omega (arith, ap handler_rank g, openness-le i s')
  Step-measure {s} (close_elsewhere {s'} o c) v =
      omega (
        arith,
        openness-closed i s' (close-closes i s.store s' v.sound c),
        openness-open i s.store o,
      )

  -- How many steps they are
  pub steps_taken : {s t : Conn P} → Steps ops lawful i s t → ℕ
  steps_taken done = 0
  steps_taken (more st r) = suc (steps_taken r)

  Steps-measure :
      {s t : Conn P} (r : Steps ops lawful i s t) → Inv ops lawful i s → steps_taken r ≤ measure s
  unfolding steps_taken
  Steps-measure done v = omega arith
  Steps-measure (more st r) v =
      omega (arith, Step-measure st v, Steps-measure r (Event-Inv ops lawful i (own st) v))

  -- Between two handlers that take a connection, its goroutine, its handler and who closes it take
  -- at most 87 steps together, however they interleave.
  pub steps_taken-le :
      {s t : Conn P} (r : Steps ops lawful i s t) → Reach ops i s → steps_taken r ≤ 87
  steps_taken-le {s} r h = omega (
    arith,
    Steps-measure r (Reach-Inv ops lawful i h),
    handler_rank-le s.handler,
    reader_rank-le s.reader,
    openness-le i s.store,
  )
