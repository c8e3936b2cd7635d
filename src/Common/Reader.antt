-- ===== src/Common/Reader.antt =====
-- common/writeConnection.go: the goroutine of `Start`, which reads the websocket of a connection, and
-- the handler that uses the connection (`ProxyRequest`, `SendPingMessage`), interleaved. They meet on
-- unbuffered channels: a send and its receive are one step of both.
pub mod Invariant
pub mod Exclusive
pub mod Lost
pub mod Progress
use zk_wsp.Prelude.{ℕ, ◌≡◌, ◌≢◌, Bool, true, false}
use zk_wsp.Outcome.{Outcome, ok, panic}
use zk_wsp.Common.Types.{is_closed, is_busy}
use zk_wsp.Common.Store.{Store, write_conn}
use zk_wsp.Common.Pool.{ConnectionPool}
use zk_wsp.Common.Write.{take, release, close_without_lock}
use zk_wsp.Common.Write.Laws.{IsSound}

-- Where the goroutine of `Start` stands behind its `Release`.
pub data ReaderPc : Type 0 where
  head : ReaderPc  -- the test of the status
  reading : ReaderPc  -- in `NextReader`
  arrived : ReaderPc  -- with a message, before the second test of the status
  receiving : ReaderPc  -- at `<-connection.nextResponse`
  giving : ReaderPc  -- at `c <- reader`
  waiting : ReaderPc  -- at `<-c`
  notified : ReaderPc  -- at `<-c`, when `c` is closed
  leaving : ReaderPc  -- behind the loop, before the deferred call
  ended : ReaderPc

-- The two readers that `ProxyRequest` asks for.
pub data Part : Type 0 where
  response body : Part

-- Where the handler stands that took the connection; `absent` if there is none.
pub data HandlerPc : Type 0 where
  absent : HandlerPc
  pinging : HandlerPc  -- in `SendPingMessage`, before the deferred `Release`
  writing : HandlerPc  -- steps [1] and [2] of `ProxyRequest`
  asking : Part → HandlerPc  -- at `connection.nextResponse <- ch`
  awaiting : Part → HandlerPc  -- at `<-ch`
  holding : Part → HandlerPc  -- reads from the reader, until `close(ch)`
  releasing : HandlerPc  -- before `Release`
  failed : HandlerPc  -- `ProxyRequest` has returned an error; before `Close`
  panicked : HandlerPc

pub record Conn (P : Type 0) : Type 0 where
  pub store : Store
  pub pool : P
  pub reader : ReaderPc
  pub handler : HandlerPc

-- Closing the channel wakes the goroutine.
abbrev pub notify : ReaderPc → ReaderPc
notify head = head
notify reading = reading
notify arrived = arrived
notify receiving = receiving
notify giving = giving
notify waiting = notified
notify notified = notified
notify leaving = leaving
notify ended = ended

module _ {P : Type 0} (ops : ConnectionPool P) (i : ℕ) where
  -- A step of the goroutine, of the handler, of both, or of somebody who closes the connection.
  pub data Step (s : Conn P) : Conn P → Type 0 where
    stop :
        s.reader ≡ head
        → is_closed (s.store.writes i).status ≡ true
        → Step s (record s { reader = leaving })
    next :
        s.reader ≡ head
        → is_closed (s.store.writes i).status ≡ false
        → Step s (record s { reader = reading })
    arrive : s.reader ≡ reading → Step s (record s { reader = arrived })
    read_error : s.reader ≡ reading → Step s (record s { reader = leaving })
    wild :
        s.reader ≡ arrived
        → is_busy (s.store.writes i).status ≡ false
        → Step s (record s { reader = leaving })
    expected :
        s.reader ≡ arrived
        → is_busy (s.store.writes i).status ≡ true
        → Step s (record s { reader = receiving })
    unlock :
        s.reader ≡ receiving
        → (s.store.writes i).next_response_closed ≡ true
        → Step s (record s { reader = leaving })
    meet :
        {k : Part}
        → s.reader ≡ receiving
        → (s.store.writes i).next_response_closed ≡ false
        → s.handler ≡ asking k
        → Step s (record s { reader = giving; handler = awaiting k })
    give :
        {k : Part}
        → s.reader ≡ giving
        → s.handler ≡ awaiting k
        → Step s (record s { reader = waiting; handler = holding k })
    resume : s.reader ≡ notified → Step s (record s { reader = head })
    leave :
        {s' : Store}
        → s.reader ≡ leaving
        → close_without_lock i s.store ≡ ok s'
        → Step s (record s { store = s'; pool = ops.remove (write_conn i) s.pool; reader = ended })
    write_ok : s.handler ≡ writing → Step s (record s { handler = asking response })
    write_error : s.handler ≡ writing → Step s (record s { handler = failed })
    send_on_closed :
        {k : Part}
        → s.handler ≡ asking k
        → (s.store.writes i).next_response_closed ≡ true
        → Step s (record s { handler = panicked })
    read_response :
        s.handler ≡ holding response
        → Step s (record s { reader = notify s.reader; handler = asking body })
    read_body :
        s.handler ≡ holding body
        → Step s (record s { reader = notify s.reader; handler = releasing })
    part_error :
        {k : Part}
        → s.handler ≡ holding k
        → Step s (record s { reader = notify s.reader; handler = failed })
    bad_status :
        s.handler ≡ holding response
        → Step s (record s { reader = notify s.reader; handler = panicked })
    put_back :
        (now : ℕ) {s' : Store} {p' : P}
        → s.handler ≡ releasing
        → release ops now i s.store s.pool ≡ ok (s', p')
        → Step s (record s { store = s'; pool = p'; handler = absent })
    ping_ends :
        (now : ℕ) {s' : Store} {p' : P}
        → s.handler ≡ pinging
        → release ops now i s.store s.pool ≡ ok (s', p')
        → Step s (record s { store = s'; pool = p'; handler = absent })
    throw_away :
        {s' : Store}
        → s.handler ≡ failed
        → close_without_lock i s.store ≡ ok s'
        → Step s
            (record s { store = s'; pool = ops.remove (write_conn i) s.pool; handler = absent })
    close_elsewhere :
        {s' : Store}
        → is_closed (s.store.writes i).status ≡ false
        → close_without_lock i s.store ≡ ok s'
        → Step s (record s { store = s' })

  -- A step, a handler that takes the connection, or anything that happens to the pool and the other
  -- connections.
  pub data Event (s : Conn P) : Conn P → Type 0 where
    own : {t : Conn P} → Step s t → Event s t
    take_request :
        {s' : Store}
        → take i s.store ≡ (true, s')
        → Event s (record s { store = s'; handler = writing })
    take_ping :
        {s' : Store}
        → take i s.store ≡ (true, s')
        → Event s (record s { store = s'; handler = pinging })
    elsewhere :
        (s' : Store) (p' : P)
        → s'.writes i ≡ s.store.writes i
        → IsSound s'
        → Event s (record s { store = s'; pool = p' })

  -- The states behind `Start`'s call of `Release`, on a connection that nobody has taken yet.
  pub data Reach : Conn P → Type 0 where
    started : {s : Conn P} → IsSound s.store → s.reader ≡ head → s.handler ≡ absent → Reach s
    later : {s t : Conn P} → Reach s → Event s t → Reach t
