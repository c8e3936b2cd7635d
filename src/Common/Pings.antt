-- ===== src/Common/Pings.antt =====
-- common/readConnection.go: the loop of `Start` that serves requests, the goroutine of `Start` that
-- pings the peer, and whoever else closes the connection, interleaved. The loop sets the status
-- without the lock of the connection.
pub mod Closes
pub mod Reopened
use zk_wsp.Prelude.{ℕ, ◌≡◌, true, false, Option, none, some, List, occurrences}
use zk_wsp.Common.Types.{idle, busy, is_closed}
use zk_wsp.Common.Store.{Store, read_conn}
use zk_wsp.Common.Pool.{ConnectionPool}
use zk_wsp.Common.Read.{close}
use zk_wsp.Common.Serve.{set_status}

-- Where the loop stands.
pub data LoopPc : Type 0 where
  head : LoopPc  -- before `connection.Status = IDLE`
  reading : LoopPc  -- in `ReadMessage`
  received : LoopPc  -- before `connection.Status = BUSY`
  working : LoopPc  -- up to the text message of the answer
  written : LoopPc  -- behind that, until the turn ends
  leaving : LoopPc  -- behind the loop, before the deferred `Remove`
  removed : LoopPc  -- before the deferred `Close`
  ended : LoopPc

-- Where the goroutine stands that pings.
pub data PingPc : Type 0 where
  awake : PingPc  -- in its loop
  failing : PingPc  -- before `Close`
  dropping : PingPc  -- before `Remove`
  over : PingPc

pub record Conn (P : Type 0) : Type 0 where
  pub store : Store
  pub pool : P
  pub loop : LoopPc
  pub pings : PingPc

abbrev pub closes_of : Option ℕ → List ℕ → ℕ
closes_of none log = 0
closes_of (some w) log = occurrences w log

-- How often the websocket of the connection was closed.
abbrev pub closes : ℕ → Store → ℕ
closes i s = closes_of (s.reads i).ws s.ws_closes

module _ {P : Type 0} (ops : ConnectionPool P) (i : ℕ) where
  -- A step of one of them. On a closed websocket writes fail; a read may still find a message in
  -- the buffer.
  pub data Step (s : Conn P) : Conn P → Type 0 where
    listen : s.loop ≡ head → Step s (record s { store = set_status i idle s.store; loop = reading })
    arrive : s.loop ≡ reading → Step s (record s { loop = received })
    read_error : s.loop ≡ reading → Step s (record s { loop = leaving })
    begin :
        s.loop ≡ received → Step s (record s { store = set_status i busy s.store; loop = working })
    turn_error : s.loop ≡ working → Step s (record s { loop = leaving })
    answer : s.loop ≡ working → closes i s.store ≡ 0 → Step s (record s { loop = written })
    body_error : s.loop ≡ written → Step s (record s { loop = leaving })
    turn_ends : s.loop ≡ written → Step s (record s { loop = head })
    take_out :
        s.loop ≡ leaving
        → Step s (record s { pool = ops.remove (read_conn i) s.pool; loop = removed })
    shut : s.loop ≡ removed → Step s (record s { store = close i s.store; loop = ended })
    ping : s.pings ≡ awake → closes i s.store ≡ 0 → Step s s
    ping_error : s.pings ≡ awake → Step s (record s { pings = failing })
    ping_close : s.pings ≡ failing → Step s (record s { store = close i s.store; pings = dropping })
    ping_drop :
        s.pings ≡ dropping
        → Step s (record s { pool = ops.remove (read_conn i) s.pool; pings = over })
    close_elsewhere : Step s (record s { store = close i s.store })
    elsewhere :
        (s' : Store) (p' : P)
        → s'.reads i ≡ s.store.reads i
        → closes i s' ≡ closes i s.store
        → Step s (record s { store = s'; pool = p' })

  -- Some steps
  pub data Steps (s : Conn P) : Conn P → Type 0 where
    done : Steps s s
    then_ : {t u : Conn P} → Steps s t → Step t u → Steps s u

  -- Where `Start` begins: on a connection with a websocket that nobody has closed.
  pub record IsStart (s : Conn P) : Type 0 where
    pub ws : ℕ
    pub connected : (s.store.reads i).ws ≡ some ws
    pub unclosed : closes i s.store ≡ 0
    pub alive : is_closed (s.store.reads i).status ≡ false
    pub at_head : s.loop ≡ head
    pub pinging : s.pings ≡ awake
