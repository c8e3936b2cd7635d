-- ===== src/Common/Store.antt =====
-- The connection objects of common/readConnection.go and common/writeConnection.go, in one store.
-- A Go pointer to a connection is the number at which the store holds it, so the pools' lists, the
-- idle channel and the goroutines share one object. Each method holds the object's lock for its
-- whole body, so a method is one step on the store.
use zk_wsp.Prelude.{ℕ, suc, Bool, false, Option, none, some, List, ◌∷◌, ◌==◌, if◌then◌else◌}
use zk_wsp.Common.Types.{Status}

-- A websocket is a handle; times are nanoseconds since the zero time.
pub record ReadConnection : Type 0 where
  pub ws : Option ℕ
  pub idle_since : ℕ
  pub status : Status

pub record WriteConnection : Type 0 where
  pub ws : Option ℕ
  pub status : Status
  pub idle_since : ℕ
  pub next_response_closed : Bool

-- A value of the interface `Connection`.
pub data Connection : Type 0 where
  read_conn write_conn : ℕ → Connection

-- `next` is where the next object goes; `ws_closes` logs the calls of `ws.Close()`, newest first.
pub record Store : Type 0 where
  pub reads : ℕ → ReadConnection
  pub writes : ℕ → WriteConnection
  pub next : ℕ
  pub ws_closes : List ℕ

abbrev pub update {ℓ} : {A : Type ℓ} → (ℕ → A) → ℕ → A → ℕ → A
update f i a j = if i == j then a else f j

abbrev pub set_read : ℕ → ReadConnection → Store → Store
set_read i c s = record s { reads = update s.reads i c }

abbrev pub set_write : ℕ → WriteConnection → Store → Store
set_write i c s = record s { writes = update s.writes i c }

-- `if connection.ws != nil { connection.ws.Close() }`; the error is only logged.
abbrev pub close_ws : Option ℕ → List ℕ → List ℕ
close_ws none log = log
close_ws (some w) log = w ∷ log

-- `NewReadConnection`: the fields that it does not name keep Go's zero values.
unfoldable pub new_read_connection : Status → Store → ℕ × Store
new_read_connection status s = (
  s.next,
  set_read s.next (record { ws = none; idle_since = 0; status = status })
      (record s { next = suc s.next }),
)

-- `NewWriteConnection` also makes the channel `nextResponse`.
unfoldable pub new_write_connection : Status → Store → ℕ × Store
new_write_connection status s = (
  s.next,
  set_write s.next
      (record { ws = none; status = status; idle_since = 0; next_response_closed = false })
      (record s { next = suc s.next }),
)

-- `GetStatus`, `IdleSince` and `SetWs` of the interface.
abbrev pub get_status : Connection → Store → Status
get_status (read_conn i) s = (s.reads i).status
get_status (write_conn i) s = (s.writes i).status

abbrev pub idle_since : Connection → Store → ℕ
idle_since (read_conn i) s = (s.reads i).idle_since
idle_since (write_conn i) s = (s.writes i).idle_since

abbrev pub set_ws : Connection → ℕ → Store → Store
set_ws (read_conn i) w s = set_read i (record (s.reads i) { ws = some w }) s
set_ws (write_conn i) w s = set_write i (record (s.writes i) { ws = some w }) s
