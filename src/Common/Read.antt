-- ===== src/Common/Read.antt =====
-- common/readConnection.go: closing a `ReadConnection`, and either kind of connection.
pub mod Laws
use zk_wsp.Prelude.{ℕ, if◌then◌else◌}
use zk_wsp.Outcome.{Outcome, ok}
use zk_wsp.Common.Types.{closed, is_closed}
use zk_wsp.Common.Store.{Connection, read_conn, write_conn, Store, set_read, close_ws}
use zk_wsp.Common.Write

-- `CloseWithOutLock`
unfoldable pub close_without_lock : ℕ → Store → Store
close_without_lock i s =
    let c = s.reads i in
    if is_closed c.status
    then s
    else set_read i (record c { status = closed })
        (record s { ws_closes = close_ws c.ws s.ws_closes })

-- `Close` takes the lock around `CloseWithOutLock`.
abbrev pub close : ℕ → Store → Store
close i s = close_without_lock i s

-- The method of the interface `Connection`, on either kind of connection.
unfoldable pub close_connection : Connection → Store → Outcome Store
close_connection (read_conn i) s = ok (close_without_lock i s)
close_connection (write_conn i) s = Write.close_without_lock i s
