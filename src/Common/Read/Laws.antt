-- ===== src/Common/Read/Laws.antt =====
-- Closing either kind of connection: the store after it, and what it leaves alone.
use zk_wsp.Prelude.{ℕ, ◌≡◌, refl, Bool, true, false, arith, if◌then◌else◌, ◌==◌}
use zk_wsp.Outcome.{ok}
use zk_wsp.Common.Types.{closed, is_closed}
use zk_wsp.Common.Store.{
  Connection, read_conn, write_conn, Store, set_read, close_ws, get_status, idle_since,
}
use zk_wsp.Common.Write.Laws.{IsSound, shut, close-ok, shut-Keeps}
use zk_wsp.Common.Read.{close_without_lock, close_connection}

-- Whether two interface values hold the same pointer.
abbrev pub same_conn : Connection → Connection → Bool
same_conn (read_conn i) (read_conn j) = i == j
same_conn (write_conn i) (write_conn j) = i == j
same_conn (read_conn i) (write_conn j) = false
same_conn (write_conn i) (read_conn j) = false

pub same_conn→eq : (c d : Connection) → same_conn c d ≡ true → c ≡ d
same_conn→eq (read_conn i) (read_conn j) h = ground arith
same_conn→eq (write_conn i) (write_conn j) h = ground arith
same_conn→eq (read_conn i) (write_conn j) h = cc
same_conn→eq (write_conn i) (read_conn j) h = cc

pub same_conn_refl : (c : Connection) → same_conn c c ≡ true
same_conn_refl (read_conn i) = ground arith
same_conn_refl (write_conn i) = ground arith

abbrev pub shut_read : ℕ → Store → Store
shut_read i s =
    let c = s.reads i in
    if is_closed c.status
    then s
    else set_read i (record c { status = closed })
        (record s { ws_closes = close_ws c.ws s.ws_closes })

pub shut_connection : Connection → Store → Store
shut_connection (read_conn i) s = shut_read i s
shut_connection (write_conn i) s = shut i s

pub close_connection-ok :
    (c : Connection) (s : Store) → IsSound s → close_connection c s ≡ ok (shut_connection c s)
unfolding close_connection shut_connection close_without_lock
close_connection-ok (read_conn i) s v = refl
close_connection-ok (write_conn i) s v = close-ok i s v

pub shut_connection-IsSound :
    (c : Connection) (s : Store) → IsSound s → IsSound (shut_connection c s)
unfolding shut_connection
shut_connection-IsSound (read_conn i) s v j = ground (arith, v j)
shut_connection-IsSound (write_conn i) s v j = (shut-Keeps i s v).sound j

pub get_status-shut :
    (c d : Connection) (s : Store)
    → get_status d (shut_connection c s) ≡ (if same_conn c d then closed else get_status d s)
unfolding shut_connection
get_status-shut (read_conn i) (read_conn j) s = ground arith
get_status-shut (read_conn i) (write_conn j) s = ground arith
get_status-shut (write_conn i) (read_conn j) s = ground arith
get_status-shut (write_conn i) (write_conn j) s = ground arith

pub idle_since-shut :
    (c d : Connection) (s : Store) → idle_since d (shut_connection c s) ≡ idle_since d s
unfolding shut_connection
idle_since-shut (read_conn i) (read_conn j) s = ground arith
idle_since-shut (read_conn i) (write_conn j) s = ground arith
idle_since-shut (write_conn i) (read_conn j) s = ground arith
idle_since-shut (write_conn i) (write_conn j) s = ground arith
