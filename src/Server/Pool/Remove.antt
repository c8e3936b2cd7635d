-- ===== src/Server/Pool/Remove.antt =====
-- What `RemoveWithoutLock` of server/pool.go leaves in the lists of the pool.
use zk_wsp.Prelude.{ℕ, ◌≡◌, refl, if◌then◌else◌, occurrences, occurrences-keep}
use zk_wsp.Common.Store.{Connection, read_conn, write_conn}
use zk_wsp.Common.Read.Laws.{same_conn}
use zk_wsp.Server.Pool.{Pool, remove_without_lock}

-- How often a connection stands in its list of the pool.
abbrev pub present : Connection → Pool → ℕ
present (read_conn i) p = occurrences i p.read_connections
present (write_conn i) p = occurrences i p.write_connections

-- A removed connection is in the pool no more, and every other one as often as before.
pub present-remove :
    (c d : Connection) (p : Pool)
    → present d (remove_without_lock c p) ≡ (if same_conn c d then 0 else present d p)
unfolding remove_without_lock
present-remove (read_conn i) (read_conn j) p = occurrences-keep i j p.read_connections
present-remove (read_conn i) (write_conn j) p = refl
present-remove (write_conn i) (read_conn j) p = refl
present-remove (write_conn i) (write_conn j) p = occurrences-keep i j p.write_connections
