-- ===== src/Programs/Ends.antt =====
-- How the client's program ends: cmd/wsp_client/main.go.
use zk_wsp.Prelude.{Bool, List, [], All, true, false, ◌≡◌, ◌⊎◌, Bool, some}
use zk_wsp.Prelude.Int.{pos_part}
use zk_wsp.Outcome.{Outcome, panic, Succeeds}
use zk_wsp.Common.Types.{closed}
use zk_wsp.Common.Store.{Connection, read_conn, write_conn, Store, get_status}
use zk_wsp.Common.Write.Laws.{IsSound}
use zk_wsp.Client.Pool.{Pool, conns, default_interval}
use zk_wsp.Client.Handlers.{Client}
use zk_wsp.Client.Config.{Config}

-- A connection that was closed stays so, and those of the list are closed.
abbrev Closes : List Connection → Store → Store → Type 0
Closes cs s s' =
    IsSound s'
    × All (λ c. get_status c s' ≡ closed) cs
    × ((d : Connection) → get_status d s ≡ closed → get_status d s' ≡ closed)

-- All connections of the pool are closed.
abbrev pub AreClosed : Pool → Store → Type 0
AreClosed p s =
    All (λ c. get_status c s ≡ closed) (conns read_conn p.read_connections)
    × All (λ c. get_status c s ≡ closed) (conns write_conn p.write_connections)

-- How `main` ends behind the calls.
abbrev pub EndsBehind : Store × Client → Outcome (Store × Client) → Type 0
EndsBehind (s, c) m =
    ((c.killed ≡ true) × (m ≡ panic))
    ⊎ ((p : Pool) × (c.pool ≡ some p) × Succeeds (λ (s', _). AreClosed p s') m)

-- The pool that `NewPool` makes
abbrev fresh_pool : Config → Pool
fresh_pool config = record {
  read_connections = [];
  write_connections = [];
  idle = [];
  capacity = pos_part config.pool_max_size;
  done = false;
  retry_interval = default_interval config;
}
