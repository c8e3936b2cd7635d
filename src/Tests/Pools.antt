-- ===== src/Tests/Pools.antt =====
-- The server's pool at concrete inputs.
use zk_wsp.Prelude.{ℕ, ◌≡◌, ◌*◌, refl, [], ◌∷◌, arith, count}
use Prim.Native.Nat.{min}
use zk_wsp.Prelude.Int.{pos}
use zk_wsp.Outcome.{blocked, Succeeds}
use zk_wsp.Common.Store.{read_conn, write_conn}
use zk_wsp.Server.Config.{second}
use zk_wsp.Server.Pool.{clean, get_idle_write_connection}
use zk_wsp.Server.Pool.Survivors.{IsDistinct, survivors, clean-survivors}
use zk_wsp.Server.Pool.Survivors.IdleReads.{is_idle_at, clean-idle_reads}
use zk_wsp.Server.Pool.Idle.{HandsOut, visits, get_idle_write_connection-HandsOut, visits-blocked}
use zk_wsp.Tests.Data.{store, config, pool, empty_pool, rounds}
use zk_wsp.Tests.Connections.{store-IsSound}

writes-IsDistinct : IsDistinct pool.write_connections
writes-IsDistinct i = ground arith

reads-IsDistinct : IsDistinct pool.read_connections
reads-IsDistinct i = ground arith

abbrev later : ℕ
later = 100 * second

clean-survivors_example :
    Succeeds
      (λ (s', p').
        (p'.read_connections ≡ survivors config later read_conn store (pos 1) 0 (4 ∷ 5 ∷ []))
        × (p'.write_connections
            ≡ survivors config later write_conn store (pos 1) 0 (0 ∷ 1 ∷ 2 ∷ 3 ∷ [])))
      (clean config later store pool)
clean-survivors_example =
    clean-survivors config later store pool store-IsSound reads-IsDistinct writes-IsDistinct

clean-idle_reads_example :
    Succeeds
      (λ (s', p').
        count (is_idle_at config later read_conn store) p'.read_connections
        ≡ min 1 (count (is_idle_at config later read_conn store) (4 ∷ 5 ∷ [])))
      (clean config later store pool)
clean-idle_reads_example =
    clean-idle_reads config later 1 store pool store-IsSound reads-IsDistinct writes-IsDistinct refl
      (λ i. refl) refl

HandsOut_example : HandsOut store pool (get_idle_write_connection config rounds store pool)
HandsOut_example = get_idle_write_connection-HandsOut config rounds store pool

visits-blocked_example : visits 4 8 store empty_pool ≡ blocked
visits-blocked_example = visits-blocked 3 8 store empty_pool refl (omega arith)
