-- ===== src/Server/Pool/Survivors/IdleReads.antt =====
-- How many idle read connections `Clean` of server/pool.go leaves.
use Prim.Native.Nat.{min}
use zk_wsp.Prelude.{ℕ, suc, ◌-◌, ◌≡◌, ◌∙◌, ap, Bool, true, List, [], ◌∷◌, arith, count}
use zk_wsp.Prelude.Int.{pos, ltb_ℤ}
use zk_wsp.Outcome.{Succeeds, Succeeds-mono}
use zk_wsp.Common.Types.{is_idle}
use zk_wsp.Common.Store.{Connection, read_conn, Store, get_status}
use zk_wsp.Common.Write.Laws.{IsSound}
use zk_wsp.Server.Config.{Config}
use zk_wsp.Server.Pool.{Pool, elapsed_seconds, clean}
use zk_wsp.Server.Pool.Survivors.{is_late, survivors, IsDistinct, clean-survivors}

module _ (config : Config) (now : ℕ) (mk : ℕ → Connection) (s : Store) where
  abbrev pub is_idle_at : ℕ → Bool
  is_idle_at i = is_idle (get_status (mk i) s)

  -- If the timeout has passed for all connections, then a pass keeps exactly `k` idle ones, or all
  -- that there are.
  survivors-late :
      (k n : ℕ) (is : List ℕ)
      → ((i : ℕ) → is_late config now mk s i ≡ true)
      → count is_idle_at (survivors config now mk s (pos k) n is)
        ≡ min (k - n) (count is_idle_at is)
  unfolding survivors
  survivors-late k n [] h = omega arith
  survivors-late k n (i ∷ is) h =
      ground (arith, h i, survivors-late k n is h, survivors-late k (suc n) is h)

-- No code sets `idleSince` of a `ReadConnection`, so it keeps the zero time. Once the configured
-- timeout is less than the time since then, `Clean` therefore cuts the idle ones in the list of read
-- connections down to the idle size, however recently each of them was in use.
pub clean-idle_reads :
    (config : Config) (now k : ℕ) (s : Store) (p : Pool)
    → IsSound s
    → IsDistinct p.read_connections
    → IsDistinct p.write_connections
    → p.idle_size ≡ pos k
    → ((i : ℕ) → (s.reads i).idle_since ≡ 0)
    → ltb_ℤ config.idle_timeout (pos (elapsed_seconds now 0)) ≡ true
    → Succeeds
        (λ (s', p').
          count (is_idle_at config now read_conn s) p'.read_connections
          ≡ min k (count (is_idle_at config now read_conn s) p.read_connections))
        (clean config now s p)
clean-idle_reads config now k s p v dr dw size zero_time late =
    Succeeds-mono (clean config now s p)
      (λ (s', p') b.
        ap (count (is_idle_at config now read_conn s)) b.0
        ∙ rw size (
            omega (
              arith,
              survivors-late config now read_conn s k 0 p.read_connections
                  (λ i. rw (zero_time i) late),
            )))
      (clean-survivors config now s p v dr dw)
