-- ===== src/Client/Locks/Moves.antt =====
-- How a step moves one goroutine: it stands under the same locks as before, takes one, or gives one
-- back.
use zk_wsp.Prelude.{ℕ, ◌≡◌, sym, refl, ◌==◌, Bool, true, false, none, some, arith, ==_refl}
use zk_wsp.Common.Store.{Store, update}
use zk_wsp.Common.Write.Laws.{IsSound}
use zk_wsp.Client.Config.{Config}
use zk_wsp.Client.Pool.{Pool}
use zk_wsp.Client.Pool.Bounds.{IsWithin}
use zk_wsp.Client.Locks.{
  Pc, resting, releasing, offering, getting, receiving, taking, removing, closing, connecting,
  dialing, stopping, closing_all, panicked, State, go, IsEntry,
}
use zk_wsp.Client.Locks.Owners.{IsOwned, kept-IsOwned, locked-IsOwned, unlocked-IsOwned}

-- Under the pool's lock
abbrev pub holds_pool : Pc → Bool
holds_pool receiving = true
holds_pool (taking i) = true
holds_pool dialing = true
holds_pool (closing_all cs) = true
holds_pool resting = false
holds_pool (releasing i) = false
holds_pool (offering i) = false
holds_pool getting = false
holds_pool (removing c) = false
holds_pool (closing c) = false
holds_pool connecting = false
holds_pool stopping = false
holds_pool panicked = false

-- Under the lock of the write connection `i`
abbrev pub holds_conn : ℕ → Pc → Bool
holds_conn i (offering j) = j == i
holds_conn i receiving = false
holds_conn i (taking j) = false
holds_conn i dialing = false
holds_conn i (closing_all cs) = false
holds_conn i resting = false
holds_conn i (releasing j) = false
holds_conn i getting = false
holds_conn i (removing c) = false
holds_conn i (closing c) = false
holds_conn i connecting = false
holds_conn i stopping = false
holds_conn i panicked = false

pub record Inv (config : Config) (s : State) : Type 0 where
  pub sound : IsSound s.store
  pub within : IsWithin config s.pool
  pub pool_owned : IsOwned holds_pool s.pc s.pool_lock
  pub conn_owned : (i : ℕ) → IsOwned (holds_conn i) s.pc (s.conn_locks i)

pub IsEntry-unlocked :
    (c : Pc) → IsEntry c → (holds_pool c ≡ false) × ((i : ℕ) → holds_conn i c ≡ false)
IsEntry-unlocked (releasing i) e = (refl, λ i. refl)
IsEntry-unlocked getting e = (refl, λ i. refl)
IsEntry-unlocked (removing c) e = (refl, λ i. refl)
IsEntry-unlocked (closing c) e = (refl, λ i. refl)
IsEntry-unlocked connecting e = (refl, λ i. refl)
IsEntry-unlocked stopping e = (refl, λ i. refl)
IsEntry-unlocked resting e = elim e [ ]
IsEntry-unlocked (offering i) e = elim e [ ]
IsEntry-unlocked receiving e = elim e [ ]
IsEntry-unlocked (taking i) e = elim e [ ]
IsEntry-unlocked dialing e = elim e [ ]
IsEntry-unlocked (closing_all cs) e = elim e [ ]
IsEntry-unlocked panicked e = elim e [ ]

module _ (config : Config) (s : State) (v : Inv config s) (t : ℕ) (a c : Pc) (at : s.pc t ≡ a)
    (st : Store) (w : IsSound st) (p : Pool) (b : IsWithin config p) where
  -- The goroutine goes from `a` to `c` and leaves the pool's lock as it is, takes it, or gives it back.
  pub moved :
      holds_pool c ≡ holds_pool a
      → ((i : ℕ) → holds_conn i c ≡ holds_conn i a)
      → Inv config (go t c (record s { store = st; pool = p }))
  moved h k = record {
    sound = w;
    within = b;
    pool_owned = kept-IsOwned holds_pool s.pc s.pool_lock t c v.pool_owned (rw at h);
    conn_owned =
        λ i. kept-IsOwned (holds_conn i) s.pc (s.conn_locks i) t c (v.conn_owned i) (rw at (k i));
  }

  pub locked :
      s.pool_lock ≡ none
      → holds_pool c ≡ true
      → ((i : ℕ) → holds_conn i c ≡ holds_conn i a)
      → Inv config (go t c (record s { store = st; pool = p; pool_lock = some t }))
  locked n h k = record {
    sound = w;
    within = b;
    pool_owned = locked-IsOwned holds_pool s.pc s.pool_lock t c v.pool_owned n h;
    conn_owned =
        λ i. kept-IsOwned (holds_conn i) s.pc (s.conn_locks i) t c (v.conn_owned i) (rw at (k i));
  }

  pub unlocked :
      holds_pool a ≡ true
      → holds_pool c ≡ false
      → ((i : ℕ) → holds_conn i c ≡ holds_conn i a)
      → Inv config (go t c (record s { store = st; pool = p; pool_lock = none }))
  unlocked g h k = record {
    sound = w;
    within = b;
    pool_owned = unlocked-IsOwned holds_pool s.pc s.pool_lock t c v.pool_owned (rw at g) h;
    conn_owned =
        λ i. kept-IsOwned (holds_conn i) s.pc (s.conn_locks i) t c (v.conn_owned i) (rw at (k i));
  }

  -- The goroutine takes the lock of the write connection `j`.
  pub conn_locked :
      (j : ℕ)
      → s.conn_locks j ≡ none
      → holds_pool a ≡ false
      → ((i : ℕ) → holds_conn i a ≡ false)
      → c ≡ offering j
      → Inv config
          (go t c (record s { store = st; pool = p; conn_locks = update s.conn_locks j (some t) }))
  conn_locked j n h k e = record {
    sound = w;
    within = b;
    pool_owned = kept-IsOwned holds_pool s.pc s.pool_lock t c v.pool_owned (rw (e, at) (sym h));
    conn_owned = λ i u. ground (arith, v.conn_owned i u, v.conn_owned i t, k i, ==_refl j);
  }

  pub conn_unlocked :
      (j : ℕ)
      → a ≡ offering j
      → holds_pool c ≡ false
      → ((i : ℕ) → holds_conn i c ≡ false)
      → Inv config
          (go t c (record s { store = st; pool = p; conn_locks = update s.conn_locks j none }))
  conn_unlocked j e h k = record {
    sound = w;
    within = b;
    pool_owned = kept-IsOwned holds_pool s.pc s.pool_lock t c v.pool_owned (rw (at, e) h);
    conn_owned = λ i u. ground (arith, v.conn_owned i u, v.conn_owned i t, k i, ==_refl j);
  }
