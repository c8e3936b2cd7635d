-- ===== src/Client/Locks/Owners.antt =====
-- A lock and the goroutines: who stands where a lock is held, holds it, and nobody else.
use zk_wsp.Prelude.{ℕ, ◌≡◌, ◌==◌, Bool, true, false, Option, none, some, arith}
use zk_wsp.Common.Store.{update}
use zk_wsp.Client.Locks.{Pc}

abbrev pub is_owner : ℕ → Option ℕ → Bool
is_owner t none = false
is_owner t (some u) = u == t

-- The lock is held by the goroutine that stands where `holds` is true.
abbrev pub IsOwned : (Pc → Bool) → (ℕ → Pc) → Option ℕ → Type 0
IsOwned holds pc lock = (t : ℕ) → holds (pc t) ≡ is_owner t lock

module _ (holds : Pc → Bool) (pc : ℕ → Pc) (lock : Option ℕ) (t : ℕ) (c : Pc) where
  pub kept-IsOwned :
      IsOwned holds pc lock → holds c ≡ holds (pc t) → IsOwned holds (update pc t c) lock
  kept-IsOwned o h u = ground (arith, o u, o t)

  pub locked-IsOwned :
      IsOwned holds pc lock → lock ≡ none → holds c ≡ true → IsOwned holds (update pc t c) (some t)
  locked-IsOwned o n h u = ground (arith, o u, o t)

  pub owner : IsOwned holds pc lock → holds (pc t) ≡ true → lock ≡ some t
  owner o h = ground (arith, o t)

  pub unlocked-IsOwned :
      IsOwned holds pc lock
      → holds (pc t) ≡ true
      → holds c ≡ false
      → IsOwned holds (update pc t c) none
  unlocked-IsOwned o h k u = ground (arith, o u, o t)

-- Two goroutines that hold the lock are one.
pub one_owner :
    (holds : Pc → Bool) (pc : ℕ → Pc) (lock : Option ℕ)
    → IsOwned holds pc lock
    → (t u : ℕ) → holds (pc t) ≡ true
    → holds (pc u) ≡ true
    → t ≡ u
one_owner holds pc lock o t u a b = ground (arith, o t, o u)
