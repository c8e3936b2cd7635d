-- ===== src/Common/Pool.antt =====
-- common/types.go: the interface `ConnectionPool`, as a record of operations over the pool's own
-- state, and Go's buffered channel, in which a pool keeps its idle connections.
use zk_wsp.Prelude.{ℕ, ◌<◌, ◌≤◌, ◌≡◌, List, [], ◌∷◌, ◌++◌, arith, ltb, if◌then◌else◌, length}
use zk_wsp.Prelude.Int.{ℤ, pos, negsuc}
use zk_wsp.Outcome.{Outcome, ok, blocked, panic}
use zk_wsp.Common.Store.{Connection}

-- `make(chan T, n)` panics at a negative size.
abbrev pub make_chan : ℤ → Outcome ℕ
make_chan (pos n) = ok n
make_chan (negsuc n) = panic

-- `ch <- x` on a channel with room for `capacity` values that nobody receives from meanwhile.
unfoldable pub send : ℕ → List ℕ → ℕ → Outcome (List ℕ)
send capacity queue x = if ltb (length queue) capacity then ok (queue ++ x ∷ []) else blocked

pub send-ok :
    (capacity : ℕ) (queue : List ℕ) (x : ℕ)
    → length queue < capacity
    → send capacity queue x ≡ ok (queue ++ x ∷ [])
unfolding send
send-ok capacity queue x h = ground arith

pub send-blocked :
    (capacity : ℕ) (queue : List ℕ) (x : ℕ)
    → capacity ≤ length queue
    → send capacity queue x ≡ blocked
unfolding send
send-blocked capacity queue x h = ground arith

-- What a connection calls of its pool.
pub record ConnectionPool (P : Type 0) : Type 0 where
  pub offer : ℕ → P → Outcome P
  pub remove : Connection → P → P

-- What a connection relies on: an offer queues the connection in the pool's channel, and waits if
-- that is full.
pub record IsConnectionPool {P : Type 0} (ops : ConnectionPool P) : Type 0 where
  pub idle : P → List ℕ
  pub capacity : P → ℕ
  pub offer-room : (i : ℕ) (p : P) → length (idle p) < capacity p → record {
    after : P;
    offered : ops.offer i p ≡ ok after;
    queued : idle after ≡ idle p ++ i ∷ [];
    same_capacity : capacity after ≡ capacity p;
  }
  pub offer-full : (i : ℕ) (p : P) → capacity p ≤ length (idle p) → ops.offer i p ≡ blocked
