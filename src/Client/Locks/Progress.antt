-- ===== src/Client/Locks/Progress.antt =====
-- The goroutines do not deadlock while the channel of the pool has room.
use zk_wsp.Prelude.{
  ℕ, ◌≡◌, ◌<◌, refl, ◌∙◌, Bool, true, false, none, List, [], ◌∷◌, length, ==_refl, Option-cases,
  Bool-cases, inl, inr,
}
use zk_wsp.Outcome.{ok, Outcome, Succeeds}
use zk_wsp.Common.Types.{is_closed}
use zk_wsp.Common.Store.{Connection, read_conn, write_conn}
use zk_wsp.Common.Pool.{send-ok}
use zk_wsp.Common.Read.Laws.{close_connection-ok}
use zk_wsp.Client.Config.{Config}
use zk_wsp.Client.Pool.{Dial, connector}
use zk_wsp.Client.Pool.Bounds.{IsKept, connector-IsKept}
use zk_wsp.Client.Locks.{
  Pc, State, Step, Steps, IsFree, release_closed, release_open, offer, get, time_out, take_it,
  remove_it, close_it, connect, connected, stop, stop_again, close_next, stopped, resting,
  releasing, offering, getting, receiving, taking, removing, closing, connecting, dialing, stopping,
  closing_all, panicked,
}
use zk_wsp.Client.Locks.Moves.{Inv, holds_pool, holds_conn}
use zk_wsp.Client.Locks.Invariant.{Steps-Inv, IsStart, IsStart-Inv}

-- In one of the methods
abbrev pub is_active : Pc → Bool
is_active resting = false
is_active panicked = false
is_active (releasing i) = true
is_active (offering i) = true
is_active getting = true
is_active receiving = true
is_active (taking i) = true
is_active (removing c) = true
is_active (closing c) = true
is_active connecting = true
is_active dialing = true
is_active stopping = true
is_active (closing_all cs) = true

holds_conn-offering : (i : ℕ) (a : Pc) → holds_conn i a ≡ true → (j : ℕ) × (a ≡ offering j)
holds_conn-offering i (offering j) h = (j, refl)
holds_conn-offering i resting h = cc
holds_conn-offering i (releasing j) h = cc
holds_conn-offering i getting h = cc
holds_conn-offering i receiving h = cc
holds_conn-offering i (taking j) h = cc
holds_conn-offering i (removing c) h = cc
holds_conn-offering i (closing c) h = cc
holds_conn-offering i connecting h = cc
holds_conn-offering i dialing h = cc
holds_conn-offering i stopping h = cc
holds_conn-offering i (closing_all cs) h = cc
holds_conn-offering i panicked h = cc

abbrev unanswered : ℕ → Dial
unanswered i = record { response_code = none; ws = none; write_message = λ _. false }

result : {A : Type 0} (P : A → Type 0) (m : Outcome A) → Succeeds P m → (a : A) × (m ≡ ok a)
result P (ok a) h = (a, refl)
result P Outcome.blocked h = elim h [ ]
result P Outcome.panic h = elim h [ ]

module _ (config : Config) (s : State) where
  -- Some goroutine that is in a method can take a step.
  abbrev pub Goes : Type 0
  Goes = (u : ℕ) × (s' : State) × (is_active (s.pc u) ≡ true) × Step config s u s'

  module _ (v : Inv config s) (room : length s.pool.idle < s.pool.capacity) where
    offering-goes : (t i : ℕ) → s.pc t ≡ offering i → Goes
    offering-goes t i at = (t, _, rw at refl, offer at (send-ok s.pool.capacity s.pool.idle i room))

    -- A goroutine that waits for the lock of a write connection
    with_conn : (i : ℕ) → (s.conn_locks i ≡ none → Goes) → Goes
    with_conn i k = elim (Option-cases (s.conn_locks i)) [
      | inl e ↦ k e
      | inr (x, e) ↦
          let (j, at) = holds_conn-offering i (s.pc x) (v.conn_owned i x ∙ rw e (==_refl x)) in
          offering-goes x j at
    ]

    -- A goroutine that waits for the lock of a connection
    with_free : (c : Connection) → (IsFree c s → Goes) → Goes
    with_free (read_conn i) k = k tt
    with_free (write_conn i) k = with_conn i k

    closing-goes : (t : ℕ) (cs : List Connection) → s.pc t ≡ closing_all cs → Goes
    closing-goes t [] at = (t, _, rw at refl, stopped at)
    closing-goes t (c ∷ cs) at =
        with_free c λ f. (t, _, rw at refl, close_next at f (close_connection-ok c s.store v.sound))

    dialing-goes : (t : ℕ) → s.pc t ≡ dialing → Goes
    dialing-goes t at =
        let (x, e) =
          result (IsKept config s.pool) (connector config unanswered s.store s.pool)
            (connector-IsKept config unanswered s.store s.pool v.sound v.within) in
        (t, _, rw at refl, connected unanswered at e)

    taking-goes : (t i : ℕ) → s.pc t ≡ taking i → Goes
    taking-goes t i at = with_conn i λ f. (t, _, rw at refl, take_it at f)

    holder-goes : (t : ℕ) (a : Pc) → s.pc t ≡ a → holds_pool a ≡ true → Goes
    holder-goes t receiving at h = (t, _, rw at refl, time_out at)
    holder-goes t (taking i) at h = taking-goes t i at
    holder-goes t dialing at h = dialing-goes t at
    holder-goes t (closing_all cs) at h = closing-goes t cs at
    holder-goes t resting at h = cc
    holder-goes t (releasing j) at h = cc
    holder-goes t (offering j) at h = cc
    holder-goes t getting at h = cc
    holder-goes t (removing c) at h = cc
    holder-goes t (closing c) at h = cc
    holder-goes t connecting at h = cc
    holder-goes t stopping at h = cc
    holder-goes t panicked at h = cc

    -- A goroutine that waits for the pool's lock
    with_pool : (s.pool_lock ≡ none → Goes) → Goes
    with_pool k = elim (Option-cases s.pool_lock) [
      | inl e ↦ k e
      | inr (x, e) ↦ holder-goes x (s.pc x) refl (v.pool_owned x ∙ rw e (==_refl x))
    ]

    releasing-goes : (t i : ℕ) → s.pc t ≡ releasing i → Goes
    releasing-goes t i at = with_conn i λ f.
        elim (Bool-cases (is_closed (s.store.writes i).status)) [
          | inl c ↦ (t, _, rw at refl, release_closed at f c)
          | inr o ↦ (t, _, rw at refl, release_open 0 at f o)
        ]

    stopping-goes : (t : ℕ) → s.pc t ≡ stopping → Goes
    stopping-goes t at = with_pool λ f. elim (Bool-cases s.pool.done) [
      | inl d ↦ (t, _, rw at refl, stop_again at f d)
      | inr d ↦ (t, _, rw at refl, stop at f d)
    ]

    active-goes : (t : ℕ) (a : Pc) → s.pc t ≡ a → is_active a ≡ true → Goes
    active-goes t resting at h = cc
    active-goes t panicked at h = cc
    active-goes t (releasing i) at h = releasing-goes t i at
    active-goes t (offering i) at h = offering-goes t i at
    active-goes t getting at h = with_pool λ f. (t, _, rw at refl, get at f)
    active-goes t receiving at h = (t, _, rw at refl, time_out at)
    active-goes t (taking i) at h = taking-goes t i at
    active-goes t (removing c) at h = with_pool λ f. (t, _, rw at refl, remove_it at f)
    active-goes t (closing c) at h =
        with_free c λ f. (t, _, rw at refl, close_it at f (close_connection-ok c s.store v.sound))
    active-goes t connecting at h = with_pool λ f. (t, _, rw at refl, connect at f)
    active-goes t dialing at h = dialing-goes t at
    active-goes t stopping at h = stopping-goes t at
    active-goes t (closing_all cs) at h = closing-goes t cs at

-- From a start with sound connections and a pool within its bounds, where the sizes of the configuration
-- are within 2 ^ 62 and `PoolMaxSize` is not negative, after any steps of the goroutines:
-- if the channel has room and some goroutine is in one of the methods, then some goroutine that is in
-- one of the methods can take a step. So the locks alone never make all of them wait for each other.
pub Steps-progress :
    (config : Config) {s s' : State}
    → IsStart config s
    → Steps config s s'
    → length s'.pool.idle < s'.pool.capacity
    → (t : ℕ) → is_active (s'.pc t) ≡ true
    → Goes config s'
Steps-progress config {s} {s'} b es room t h =
    active-goes config s' (Steps-Inv config es (IsStart-Inv config s b)) room t (s'.pc t) refl h
