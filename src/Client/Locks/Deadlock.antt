-- ===== src/Client/Locks/Deadlock.antt =====
-- How `Shutdown` of client/pool.go and `Release` of common/writeConnection.go can wait for each other.
use zk_wsp.Prelude.{
  ℕ, ◌≡◌, ◌≢◌, ◌≤◌, ◌==◌, refl, sym, true, some, List, [], ◌∷◌, length, ==_iff, ==_refl, Bool-cases,
  inl, inr, ◌∙◌, ap, subst,
}
use zk_wsp.Outcome.{ok}
use zk_wsp.Common.Store.{Connection, write_conn, update}
use zk_wsp.Common.Pool.{send, send-blocked}
use zk_wsp.Client.Config.{Config}
use zk_wsp.Client.Locks.{
  Pc, offering, getting, closing_all, State, Step, Steps, done, then_, begin, release_closed,
  release_open, offer, get, receive, time_out, take_it, remove_it, close_it, connect, connected,
  stop, stop_again, close_next, stopped, resting, releasing, receiving, taking, closing, dialing,
  IsFree,
}
use zk_wsp.Client.Locks.Owners.{owner, one_owner}
use zk_wsp.Client.Locks.Moves.{Inv, holds_pool, holds_conn}
use zk_wsp.Client.Locks.Invariant.{Steps-Inv, IsStart, IsStart-Inv}

-- A goroutine that stands elsewhere is not moved.
unmoved : (pc : ℕ → Pc) (w t : ℕ) (a b c : Pc) → pc w ≡ a → pc t ≡ b → a ≢ b → update pc w c t ≡ b
unmoved pc w t a b c x y n = elim (Bool-cases (w == t)) [
  | inl e ↦ absurd (n (sym x ∙ ap pc ((==_iff w t).0 e) ∙ y))
  | inr e ↦ rw e y
]

module _ (config : Config) (i t u w : ℕ) (cs : List Connection) where
  -- `t` is in `Release` at the send on the full channel, and `u` in `Shutdown` before `Close` of the
  -- same connection; `w` asks for an idle connection.
  pub record Deadlocked (s : State) : Type 0 where
    pub offers : s.pc t ≡ offering i
    pub full : s.pool.capacity ≤ length s.pool.idle
    pub shuts : s.pc u ≡ closing_all (write_conn i ∷ cs)
    pub asks : s.pc w ≡ getting

  module _ (s : State) (v : Inv config s) (k : Deadlocked s) where
    pool_locked : s.pool_lock ≡ some u
    pool_locked = owner holds_pool s.pc s.pool_lock u resting v.pool_owned (rw k.shuts refl)

    conn_locked : s.conn_locks i ≡ some t
    conn_locked =
        owner (holds_conn i) s.pc (s.conn_locks i) t resting (v.conn_owned i)
          (rw k.offers (==_refl i))

    -- A goroutine under the pool's lock is `u`.
    holder :
        (x : ℕ) (a : Pc) → s.pc x ≡ a → holds_pool a ≡ true → a ≡ closing_all (write_conn i ∷ cs)
    holder x a e h =
        sym e
        ∙ ap s.pc
            (one_owner holds_pool s.pc s.pool_lock v.pool_owned x u (rw e h) (rw k.shuts refl))
        ∙ k.shuts

    -- A step of a goroutine that is none of the three
    aside :
        (x : ℕ) (a c : Pc)
        → s.pc x ≡ a
        → a ≢ offering i
        → a ≢ closing_all (write_conn i ∷ cs)
        → a ≢ getting
        → (update s.pc x c t ≡ offering i)
          × (update s.pc x c u ≡ closing_all (write_conn i ∷ cs))
          × (update s.pc x c w ≡ getting)
    aside x a c e n m o = (
      unmoved s.pc x t a (offering i) c e k.offers n,
      unmoved s.pc x u a (closing_all (write_conn i ∷ cs)) c e k.shuts m,
      unmoved s.pc x w a getting c e k.asks o,
    )

    no_room : (j : ℕ) (q : List ℕ) → send s.pool.capacity s.pool.idle j ≢ ok q
    no_room j q e = let b = send-blocked s.pool.capacity s.pool.idle j k.full in cc

  Step-Deadlocked :
      {s : State} {x : ℕ} {s' : State}
      → Step config s x s'
      → Inv config s
      → Deadlocked s
      → Deadlocked s'
  Step-Deadlocked {s} {x} (begin c at e) v k =
      let (a, b, d) = aside s v k x resting c at (λ e. cc) (λ e. cc) (λ e. cc) in
      record { offers = a; full = k.full; shuts = b; asks = d }
  Step-Deadlocked {s} {x} (release_closed {i = j} at f e) v k =
      let (a, b, d) = aside s v k x (releasing j) resting at (λ e. cc) (λ e. cc) (λ e. cc) in
      record { offers = a; full = k.full; shuts = b; asks = d }
  Step-Deadlocked {s} {x} (release_open now {i = j} at f o) v k =
      let (a, b, d) = aside s v k x (releasing j) (offering j) at (λ e. cc) (λ e. cc) (λ e. cc) in
      record { offers = a; full = k.full; shuts = b; asks = d }
  Step-Deadlocked {s} {x} (offer {i = j} {q} at e) v k = absurd (no_room s v k j q e)
  Step-Deadlocked {s} {x} (get at f) v k = let l = pool_locked s v k in cc
  Step-Deadlocked {s} {x} (receive at e) v k = let l = holder s v k x receiving at refl in cc
  Step-Deadlocked {s} {x} (time_out at) v k = let l = holder s v k x receiving at refl in cc
  Step-Deadlocked {s} {x} (take_it {i = j} at f) v k =
      let l = holder s v k x (taking j) at refl in cc
  Step-Deadlocked {s} {x} (remove_it at f) v k = let l = pool_locked s v k in cc
  Step-Deadlocked {s} {x} (close_it {c} at f e) v k =
      let (a, b, d) = aside s v k x (closing c) resting at (λ e. cc) (λ e. cc) (λ e. cc) in
      record { offers = a; full = k.full; shuts = b; asks = d }
  Step-Deadlocked {s} {x} (connect at f) v k = let l = pool_locked s v k in cc
  Step-Deadlocked {s} {x} (connected dials at e) v k = let l = holder s v k x dialing at refl in cc
  Step-Deadlocked {s} {x} (stop at f d) v k = let l = pool_locked s v k in cc
  Step-Deadlocked {s} {x} (stop_again at f d) v k = let l = pool_locked s v k in cc
  Step-Deadlocked {s} {x} (close_next {c} {cs = ds} at f e) v k =
      let l = holder s v k x (closing_all (c ∷ ds)) at refl in
      let same : c ≡ write_conn i = cc in
      let g = subst (λ d. IsFree d s) same f in let l' = conn_locked s v k in cc
  Step-Deadlocked {s} {x} (stopped at) v k = let l = holder s v k x (closing_all []) at refl in cc

  Steps-Deadlocked :
      {s s' : State} → Steps config s s' → Inv config s → Deadlocked s → Deadlocked s'
  Steps-Deadlocked done v k = k
  Steps-Deadlocked (then_ es e) v k =
      Step-Deadlocked e (Steps-Inv config es v) (Steps-Deadlocked es v k)

  -- A deadlock: let the goroutines start with sound connections and a pool within its bounds, and get
  -- to where one of them, in `Release` of a connection, sends on the full channel, another one, in
  -- `Shutdown`, is about to close this connection, and a third one is about to take the pool's lock in
  -- `GetIdleWriteConnection`. Then all three stay there, whatever the goroutines do.
  pub Deadlocked-stays :
      {a b c : State}
      → IsStart config a
      → Steps config a b
      → Deadlocked b
      → Steps config b c
      → Deadlocked c
  Deadlocked-stays {a} start es k fs =
      Steps-Deadlocked fs (Steps-Inv config es (IsStart-Inv config a start)) k
