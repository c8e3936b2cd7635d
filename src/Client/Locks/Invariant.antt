-- ===== src/Client/Locks/Invariant.antt =====
-- What every step keeps: the locks are held by the goroutines that stand under them, the connections
-- are sound and the pool is within its bounds.
use zk_wsp.Prelude.{
  ℕ, ◌≡◌, refl, ◌==◌, Bool, true, false, none, [], ◌∷◌, arith, ==_refl, length-keep-le,
  if◌then◌else◌, not,
}
use zk_wsp.Outcome.{ok, Succeeds-Returns, of_Returns}
use zk_wsp.Common.Types.{is_closed, is_idle}
use zk_wsp.Common.Store.{Store, Connection, read_conn, write_conn}
use zk_wsp.Common.Write.{take}
use zk_wsp.Common.Write.Laws.{IsSound, take-Keeps}
use zk_wsp.Common.Read.{close_connection}
use zk_wsp.Common.Read.Laws.{close_connection-ok, shut_connection-IsSound}
use zk_wsp.Client.Config.{Config}
use zk_wsp.Client.Pool.{Pool, Created, Dial, connector, remove, remove_without_lock}
use zk_wsp.Client.Pool.Bounds.{IsWithin, IsKept, connector-IsKept}
use zk_wsp.Client.Locks.{
  resting, releasing, offering, getting, receiving, taking, removing, closing, connecting, dialing,
  stopping, closing_all, panicked, State, idled, Step, Steps, done, then_, begin, release_closed,
  release_open, offer, get, receive, time_out, take_it, remove_it, close_it, connect, connected,
  stop, stop_again, close_next, stopped, begin, then_, release_closed, release_open, offer, get,
  receive, time_out, take_it,
}
use zk_wsp.Client.Locks.Owners.{one_owner}
use zk_wsp.Client.Locks.Moves.{
  holds_pool, holds_conn, Inv, IsEntry-unlocked, moved, locked, unlocked, conn_locked,
  conn_unlocked,
}

idled-IsSound :
    (now i : ℕ) (s : Store)
    → IsSound s
    → is_closed (s.writes i).status ≡ false
    → IsSound (idled now i s)
idled-IsSound now i s v o j = ground (arith, v i, v j)

closed-IsSound :
    (c : Connection) (s s' : Store) → IsSound s → close_connection c s ≡ ok s' → IsSound s'
closed-IsSound c s s' v e =
    of_Returns IsSound (close_connection c s)
      (rw (close_connection-ok c s v) (shut_connection-IsSound c s v)) e

remove-IsWithin :
    (config : Config) (c : Connection) (p : Pool) → IsWithin config p → IsWithin config (remove c p)
unfolding remove_without_lock
remove-IsWithin config (read_conn i) p (a, b, c) =
    (omega (arith, length-keep-le (λ j. not (j == i)) p.read_connections), b, c)
remove-IsWithin config (write_conn i) p (a, b, c) =
    (a, omega (arith, length-keep-le (λ j. not (j == i)) p.write_connections), c)

connected-IsKept :
    (config : Config) (dials : ℕ → Dial) (s : Store) (p : Pool) (x : Created)
    → IsSound s
    → IsWithin config p
    → connector config dials s p ≡ ok x
    → IsKept config p x
connected-IsKept config dials s p x v h e =
    of_Returns (IsKept config p) (connector config dials s p)
      (Succeeds-Returns (IsKept config p) (connector config dials s p)
        (connector-IsKept config dials s p v h))
      e

module _ (config : Config) where
  received-holds : (b : Bool) (i : ℕ) → holds_pool (if b then taking i else receiving) ≡ true
  received-holds true i = refl
  received-holds false i = refl

  received-conn : (b : Bool) (i j : ℕ) → holds_conn j (if b then taking i else receiving) ≡ false
  received-conn true i j = refl
  received-conn false i j = refl

  pub Step-Inv :
      {s : State} {t : ℕ} {s' : State} → Step config s t s' → Inv config s → Inv config s'
  Step-Inv {s} {t = t} (begin c at e) v =
      let (h, k) = IsEntry-unlocked c e in
      moved config s v t resting c at s.store v.sound s.pool v.within h k
  Step-Inv {s} {t = t} (release_closed {i} at f e) v =
      moved config s v t (releasing i) resting at s.store v.sound s.pool v.within refl (λ j. refl)
  Step-Inv {s} {t = t} (release_open now {i} at f o) v =
      conn_locked config s v t (releasing i) (offering i) at (idled now i s.store)
        (idled-IsSound now i s.store v.sound o) s.pool v.within i f refl (λ j. refl) refl
  Step-Inv {s} {t = t} (offer {i} {q} at e) v =
      conn_unlocked config s v t (offering i) resting at s.store v.sound
        (record s.pool { idle = q }) v.within i refl refl (λ j. refl)
  Step-Inv {s} {t = t} (get at f) v =
      locked config s v t getting receiving at s.store v.sound s.pool v.within f refl (λ j. refl)
  Step-Inv {s} {t = t} (receive {i} {q} at e) v =
      moved config s v t receiving _ at s.store v.sound (record s.pool { idle = q }) v.within
        (received-holds (is_idle (s.store.writes i).status) i)
        (received-conn (is_idle (s.store.writes i).status) i)
  Step-Inv {s} {t = t} (time_out at) v =
      unlocked config s v t receiving resting at s.store v.sound s.pool v.within refl refl
        (λ j. refl)
  Step-Inv {s} {t = t} (take_it {i} at f) v =
      unlocked config s v t (taking i) resting at (take i s.store).1
        (take-Keeps i s.store v.sound).sound s.pool v.within refl refl (λ j. refl)
  Step-Inv {s} {t = t} (remove_it {c} at f) v =
      moved config s v t (removing c) resting at s.store v.sound (remove c s.pool)
        (remove-IsWithin config c s.pool v.within) refl (λ j. refl)
  Step-Inv {s} {t = t} (close_it {c} {s'} at f e) v =
      moved config s v t (closing c) resting at s' (closed-IsSound c s.store s' v.sound e) s.pool
        v.within refl (λ j. refl)
  Step-Inv {s} {t = t} (connect at f) v =
      locked config s v t connecting dialing at s.store v.sound s.pool v.within f refl (λ j. refl)
  Step-Inv {s} {t = t} (connected dials {x} at e) v =
      let (w, b, _, _) = connected-IsKept config dials s.store s.pool x v.sound v.within e in
      unlocked config s v t dialing resting at x.1 w x.2 b refl refl (λ j. refl)
  Step-Inv {s} {t = t} (stop at f d) v =
      locked config s v t stopping _ at s.store v.sound (record s.pool { done = true }) v.within f
        refl (λ j. refl)
  Step-Inv {s} {t = t} (stop_again at f d) v =
      moved config s v t stopping panicked at s.store v.sound s.pool v.within refl (λ j. refl)
  Step-Inv {s} {t = t} (close_next {c} {cs} {s'} at f e) v =
      moved config s v t (closing_all (c ∷ cs)) (closing_all cs) at s'
        (closed-IsSound c s.store s' v.sound e) s.pool v.within refl (λ j. refl)
  Step-Inv {s} {t = t} (stopped at) v =
      unlocked config s v t (closing_all []) resting at s.store v.sound
        (record s.pool { read_connections = []; write_connections = [] })
        (omega arith, omega arith, v.within.2) refl refl (λ j. refl)

  pub Steps-Inv : {s s' : State} → Steps config s s' → Inv config s → Inv config s'
  Steps-Inv done v = v
  Steps-Inv (then_ es e) v = Step-Inv e (Steps-Inv es v)

  -- Nobody has begun a method yet, and no lock is held.
  pub record IsStart (s : State) : Type 0 where
    pub sound : IsSound s.store
    pub within : IsWithin config s.pool
    pub at_rest : (t : ℕ) → s.pc t ≡ resting
    pub pool_free : s.pool_lock ≡ none
    pub conns_free : (i : ℕ) → s.conn_locks i ≡ none

  pub IsStart-Inv : (s : State) → IsStart s → Inv config s
  IsStart-Inv s b = record {
    sound = b.sound;
    within = b.within;
    pool_owned = λ t. rw (b.at_rest t, b.pool_free) refl;
    conn_owned = λ i t. rw (b.at_rest t, b.conns_free i) refl;
  }

  -- From a start on which the connections are sound, the pool is within its bounds, and the sizes of
  -- the configuration are within 2 ^ 62 and `PoolMaxSize` is not negative, whatever steps
  -- the goroutines take: two of them that stand under the pool's lock are one, two that stand under
  -- the lock of the same write connection are one, and the connections are sound and the pool is
  -- within its bounds again.
  pub Steps-exclusive :
      {s s' : State}
      → IsStart s
      → Steps config s s'
      → ((t u : ℕ) → holds_pool (s'.pc t) ≡ true → holds_pool (s'.pc u) ≡ true → t ≡ u)
        × ((i t u : ℕ) → s'.pc t ≡ offering i → s'.pc u ≡ offering i → t ≡ u)
        × IsSound s'.store
        × IsWithin config s'.pool
  Steps-exclusive {s} {s'} b es =
      let v = Steps-Inv es (IsStart-Inv s b) in
      (
        one_owner holds_pool s'.pc s'.pool_lock v.pool_owned,
        λ i t u x y.
            one_owner (holds_conn i) s'.pc (s'.conn_locks i) (v.conn_owned i) t u (rw x (==_refl i))
              (rw y (==_refl i)),
        v.sound,
        v.within,
      )
