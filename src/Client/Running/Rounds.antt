-- ===== src/Client/Running/Rounds.antt =====
-- A turn of the loop among the other calls: client/pool.go, `Start` and `startInternal`.
use zk_wsp.Prelude.{
  ℕ, ◌≡◌, ◌&&◌, refl, inl, inr, true, false, Bool, Option, none, some, List, if◌then◌else◌, subst,
  ◌∙◌,
}
use zk_wsp.Outcome.{
  ok, panic, Returns, Returns->>=, of_Returns, Succeeds, Succeeds->>=, ◌>>=◌, Succeeds-Returns,
}
use zk_wsp.Common.Store.{Connection, Store}
use zk_wsp.Common.Write.Laws.{IsSound}
use zk_wsp.Client.Config.{Config}
use zk_wsp.Client.Pool.{
  Pool, Dial, ConnectError, invalid_cluster_key, not_dialed, greeting_failed, connector,
  default_interval, shutdown,
}
use zk_wsp.Client.Pool.Bounds.{IsWithin, connector-IsKept, IsKept}
use zk_wsp.Client.Handlers.{Client, set_pool, start_internal, after_connector, reset_ticker}
use zk_wsp.Client.Handlers.Retry.{
  IsPaced, IsRound, back_off-IsPaced, positive, start_internal-IsRound,
}
use zk_wsp.Client.Running.{Running, Tick, turn}
use zk_wsp.Client.Running.Handling.{IsPooled, IsBetween}

-- `Shutdown` closes the channel `done` a second time.
pub shutdown-panics : (s : Store) (p : Pool) → p.done ≡ true → shutdown s p ≡ panic
unfolding shutdown
shutdown-panics s p d = simp (d) refl

module _ (c : Client) (j : IsPaced c.config (default_interval c.config)) where
  reset-again :
      (s : Store) (p : Pool) (spawned : List Connection)
      → IsSound s
      → IsWithin c.config p
      → IsPaced c.config p.retry_interval
      → p.done ≡ true
      → c.killed ≡ true
      → Returns (IsRound c.config) (reset_ticker s p spawned c)
  unfolding reset_ticker
  reset-again s p spawned v h i d k = rw (positive p.retry_interval i.0) (v, h, i, refl, inr (d, k))

  after_connector-again :
      (err : Option ConnectError) (s : Store) (p : Pool) (spawned : List Connection)
      → IsSound s
      → IsWithin c.config p
      → IsPaced c.config p.retry_interval
      → p.done ≡ true
      → c.killed ≡ true
      → Returns (IsRound c.config) (after_connector (err, s, p, spawned) c)
  unfolding after_connector
  after_connector-again none s p spawned v h i d k = reset-again s _ spawned v h j d k
  after_connector-again (some not_dialed) s p spawned v h i d k =
      reset-again s _ spawned v h (back_off-IsPaced c.config p.retry_interval i) d k
  after_connector-again (some greeting_failed) s p spawned v h i d k =
      reset-again s _ spawned v h (back_off-IsPaced c.config p.retry_interval i) d k
  after_connector-again (some invalid_cluster_key) s p spawned v h i d k =
      rw (shutdown-panics s p d) tt

  -- A round that the loop begins although the pool is shut down
  start_internal-again :
      (dials : ℕ → Dial) (s : Store) (p : Pool)
      → IsSound s
      → IsWithin c.config p
      → IsPaced c.config p.retry_interval
      → p.done ≡ true
      → c.killed ≡ true
      → Returns (IsRound c.config) (start_internal dials s p c)
  unfolding start_internal
  start_internal-again dials s p v h i d k =
      Returns->>= (IsRound c.config) (connector c.config dials s p) _ λ (err, s', p', spawned) got.
        let (w, h', r, m) =
          of_Returns (IsKept c.config p) (connector c.config dials s p)
            (Succeeds-Returns (IsKept c.config p) (connector c.config dials s p)
              (connector-IsKept c.config dials s p v h))
            got in
        after_connector-again err s' p' spawned w h' (rw r i) (m ∙ d) k

-- What a turn of the loop leaves
abbrev pub IsTurn : Config → Running → Type 0
IsTurn config (_, s, c) = IsBetween config (s, c)

module _ (config : Config) (t : Tick) (s : Store) (c : Client) (p : Pool)
    (j : IsPaced config (default_interval config)) (v : IsSound s) (e : c.config ≡ config) where
  settled :
      (x : Store × Pool × List Connection × Client)
      → IsRound config x
      → IsTurn config (let (s', p', _, c') = x in (true, s', set_pool p' c'))
  settled (s', p', _, c') (w, h, i, q, o) = (w, q, (p', refl, (h, i, o)))

  begun-Succeeds :
      p.done ≡ false
      → IsPooled config c.killed p
      → Succeeds (IsRound config) (start_internal t.dials s p c)
  begun-Succeeds d (h, i, o) =
      subst
        (λ x.
          IsWithin x p
          → IsPaced x p.retry_interval
          → IsPaced x (default_interval x)
          → Succeeds (IsRound x) (start_internal t.dials s p c))
        e (λ h' i' j'. start_internal-IsRound t.dials s p c v h' i' j' d) h i j

  begun-again :
      p.done ≡ true
      → c.killed ≡ true
      → IsPooled config c.killed p
      → Returns (IsRound config) (start_internal t.dials s p c)
  begun-again d k (h, i, o) =
      subst
        (λ x.
          IsWithin x p
          → IsPaced x p.retry_interval
          → IsPaced x (default_interval x)
          → Returns (IsRound x) (start_internal t.dials s p c))
        e (λ h' i' j'. start_internal-again c j' t.dials s p v h' i' d k) h i j

  begun-Returns :
      IsPooled config c.killed p → Returns (IsRound config) (start_internal t.dials s p c)
  begun-Returns (h, i, inl d) =
      Succeeds-Returns (IsRound config) (start_internal t.dials s p c)
        (begun-Succeeds d (h, i, inl d))
  begun-Returns (h, i, inr (d, k)) = begun-again d k (h, i, inr (d, k))

  as_before : c.pool ≡ some p → IsPooled config c.killed p → IsBetween config (s, c)
  as_before a g = (v, e, (p, a, g))

  -- The loop takes `done`, or begins a round.
  by_quits :
      (b : Bool)
      → c.pool ≡ some p
      → IsPooled config c.killed p
      → Returns (IsTurn config) (
          if b
          then ok (false, s, c)
          else (start_internal t.dials s p c >>= λ (s', p', _, c'). ok (true, s', set_pool p' c')))
  by_quits true a g = as_before a g
  by_quits false a g = Returns->>= (IsTurn config) (start_internal t.dials s p c) _ λ x got.
      settled x (of_Returns (IsRound config) (start_internal t.dials s p c) (begun-Returns g) got)

  pub turn-IsTurn :
      (o : Option Pool)
      → o ≡ some p
      → c.pool ≡ some p
      → IsPooled config c.killed p
      → Returns (IsTurn config) (turn t s c o)
  unfolding turn
  turn-IsTurn o h a g = rw h (by_quits (p.done && t.quits) a g)

  -- The turn returns if the loop stops once the pool is shut down.
  pub turn-Succeeds :
      (o : Option Pool)
      → o ≡ some p
      → c.pool ≡ some p
      → t.quits ≡ true
      → IsPooled config c.killed p
      → Succeeds (IsTurn config) (turn t s c o)
  unfolding turn
  turn-Succeeds o h a q (w, i, inl d) =
      simp (h, d)
        (Succeeds->>= (IsRound config) (IsTurn config) (start_internal t.dials s p c) _
          (begun-Succeeds d (w, i, inl d)) λ x got r. settled x r)
  turn-Succeeds o h a q (w, i, inr (d, k)) = simp (h, d, q) (as_before a (w, i, inr (d, k)))
