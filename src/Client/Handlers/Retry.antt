-- ===== src/Client/Handlers/Retry.antt =====
-- The rounds in which the client connects: client/pool.go, `startInternal`.
use zk_wsp.Prelude.{
  if◌then◌else◌, ℕ, ◌≡◌, ◌∙◌, ◌⊎◌, inl, inr, refl, true, false, Option, none, some, List, [], ◌∷◌,
  arith, ◌^◌, ◌*◌,
}
use zk_wsp.Prelude.Int.{ℤ, pos, negsuc, ◌*ℤ◌, ltb_ℤ, ◌<ℤ◌, ◌≤ℤ◌, wrap-fits}
use zk_wsp.Outcome.{Succeeds, Succeeds->>=}
use zk_wsp.Common.Store.{Connection, read_conn, write_conn, Store}
use zk_wsp.Common.Read.Laws.{close_connection-ok, shut_connection-IsSound}
use zk_wsp.Common.Write.Laws.{IsSound}
use zk_wsp.Client.Config.{Config}
use zk_wsp.Client.Pool.{
  Pool, Dial, ConnectError, invalid_cluster_key, not_dialed, greeting_failed, connector, shutdown,
  close_all, conns, default_interval,
}
use zk_wsp.Client.Pool.Bounds.{IsWithin, connector-IsKept}
use zk_wsp.Client.Handlers.{
  Client, max_interval, back_off, reset_ticker, after_connector, start_internal, wrap,
}

-- An interval that the ticker takes and that is not above the maximum; twice the maximum is within
-- the range of a duration.
abbrev pub IsPaced : Config → ℤ → Type 0
IsPaced config i = (pos 0 <ℤ i) × (i ≤ℤ max_interval config) × (max_interval config <ℤ pos (2 ^ 62))

pub doubled : (n : ℕ) → pos n *ℤ pos 2 ≡ pos (n * 2)
unfolding ◌*ℤ◌
doubled n = ground arith

doubled-positive : (i : ℤ) → pos 0 <ℤ i → i <ℤ pos (2 ^ 62) → pos 0 <ℤ wrap (i *ℤ pos 2)
doubled-positive (pos n) h b =
    rw (doubled n, wrap-fits (pos (n * 2)) (omega arith) (omega arith)) (omega arith)
doubled-positive (negsuc n) h b = omega arith

capped-IsPaced :
    (config : Config) (i : ℤ)
    → pos 0 <ℤ max_interval config
    → max_interval config <ℤ pos (2 ^ 62)
    → pos 0 <ℤ i
    → IsPaced config (if ltb_ℤ (max_interval config) i then max_interval config else i)
capped-IsPaced config i m b h = ground arith

pub back_off-IsPaced :
    (config : Config) (i : ℤ) → IsPaced config i → IsPaced config (back_off config i)
back_off-IsPaced config i (a, b, m) =
    capped-IsPaced config (wrap (i *ℤ pos 2)) (omega arith) m (doubled-positive i a (omega arith))

-- What a round leaves: the client is killed, and its pool shut down, or neither.
abbrev pub IsRound : Config → Store × Pool × List Connection × Client → Type 0
IsRound config (s', p', _, c') =
    IsSound s'
    × IsWithin config p'
    × IsPaced config p'.retry_interval
    × (c'.config ≡ config)
    × ((p'.done ≡ false) ⊎ ((p'.done ≡ true) × (c'.killed ≡ true)))

close_all-IsSound :
    (cs : List Connection) (s : Store) → IsSound s → Succeeds IsSound (close_all cs s)
unfolding close_all
close_all-IsSound [] s v = v
close_all-IsSound (c ∷ cs) s v =
    rw (close_connection-ok c s v) (close_all-IsSound cs _ (shut_connection-IsSound c s v))

pub positive : (i : ℤ) → pos 0 <ℤ i → ltb_ℤ (pos 0) i ≡ true
positive i h = ground arith

-- What `Shutdown` leaves of a pool.
abbrev IsShut : Pool → Store × Pool → Type 0
IsShut p (s', p') =
    IsSound s'
    × (p'.read_connections ≡ [])
    × (p'.write_connections ≡ [])
    × (p'.retry_interval ≡ p.retry_interval)
    × (p'.done ≡ true)

shutdown-IsShut :
    (s : Store) (p : Pool) → IsSound s → p.done ≡ false → Succeeds (IsShut p) (shutdown s p)
unfolding shutdown
shutdown-IsShut s p v d =
    let rs = conns read_conn p.read_connections in
    let ws = conns write_conn p.write_connections in
    rw d (
      Succeeds->>= _ _ (close_all rs s) _ (close_all-IsSound rs s v) λ s' _ v'.
        Succeeds->>= _ _ (close_all ws s') _ (close_all-IsSound ws s' v')
          λ s'' _ v''. (v'', refl, refl, refl, refl))

reset-IsRound :
    (s : Store) (p : Pool) (started : List Connection) (c : Client)
    → IsSound s
    → IsWithin c.config p
    → IsPaced c.config p.retry_interval
    → p.done ≡ false
    → Succeeds (IsRound c.config) (reset_ticker s p started c)
unfolding reset_ticker
reset-IsRound s p started c v h i d = rw (positive p.retry_interval i.0) (v, h, i, refl, inl d)

after_connector-IsRound :
    (err : Option ConnectError) (s : Store) (p : Pool) (started : List Connection) (c : Client)
    → IsSound s
    → IsWithin c.config p
    → IsPaced c.config p.retry_interval
    → IsPaced c.config (default_interval c.config)
    → p.done ≡ false
    → Succeeds (IsRound c.config) (after_connector (err, s, p, started) c)
unfolding after_connector
after_connector-IsRound none s p started c v h i j d = reset-IsRound s _ started c v h j d
after_connector-IsRound (some not_dialed) s p started c v h i j d =
    reset-IsRound s _ started c v h (back_off-IsPaced c.config p.retry_interval i) d
after_connector-IsRound (some greeting_failed) s p started c v h i j d =
    reset-IsRound s _ started c v h (back_off-IsPaced c.config p.retry_interval i) d
after_connector-IsRound (some invalid_cluster_key) s p started c v h i j d =
    Succeeds->>= _ _ (shutdown s p) _ (shutdown-IsShut s p v d) λ (s', p') _ (w, rs, ws, r, e).
      (w, rw (rs, ws) (omega arith, omega arith, h.2), rw r i, refl, inr (e, refl))

pub start_internal-IsRound :
    (dials : ℕ → Dial) (s : Store) (p : Pool) (c : Client)
    → IsSound s
    → IsWithin c.config p
    → IsPaced c.config p.retry_interval
    → IsPaced c.config (default_interval c.config)
    → p.done ≡ false
    → Succeeds (IsRound c.config) (start_internal dials s p c)
unfolding start_internal
start_internal-IsRound dials s p c v h i j d =
    Succeeds->>= _ _ (connector c.config dials s p) _ (connector-IsKept c.config dials s p v h)
      λ (err, s', p', started) _ (w, k, r, m).
        after_connector-IsRound err s' p' started c w k (rw r i) j (m ∙ d)
