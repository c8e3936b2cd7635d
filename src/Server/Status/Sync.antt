-- ===== src/Server/Status/Sync.antt =====
-- What the periodic sync leaves behind: server/connectionStatus.go, `PeriodicSync`.
use zk_wsp.Prelude.{
  sym, subst, ltb, ◌⊎◌, ◌&&◌, ℕ, ◌≡◌, ◌∙◌, ◌≤◌, ◌<◌, ◌+◌, refl, ap, Bool, true, false, Option, none,
  some, List, [], ◌∷◌, ◌++◌, Bytes, All, arith, length, length-append, ==_refl, Option-cases, inl,
  inr,
}
use zk_wsp.Prelude.Dict.{lookup, keys, keys-insert, All-lookup, All-insert}
use zk_wsp.Outcome.{ok, Succeeds, Succeeds->>=}
use zk_wsp.Common.Types.{Status, idle, busy, connecting, closed, is_idle, is_closed}
use zk_wsp.Common.Store.{Store, update}
use zk_wsp.Common.Write.{PingEnv, ping_error, send_ping_message}
use zk_wsp.Common.Receive.Laws.{AllStale}
use zk_wsp.Common.Write.Laws.{pinged, release-ok, freed}
use zk_wsp.Common.Receive.{Round}
use zk_wsp.Server.Pool.{
  Pool, server_pool, get_idle_write_connection, get_all_busy_write_connections,
}
use zk_wsp.Server.Pool.Interface.{server_pool-lawful, offer-room}
use zk_wsp.Server.Pool.Idle.{HandsOut, get_idle_write_connection-HandsOut}
use zk_wsp.Server.Handlers.{Server, set_pool}
use zk_wsp.Server.Status.{
  no_pool, StatusError, is_connected, ping_status, status_of, probe, get_connection_status, SyncEnv,
  collect, periodic_sync,
}

-- The channel of the pool holds no more than it has room for.
abbrev pub IsFitting : Pool → Type 0
IsFitting p = length p.idle ≤ p.capacity

abbrev pub AreFitting : List (Bytes × Pool) → Type 0
AreFitting = All (λ x. IsFitting x.1)

-- Every write connection has the status that it had, the read connections are untouched, and no
-- websocket was closed.
abbrev pub IsUndisturbed : Store → Store → Type 0
IsUndisturbed s s' =
    ((j : ℕ) → ((s'.writes j).status ≡ (s.writes j).status) × ((s'.writes j).ws ≡ (s.writes j).ws))
    × (s'.reads ≡ s.reads)
    × (s'.ws_closes ≡ s.ws_closes)

-- An idle connection has a websocket.
abbrev pub IsDialed : Store → Type 0
IsDialed s = (j : ℕ) → is_idle (s.writes j).status ≡ true → (w : ℕ) × ((s.writes j).ws ≡ some w)

IsDialed-kept : (s s' : Store) → IsUndisturbed s s' → IsDialed s → IsDialed s'
IsDialed-kept s s' u d j h =
    let (same_status, same_ws) = u.0 j in
    let (w, e) = d j (rw (same_status) at h) in (w, same_ws ∙ e)

-- What the look at one client reports and leaves of its pool. It has met only unusable connections
-- in the channel. Then it took an idle one, reports whether the ping was answered, and puts the
-- connection back at the end of the channel; or it found none, and reports whether one is busy.
abbrev pub IsProbed : PingEnv → Store → Pool → Bool → Pool → Type 0
IsProbed ping s p b p' =
    (stale : List ℕ) × AllStale s stale
    × (p' ≡ record p { idle = p'.idle })
    × (((c : ℕ) × ((rest : List ℕ) × (p.idle ≡ stale ++ c ∷ rest)
            × (p'.idle ≡ rest ++ c ∷ [])
            × (is_idle (s.writes c).status ≡ true)
            × (b ≡ (ping.write_ok && ping.pong))))
        ⊎ ((p.idle ≡ stale ++ p'.idle) × (b ≡ ltb 0 (length (get_all_busy_write_connections s p)))))

-- A client without a pool is not connected; of the others only the own pool may change.
abbrev pub IsLooked : PingEnv → Bytes → Store → Server → Bool → Server → Type 0
IsLooked ping id s sv b sv' =
    ((lookup id sv.pools ≡ none) × (b ≡ false) × (sv' ≡ sv))
    ⊎ ((p : Pool) × ((p' : Pool) × (lookup id sv.pools ≡ some p)
          × IsProbed ping s p b p'
          × (sv' ≡ set_pool id p' sv)))

-- One look for each reported state, in this order.
pub data Reports (e : SyncEnv)
    : List (Bytes × Bool) → Store → Server → Store → Server → Type 0 where
  nothing : {s : Store} {sv : Server} → Reports e [] s sv s sv
  reported :
      {id : Bytes} {b : Bool} {states : List (Bytes × Bool)} {s s' s'' : Store}
      {sv sv' sv'' : Server}
      → IsLooked (e.ping id) id s sv b sv'
      → IsUndisturbed s s'
      → Reports e states s' sv' s'' sv''
      → Reports e ((id, b) ∷ states) s sv s'' sv''

-- The state before and after a look at the clients.
abbrev pub IsSeen : Store → Server → Store → Server → Type 0
IsSeen s sv s' sv' =
    IsUndisturbed s s'
    × AreFitting sv'.pools
    × (keys sv'.pools ≡ keys sv.pools)
    × (sv'.config ≡ sv.config)

is_idle→eq : (x : Status) → is_idle x ≡ true → x ≡ idle
is_idle→eq idle h = refl
is_idle→eq connecting h = cc
is_idle→eq busy h = cc
is_idle→eq closed h = cc

-- What is left of the channel fits, with the connection that was taken or without one.
rest-fits :
    (p p1 : Pool) (stale taken : List ℕ)
    → IsFitting p
    → p.idle ≡ stale ++ (taken ++ p1.idle)
    → p1 ≡ record p { idle = p1.idle }
    → length p1.idle + length taken ≤ p1.capacity
rest-fits p p1 stale taken fits q same = omega (
  arith,
  ap length q,
  length-append stale (taken ++ p1.idle),
  length-append taken p1.idle,
  ap (λ (r : Pool). r.capacity) same,
)

-- A ping releases a connection that the channel has room for.
ping-ok :
    (ping : PingEnv) (c : ℕ) (s : Store) (p : Pool)
    → is_closed (s.writes c).status ≡ false
    → (w : ℕ) → (s.writes c).ws ≡ some w
    → length p.idle < p.capacity
    → send_ping_message server_pool ping c s p
      ≡ ok (
        ping_error ping,
        freed server_pool server_pool-lawful ping.now c s,
        record p { idle = p.idle ++ c ∷ [] },
      )
ping-ok ping c s p alive w h room =
    pinged server_pool server_pool-lawful ping c s p w h
    ∙ rw
        (release-ok server_pool server_pool-lawful ping.now c s p
          (record p { idle = p.idle ++ c ∷ [] }) alive (offer-room c p room))
        refl

-- A connection that was taken while idle and is released again
returned-IsUndisturbed :
    (now c : ℕ) (s : Store)
    → is_idle (s.writes c).status ≡ true
    → IsUndisturbed s (
        freed server_pool server_pool-lawful now c
          (record s { writes = update s.writes c (record (s.writes c) { status = busy }) }))
returned-IsUndisturbed now c s h =
    ((λ j. (ground (arith, is_idle→eq (s.writes c).status h), ground arith)), refl, refl)

connected_busy : (b : Bool) → is_connected (status_of b) ≡ b
connected_busy true = refl
connected_busy false = refl

connected_ping :
    (ping : PingEnv) → is_connected (ping_status (ping_error ping)) ≡ (ping.write_ok && ping.pong)
unfolding ping_error
connected_ping ping = ground arith

probe-IsSeen :
    (ping : PingEnv) (id : Bytes) (some_busy : Bool) (s : Store) (sv : Server) (p : Pool)
    (x : Option ℕ × Store × Pool)
    → lookup id sv.pools ≡ some p
    → AreFitting sv.pools
    → IsDialed s
    → some_busy ≡ ltb 0 (length (get_all_busy_write_connections s p))
    → HandsOut s p x
    → Succeeds
        (λ (err, s', sv'). IsSeen s sv s' sv' × IsLooked ping id s sv (is_connected err) sv')
        (probe ping id some_busy sv x)
probe-IsSeen ping id some_busy s sv p (none, s1, p1) e a dialed some_is
      (stale, q, drops, same, same_p) =
    let fits = rest-fits p p1 stale [] (All-lookup IsFitting sv.pools id p a e) q same_p in
    (
      (
        rw same ((λ j. (refl, refl)), refl, refl),
        All-insert IsFitting sv.pools id p1 a (omega arith),
        keys-insert sv.pools id p p1 e,
        refl,
      ),
      inr (p, (p1, e, (stale, drops, same_p, inr (q, connected_busy some_busy ∙ some_is)), refl)),
    )
probe-IsSeen ping id some_busy s sv p (some c, s1, p1) e a dialed some_is
      (stale, q, drops, h, taken, same_p) =
    let fits = rest-fits p p1 stale (c ∷ []) (All-lookup IsFitting sv.pools id p a e) q same_p in
    let p2 = record p1 { idle = p1.idle ++ c ∷ [] } in
    let (w, socket) = dialed c h in
    rw
      (ping-ok ping c s1 p1 (rw taken (rw (==_refl c))) w (rw taken (rw (==_refl c) socket))
        (omega arith))
      (
        (
          rw taken (returned-IsUndisturbed ping.now c s h),
          All-insert IsFitting sv.pools id p2 a (omega (arith, length-append p1.idle (c ∷ []))),
          keys-insert sv.pools id p p2 e,
          refl,
        ),
        inr (
          p,
          (
            p2,
            e,
            (
              stale,
              drops,
              ap (λ (r : Pool). record r { idle = p1.idle ++ c ∷ [] }) same_p,
              inl (c, (p1.idle, q, refl, h, connected_ping ping)),
            ),
            refl,
          ),
        ),
      )

status-none :
    (rounds : ℕ → Round) (ping : PingEnv) (id : Bytes) (s : Store) (sv : Server)
    → lookup id sv.pools ≡ none
    → get_connection_status rounds ping id s sv ≡ ok (some no_pool, s, sv)
unfolding get_connection_status
status-none rounds ping id s sv e = rw (get_connection_status, e) refl

status-some :
    (rounds : ℕ → Round) (ping : PingEnv) (id : Bytes) (s : Store) (sv : Server) (p : Pool)
    → lookup id sv.pools ≡ some p
    → get_connection_status rounds ping id s sv
      ≡ probe ping id
          (ltb 0 (length (get_all_busy_write_connections s p)))
          sv
          (get_idle_write_connection sv.config rounds s p)
unfolding get_connection_status
status-some rounds ping id s sv p e = rw (get_connection_status, e) refl

get_connection_status-IsSeen :
    (rounds : ℕ → Round) (ping : PingEnv) (id : Bytes) (s : Store) (sv : Server)
    → AreFitting sv.pools
    → IsDialed s
    → Succeeds
        (λ (err, s', sv'). IsSeen s sv s' sv' × IsLooked ping id s sv (is_connected err) sv')
        (get_connection_status rounds ping id s sv)
unfolding get_connection_status
get_connection_status-IsSeen rounds ping id s sv a dialed =
    elim (Option-cases (lookup id sv.pools)) [
      | inl e ↦
          subst (Succeeds Q) (sym (status-none rounds ping id s sv e))
            ((((λ j. (refl, refl)), refl, refl), a, refl, refl), inl (e, refl, refl))
      | inr (p, e) ↦ subst (Succeeds Q) (sym (status-some rounds ping id s sv p e)) (
          probe-IsSeen ping id _ s sv p _ e a dialed refl
            (get_idle_write_connection-HandsOut sv.config rounds s p))
    ]
  where
    Q : Option StatusError × Store × Server → Type 0
    Q (err, s', sv') = IsSeen s sv s' sv' × IsLooked ping id s sv (is_connected err) sv'

IsSeen-trans :
    (s s' s'' : Store) (sv sv' sv'' : Server)
    → IsSeen s sv s' sv'
    → IsSeen s' sv' s'' sv''
    → IsSeen s sv s'' sv''
IsSeen-trans s s' s'' sv sv' sv'' (u, a, k, c) (u', a', k', c') = (
  ((λ j. ((u'.0 j).0 ∙ (u.0 j).0, (u'.0 j).1 ∙ (u.0 j).1)), u'.1 ∙ u.1, u'.2 ∙ u.2),
  a',
  k' ∙ k,
  c' ∙ c,
)

collect-IsSeen :
    (e : SyncEnv) (ids : List Bytes) (s : Store) (sv : Server)
    → AreFitting sv.pools
    → IsDialed s
    → Succeeds
        (λ (states, s', sv').
          (keys states ≡ ids) × IsSeen s sv s' sv' × Reports e states s sv s' sv')
        (collect e ids s sv)
unfolding collect
collect-IsSeen e [] s sv a dialed =
    (refl, (((λ j. (refl, refl)), refl, refl), a, refl, refl), nothing)
collect-IsSeen e (id ∷ ids) s sv a dialed =
    Succeeds->>= _ _ (get_connection_status (e.rounds id) (e.ping id) id s sv) _
      (get_connection_status-IsSeen (e.rounds id) (e.ping id) id s sv a dialed)
      λ (err, s', sv') _ (h, look).
        Succeeds->>= _ _ (collect e ids s' sv') _
          (collect-IsSeen e ids s' sv' h.1 (IsDialed-kept s s' h.0 dialed))
          λ (states, s'', sv'') _ (k, i, reports).
            (ap (λ ks. id ∷ ks) k, IsSeen-trans s s' s'' sv sv' sv'' h i, reported look h.0 reports)

-- If no channel holds more than it has room for, and every idle connection has a websocket, then the
-- sync of the server returns, whatever the pings and the push answer. It reports one state for each
-- client, in the order of the pools: whether the ping over an idle connection was answered, or, if no
-- idle one was found, whether a connection is busy. A connection that a ping took is put back at the
-- end of the channel, and else a channel only loses unusable connections from its head. The pools
-- keep their clients, no channel holds too much, every write connection has the status it had, and no
-- websocket is closed.
pub periodic_sync-IsSeen :
    (e : SyncEnv) (s : Store) (sv : Server)
    → AreFitting sv.pools
    → IsDialed s
    → Succeeds
        (λ (states, _, s', sv').
          (keys states ≡ keys sv.pools) × IsSeen s sv s' sv' × Reports e states s sv s' sv')
        (periodic_sync e s sv)
unfolding periodic_sync
periodic_sync-IsSeen e s sv a dialed =
    Succeeds->>= _ _ (collect e (keys sv.pools) s sv) _
      (collect-IsSeen e (keys sv.pools) s sv a dialed) λ (states, s', sv') _ h. h
