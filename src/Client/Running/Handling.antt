-- ===== src/Client/Running/Handling.antt =====
-- What requests, refreshes, and the start and the end of a connection leave to the other calls:
-- client/client.go, client/pool.go.
use zk_wsp.Prelude.{
  ℕ, ◌≡◌, ◌≤◌, refl, ◌⊎◌, inl, inr, true, false, Bool, Option, none, some, arith, Bool-cases,
  length, length-keep-le, subst, ◌∙◌,
}
use zk_wsp.Prelude.Int.{ℤ}
use zk_wsp.Outcome.{Returns, Returns->>=, of_Returns, Succeeds}
use zk_wsp.Http.Writer.{ResponseWriter}
use zk_wsp.Http.Request.{UrlLib, Request}
use zk_wsp.Common.Store.{Store, Connection, read_conn, write_conn}
use zk_wsp.Common.Write.{release}
use zk_wsp.Common.Write.Laws.{IsSound, release-cases, freed-Keeps, close-ok, shut-Keeps, shut}
use zk_wsp.Common.Write.Uses.{taken-IsSound}
use zk_wsp.Common.Read.Laws.{shut_connection, close_connection-ok, shut_connection-IsSound}
use zk_wsp.Common.Proxy.{Proxied, ProxyError, proxy_request, ProxyEnv}
use zk_wsp.Common.Proxy.Laws.{Ends, ByError, Failed, Completed, proxy_request-Ends}
use zk_wsp.Common.Utils.{get_destination_url}
use zk_wsp.Client.Config.{Config}
use zk_wsp.Common.Pool.{send}
use zk_wsp.Common.Receive.{Round}
use zk_wsp.Client.Pool.{
  Pool, client_pool, offer, remove, remove_without_lock, get_idle_write_connection, take_received,
}
use zk_wsp.Client.Pool.Bounds.{IsWithin}
use zk_wsp.Client.Pool.Interface.{client_pool-lawful}
use zk_wsp.Client.Pool.Idle.{HandsOut, get_idle_write_connection-HandsOut}
use zk_wsp.Client.Handlers.{
  Client, RequestEnv, Served, set_pool, settle, request, on_connection, on_destination, on_pool,
}
use zk_wsp.Client.Handlers.Retry.{IsPaced}
use zk_wsp.Client.Running.{start_in, end_in, List}

-- The pool is within its bounds, and it is shut down only if the client is killed.
abbrev pub IsPooled : Config → Bool → Pool → Type 0
IsPooled config killed p =
    IsWithin config p
    × IsPaced config p.retry_interval
    × ((p.done ≡ false) ⊎ ((p.done ≡ true) × (killed ≡ true)))

-- What holds between two calls.
abbrev pub IsBetween : Config → Store × Client → Type 0
IsBetween config (s, c) =
    IsSound s × (c.config ≡ config) × ((p : Pool) × (c.pool ≡ some p) × IsPooled config c.killed p)

-- No connection was added to the pool, and the rounds do not see a difference.
abbrev IsCalm : Pool → Pool → Type 0
IsCalm p p' =
    (length p'.read_connections ≤ length p.read_connections)
    × (length p'.write_connections ≤ length p.write_connections)
    × (p'.retry_interval ≡ p.retry_interval)
    × (p'.done ≡ p.done)

IsCalm-refl : (p : Pool) → IsCalm p p
IsCalm-refl p = (omega arith, omega arith, refl, refl)

IsCalm-trans : (p q r : Pool) → IsCalm p q → IsCalm q r → IsCalm p r
IsCalm-trans p q r (a, b, c, d) (x, y, z, w) = (omega arith, omega arith, z ∙ c, w ∙ d)

IsCalm-IsPooled :
    (config : Config) (killed : Bool) (p p' : Pool)
    → IsCalm p p'
    → IsPooled config killed p
    → IsPooled config killed p'
IsCalm-IsPooled config killed p p' (a, b, r, d) ((x, y, k), i, o) =
    ((omega arith, omega arith, k), rw r i, rw d o)

remove-IsCalm : (d : Connection) (p : Pool) → IsCalm p (remove d p)
unfolding remove_without_lock
remove-IsCalm (read_conn i) p = (length-keep-le _ p.read_connections, omega arith, refl, refl)
remove-IsCalm (write_conn i) p = (omega arith, length-keep-le _ p.write_connections, refl, refl)

offer-IsCalm : (i : ℕ) (p : Pool) → Returns (IsCalm p) (offer i p)
unfolding offer
offer-IsCalm i p = Returns->>= (IsCalm p) (send p.capacity p.idle i) _ λ q _. IsCalm-refl p

release-IsCalm :
    (now i : ℕ) (s : Store) (p : Pool)
    → IsSound s
    → Returns (λ (s', p'). IsSound s' × IsCalm p p') (release client_pool now i s p)
release-IsCalm now i s p v = elim (release-cases client_pool client_pool-lawful now i s p) [
  | inl (c, e) ↦ rw e (v, IsCalm-refl p)
  | inr (inl (o, (p', e, f))) ↦ rw f (
    (freed-Keeps client_pool client_pool-lawful now i s o v).sound,
    of_Returns (IsCalm p) (offer i p) (offer-IsCalm i p) e,
  )
  | inr (inr (o, f)) ↦ rw f tt
]

take_received-IsCalm :
    (r : Option ℕ × List ℕ) (s : Store) (p : Pool) → IsCalm p (take_received r s p).2
take_received-IsCalm (none, rest) s p = (omega arith, omega arith, refl, refl)
take_received-IsCalm (some c, rest) s p = (omega arith, omega arith, refl, refl)

handed-IsSound :
    (s : Store) (p : Pool) (x : Option ℕ × Store × Pool) → IsSound s → HandsOut s p x → IsSound x.1
handed-IsSound s p (none, s', p') v (stale, q, all, same, _) = rw same v
handed-IsSound s p (some c, s', p') v (stale, q, all, h, busied, _) =
    rw busied (taken-IsSound c s v h)

-- What `GetIdleWriteConnection` leaves
got-IsCalm :
    (config : Config) (rounds : ℕ → Round) (s : Store) (p : Pool)
    → IsSound s
    → let (_, s', p') = get_idle_write_connection config rounds s p in IsSound s' × IsCalm p p'
got-IsCalm config rounds s p v = (
  handed-IsSound s p _ v (get_idle_write_connection-HandsOut config rounds s p),
  unfold get_idle_write_connection in take_received-IsCalm _ s p,
)

-- What `ProxyRequest` leaves
ended-IsCalm :
    (lib : UrlLib) (e : ProxyEnv) (i : ℕ) (s : Store) (p : Pool) (q : Proxied)
    (err : Option ProxyError) (s' : Store) (p' : Pool)
    → IsSound s
    → ByError err (Failed client_pool lib e s p q s' p') (Completed client_pool lib e i s p q s' p')
    → IsSound s' × IsCalm p p'
ended-IsCalm lib e i s p q none s' p' v h =
    of_Returns (λ (s', p'). IsSound s' × IsCalm p p') (release client_pool e.now i s p)
      (release-IsCalm e.now i s p v) h.released
ended-IsCalm lib e i s p q (some err) s' p' v h = rw (h.same_store, h.same_pool) (v, IsCalm-refl p)

module _ (config : Config) (k : Client) (p : Pool) where
  -- A call that leaves the pool `p'`
  set_pool-IsBetween :
      (s' : Store) (p' : Pool)
      → k.config ≡ config
      → IsPooled config k.killed p
      → IsSound s'
      → IsCalm p p'
      → IsBetween config (s', set_pool p' k)
  set_pool-IsBetween s' p' e g v h = (v, e, (p', refl, IsCalm-IsPooled config k.killed p p' h g))

  pub start_in-IsBetween :
      (i now : ℕ) (s : Store) (o : Option Pool)
      → o ≡ some p
      → k.config ≡ config
      → IsPooled config k.killed p
      → IsSound s
      → Returns (IsBetween config) (start_in i now s k o)
  start_in-IsBetween i now s o h e g v = rw h (
      Returns->>= (IsBetween config) (release client_pool now i s p) _ λ (s', p') r.
        let (w, calm) =
          of_Returns (λ (s', p'). IsSound s' × IsCalm p p') (release client_pool now i s p)
            (release-IsCalm now i s p v) r in
        set_pool-IsBetween s' p' e g w calm)

  pub end_in-IsBetween :
      (d : Connection) (s : Store) (o : Option Pool)
      → o ≡ some p
      → k.config ≡ config
      → IsPooled config k.killed p
      → IsSound s
      → Succeeds (IsBetween config) (end_in d s k o)
  end_in-IsBetween d s o h e g v =
      rw (h, close_connection-ok d s v)
        (set_pool-IsBetween (shut_connection d s) (remove d p) e g (shut_connection-IsSound d s v)
          (remove-IsCalm d p))

  module _ (lib : UrlLib) (e : RequestEnv) where
    -- What a request leaves
    abbrev pub Leaves : Served → Type 0
    Leaves (_, s', k', _) = IsBetween config (s', k')

    settle-Leaves :
        (i : ℕ) (code : ℤ) (err : Option ProxyError) (w : ResponseWriter) (s : Store) (p' : Pool)
        → k.config ≡ config
        → IsPooled config k.killed p
        → IsSound s
        → IsCalm p p'
        → Returns Leaves (settle e i k code err w s p')
    unfolding settle
    settle-Leaves i code none w s p' c g v h = set_pool-IsBetween s p' c g v h
    settle-Leaves i code (some err) w s p' c g v h = rw (close-ok i s v) (
        set_pool-IsBetween (shut i s) (remove (write_conn i) p') c g (shut-Keeps i s v).sound
          (IsCalm-trans p p' (remove (write_conn i) p') h (remove-IsCalm (write_conn i) p')))

    on_connection-Leaves :
        (w : ResponseWriter) (r : Request lib.Url) (x : Option ℕ × Store × Pool)
        → k.config ≡ config
        → IsPooled config k.killed p
        → IsSound x.1
        → IsCalm p x.2
        → Returns Leaves (on_connection lib e w r k x)
    on_connection-Leaves w r (none, s, p') c g v h = set_pool-IsBetween s p' c g v h
    on_connection-Leaves w r (some i, s, p') c g v h =
        Returns->>= Leaves (proxy_request client_pool lib e.proxy i w r s p') _
          λ (q, w', s'', p'') got.
            let (v'', h'') = ended-IsCalm lib e.proxy i s p' q q.err s'' p'' v (
              of_Returns (Ends client_pool lib e.proxy i s p')
                (proxy_request client_pool lib e.proxy i w r s p')
                (proxy_request-Ends client_pool lib e.proxy i w r s p') got) in
            settle-Leaves i q.response_code q.err w' s'' p'' c g v'' (IsCalm-trans p p' p'' h h'')

    on_pool-Leaves :
        (w : ResponseWriter) (r : Request lib.Url) (s : Store) (o : Option Pool)
        → o ≡ some p
        → k.config ≡ config
        → IsPooled config k.killed p
        → IsSound s
        → Returns Leaves (on_pool lib e w r s k o)
    on_pool-Leaves w r s o h c g v =
        let (v', h') = got-IsCalm k.config e.rounds s p v in
        rw h (on_connection-Leaves w r _ c g v' h')

    on_destination-Leaves :
        (r : Request lib.Url) (s : Store) (d : Option lib.Url × ResponseWriter)
        → k.pool ≡ some p
        → k.config ≡ config
        → IsPooled config k.killed p
        → IsSound s
        → Returns Leaves (on_destination lib e r s k d)
    on_destination-Leaves r s (none, w) h c g v = (v, c, (p, h, g))
    on_destination-Leaves r s (some url, w) h c g v = on_pool-Leaves w _ s k.pool h c g v

    pub request-Leaves :
        (w : ResponseWriter) (r : Request lib.Url) (s : Store)
        → k.pool ≡ some p
        → k.config ≡ config
        → IsPooled config k.killed p
        → IsSound s
        → Returns Leaves (request lib e w r s k)
    unfolding request
    request-Leaves w r s h c g v = elim (Bool-cases k.killed) [
      | inl d ↦ simp (d) (v, c, (p, h, subst (λ b. IsPooled config b p) d g))
      | inr a ↦ simp (a) (on_destination-Leaves r s (get_destination_url lib w r) h c g v)
    ]
