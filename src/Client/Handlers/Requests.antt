-- ===== src/Client/Handlers/Requests.antt =====
-- What a request leaves behind: client/client.go, `Request`.
use zk_wsp.Prelude.{
  ℕ, ◌≡◌, ◌⊎◌, inl, inr, true, false, Option, none, some, List, ◌∷◌, ◌++◌, arith, occurrences, refl,
  [], ==_refl, Bool-cases,
}
use zk_wsp.Prelude.Int.{ℤ}
use zk_wsp.Outcome.{Returns, Returns->>=, of_Returns, Returns-mono}
use zk_wsp.Http.Writer.{ResponseWriter}
use zk_wsp.Http.Request.{UrlLib, Request}
use zk_wsp.Common.Types.{Status, closed, is_closed, is_idle}
use zk_wsp.Common.Store.{write_conn, Store}
use zk_wsp.Common.Write.Laws.{IsSound, close-ok}
use zk_wsp.Common.Write.Uses.{taken-IsSound, taken-open, release-IsOffered}
use zk_wsp.Common.Proxy.{Proxied, proxy_request, ProxyError}
use zk_wsp.Common.Proxy.Laws.{Ends, proxy_request-Ends, Failed, Completed, ByError}
use zk_wsp.Common.Utils.{get_destination_url}
use zk_wsp.Client.Pool.{Pool, client_pool, remove}
use zk_wsp.Client.Pool.Interface.{client_pool-lawful, remove-absent}
use zk_wsp.Client.Pool.Idle.{HandsOut, get_idle_write_connection-HandsOut}
use zk_wsp.Client.Handlers.{
  Client, RequestEnv, Served, settle, request, on_connection, on_destination, on_pool,
}

-- The connection `c`, which the pool `p` had in its channel in front of `rest`, stands at the end of
-- the channel, idle, or it is closed and in the pool no more.
abbrev pub Settled : ℕ → List ℕ → Served → Type 0
Settled c rest (w', s', k', _) =
    (p' : Pool) × (k'.pool ≡ some p')
    × ((((s'.writes c).status ≡ Status.idle) × (p'.idle ≡ rest ++ c ∷ []))
        ⊎ (((s'.writes c).status ≡ closed) × (occurrences c p'.write_connections ≡ 0)))

-- What `Request` does with the pool `p`: without an idle connection it leaves the connections alone
-- and does not refresh the token; otherwise it settles one that was idle.
abbrev pub ServedBy : Store → Pool → Served → Type 0
ServedBy s p (w', s', k', refreshed) =
    ((s' ≡ s) × (refreshed ≡ false))
    ⊎ ((c : ℕ) × (stale : List ℕ) × (rest : List ℕ) × (p.idle ≡ stale ++ c ∷ rest)
        × (is_idle (s.writes c).status ≡ true)
        × Settled c rest (w', s', k', refreshed))

module _ (lib : UrlLib) (e : RequestEnv) (k : Client) where
  settle-Settled :
      (c : ℕ) (s : Store) (p : Pool) (q : Proxied) (err : Option ProxyError) (code : ℤ)
      (w : ResponseWriter) (s1 : Store) (p1 : Pool)
      → IsSound s
      → is_closed (s.writes c).status ≡ false
      → ByError err
          (Failed client_pool lib e.proxy s p q s1 p1)
          (Completed client_pool lib e.proxy c s p q s1 p1)
      → Returns (Settled c p.idle) (settle e c k code err w s1 p1)
  unfolding settle
  settle-Settled c s p q none code w s1 p1 v alive h = (
    p1,
    refl,
    inl (release-IsOffered client_pool-lawful e.proxy.now c s p s1 p1 alive h.released),
  )
  settle-Settled c s p q (some err) code w s1 p1 v alive h =
      rw (h.same_store, h.same_pool, close-ok c s v)
        (remove (write_conn c) p, refl, inr (ground (arith, ==_refl c), remove-absent c p))

  on_connection-ServedBy :
      (p : Pool) (w : ResponseWriter) (r : Request lib.Url) (s : Store)
      (x : Option ℕ × Store × Pool)
      → IsSound s
      → HandsOut s p x
      → Returns (ServedBy s p) (on_connection lib e w r k x)
  on_connection-ServedBy p w r s (none, s1, p1) v (stale, q, all, same, _) = inl (same, refl)
  on_connection-ServedBy p w r s (some c, s1, p1) v (stale, q, all, h, busied, _) =
      Returns->>= (ServedBy s p) (proxy_request client_pool lib e.proxy c w r s1 p1) _
        λ (y, w', s2, p2) got.
          Returns-mono (settle e c k y.response_code y.err w' s2 p2)
            (λ z settled. inr (c, stale, p1.idle, q, h, settled))
            (settle-Settled c s1 p1 y y.err y.response_code w' s2 p2
              (rw busied (taken-IsSound c s v h)) (rw busied (taken-open c s))
              (of_Returns (Ends client_pool lib e.proxy c s1 p1)
                (proxy_request client_pool lib e.proxy c w r s1 p1)
                (proxy_request-Ends client_pool lib e.proxy c w r s1 p1) got))

  on_pool-ServedBy :
      (p : Pool) (w : ResponseWriter) (r : Request lib.Url) (s : Store) (o : Option Pool)
      → IsSound s
      → o ≡ some p
      → Returns (ServedBy s p) (on_pool lib e w r s k o)
  on_pool-ServedBy p w r s o v h = rw h (
      on_connection-ServedBy p w r s _ v (get_idle_write_connection-HandsOut k.config e.rounds s p))

  on_destination-ServedBy :
      (p : Pool) (r : Request lib.Url) (s : Store) (d : Option lib.Url × ResponseWriter)
      → IsSound s
      → k.pool ≡ some p
      → Returns (ServedBy s p) (on_destination lib e r s k d)
  on_destination-ServedBy p r s (none, w) v h = inl (refl, refl)
  on_destination-ServedBy p r s (some url, w) v h = on_pool-ServedBy p w _ s k.pool v h

  -- No connection of the client leaks: if `Request` returns, then it took no connection, or the
  -- connection that it took, which was idle, is idle again and at the end of the channel, or it is
  -- closed and no more in the pool. This holds for a killed client and a bad request as well.
  pub request-ServedBy :
      (p : Pool) (w : ResponseWriter) (r : Request lib.Url) (s : Store)
      → IsSound s
      → k.pool ≡ some p
      → Returns (ServedBy s p) (request lib e w r s k)
  unfolding request
  request-ServedBy p w r s v h = elim (Bool-cases k.killed) [
    | inl d ↦ simp (d) (inl (refl, refl))
    | inr a ↦ simp (a) (on_destination-ServedBy p r s (get_destination_url lib w r) v h)
  ]
