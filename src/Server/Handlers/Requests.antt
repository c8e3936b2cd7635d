-- ===== src/Server/Handlers/Requests.antt =====
-- What a request leaves behind: server/server.go, `Request`.
use zk_wsp.Prelude.{
  ℕ, ◌≡◌, ◌⊎◌, inl, inr, ◌∙◌, true, false, Option, none, some, List, [], ◌∷◌, ◌++◌, Bytes, arith,
  ==_refl, same_refl,
}
use zk_wsp.Prelude.Dict.{lookup, lookup-insert}
use zk_wsp.Outcome.{Returns, Returns->>=, of_Returns, Returns-mono}
use zk_wsp.Http.Writer.{ResponseWriter}
use zk_wsp.Http.Request.{UrlLib, Request}
use zk_wsp.Common.Types.{Status, closed, is_closed, is_idle}
use zk_wsp.Common.Store.{write_conn, Store}
use zk_wsp.Common.Write.{close_without_lock}
use zk_wsp.Common.Write.Laws.{IsSound, close-ok}
use zk_wsp.Common.Write.Uses.{taken-IsSound, taken-open, release-IsOffered}
use zk_wsp.Common.Proxy.{Proxied, proxy_request, ProxyError}
use zk_wsp.Common.Proxy.Laws.{Ends, proxy_request-Ends, Failed, Completed, ByError}
use zk_wsp.Server.Pool.{Pool, server_pool, remove}
use zk_wsp.Server.Pool.Interface.{server_pool-lawful}
use zk_wsp.Server.Pool.Remove.{present, present-remove}
use zk_wsp.Server.Pool.Idle.{HandsOut, get_idle_write_connection-HandsOut}
use zk_wsp.Server.Handlers.{Server, RequestEnv, Served, settle, request_on, set_pool, on_connection}

-- A connection that was thrown away: it is closed, and in the pool's lists no more.
abbrev pub IsDiscarded : ℕ → Store → Pool → Type 0
IsDiscarded c s p = ((s.writes c).status ≡ closed) × (present (write_conn c) p ≡ 0)

close-discards :
    (c : ℕ) (s : Store) (p : Pool)
    → IsSound s
    → Returns (λ s'. IsDiscarded c s' (remove (write_conn c) p)) (close_without_lock c s)
close-discards c s p v =
    rw (close-ok c s v)
      (ground (arith, ==_refl c), present-remove (write_conn c) (write_conn c) p ∙ rw (==_refl c))

-- The pool of a client after a request that was given the connection `c`, of a pool `p` that had it
-- in its channel in front of `rest`: it stands at the end of the channel or was thrown away.
abbrev pub Settled : Bytes → ℕ → List ℕ → Served → Type 0
Settled id c rest (w', s', sv') =
    (p' : Pool) × (lookup id sv'.pools ≡ some p')
    × ((((s'.writes c).status ≡ Status.idle) × (p'.idle ≡ rest ++ c ∷ [])) ⊎ IsDiscarded c s' p')

lookup-set_pool :
    (id : Bytes) (p : Pool) (sv : Server) → lookup id (set_pool id p sv).pools ≡ some p
lookup-set_pool id p sv = lookup-insert sv.pools id id p ∙ rw (same_refl id)

module _ (lib : UrlLib) (e : RequestEnv) (id : Bytes) (c : ℕ) (sv : Server) (s : Store)
    (p : Pool) where
  settle-Settled :
      (q : Proxied) (err : Option ProxyError) (w : ResponseWriter) (s1 : Store) (p1 : Pool)
      → IsSound s
      → is_closed (s.writes c).status ≡ false
      → ByError err
          (Failed server_pool lib e.proxy s p q s1 p1)
          (Completed server_pool lib e.proxy c s p q s1 p1)
      → Returns (Settled id c p.idle) (settle e id c sv err w s1 p1)
  unfolding settle
  settle-Settled q none w s1 p1 v alive h = (
    p1,
    lookup-set_pool id p1 sv,
    inl (release-IsOffered server_pool-lawful e.proxy.now c s p s1 p1 alive h.released),
  )
  settle-Settled q (some err) w s1 p1 v alive h =
      rw (h.same_store, h.same_pool)
        (Returns->>= (Settled id c p.idle) (close_without_lock c s) _ λ s' k. (
          remove (write_conn c) p,
          lookup-set_pool id (remove (write_conn c) p) sv,
          inr (
              of_Returns (λ t. IsDiscarded c t (remove (write_conn c) p)) (close_without_lock c s)
                (close-discards c s p v) k),
        ))

-- What `Request` does with the pool `p` of the client: without an idle connection it leaves the
-- connections alone; otherwise it settles one that was idle.
abbrev pub ServedBy : Bytes → Store → Pool → Served → Type 0
ServedBy id s p (w', s', sv') =
    (s' ≡ s)
    ⊎ ((c : ℕ) × (stale : List ℕ) × (rest : List ℕ) × (p.idle ≡ stale ++ c ∷ rest)
        × (is_idle (s.writes c).status ≡ true)
        × Settled id c rest (w', s', sv'))

on_connection-ServedBy :
    (lib : UrlLib) (e : RequestEnv) (id : Bytes) (p : Pool) (w : ResponseWriter)
    (r : Request lib.Url) (s : Store) (sv : Server) (x : Option ℕ × Store × Pool)
    → IsSound s
    → HandsOut s p x
    → Returns (ServedBy id s p) (on_connection lib e id w r sv x)
on_connection-ServedBy lib e id p w r s sv (none, s1, p1) v (stale, q, all, same, _) = inl same
on_connection-ServedBy lib e id p w r s sv (some c, s1, p1) v (stale, q, all, h, busied, _) =
    Returns->>= (ServedBy id s p) (proxy_request server_pool lib e.proxy c w r s1 p1) _
      λ (y, w', s2, p2) got.
        Returns-mono (settle e id c sv y.err w' s2 p2)
          (λ z settled. inr (c, stale, p1.idle, q, h, settled))
          (settle-Settled lib e id c sv s1 p1 y y.err w' s2 p2 sound alive (
            of_Returns (Ends server_pool lib e.proxy c s1 p1)
              (proxy_request server_pool lib e.proxy c w r s1 p1)
              (proxy_request-Ends server_pool lib e.proxy c w r s1 p1) got))
  where
    sound : IsSound s1
    sound = rw busied (taken-IsSound c s v h)

    alive : is_closed (s1.writes c).status ≡ false
    alive = rw busied (taken-open c s)

-- No connection leaks: if `Request` returns after it took a connection, then this connection is idle
-- again and at the end of the client's channel, or it is closed and no more in the client's pool.
pub request_on-ServedBy :
    (lib : UrlLib) (e : RequestEnv) (id : Bytes) (p : Pool) (w : ResponseWriter)
    (r : Request lib.Url) (s : Store) (sv : Server)
    → IsSound s
    → Returns (ServedBy id s p) (request_on lib e id p w r s sv)
unfolding request_on
request_on-ServedBy lib e id p w r s sv v =
    on_connection-ServedBy lib e id p w r s sv _ v
      (get_idle_write_connection-HandsOut sv.config e.rounds s p)
