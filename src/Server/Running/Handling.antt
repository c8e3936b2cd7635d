-- ===== src/Server/Running/Handling.antt =====
-- What the handlers of server/server.go leave to the other calls.
use zk_wsp.Prelude.{ℕ, ◌≡◌, inl, inr, false, Option, none, some, Bytes, arith, Bool-cases}
use zk_wsp.Prelude.Int.{ℤ}
use zk_wsp.Prelude.Dict.{lookup}
use zk_wsp.Outcome.{Returns, Returns->>=, of_Returns}
use zk_wsp.Http.Writer.{ResponseWriter}
use zk_wsp.Http.Request.{UrlLib, Request}
use zk_wsp.Common.Types.{ConnectionType, read, write, unknown, of_int}
use zk_wsp.Common.Store.{Store}
use zk_wsp.Common.Write.{release}
use zk_wsp.Common.Write.Laws.{IsSound, release-cases, freed-Keeps, close-ok, shut-Keeps}
use zk_wsp.Server.Pool.{Pool, server_pool, add_connection}
use zk_wsp.Server.Pool.Interface.{server_pool-lawful}
use zk_wsp.Result.{Result, value, error}
use zk_wsp.Greeting.{parse_greeting}
use zk_wsp.Common.Auth.{AuthError, ValidateAccessTokenResponse}
use zk_wsp.Common.Proxy.{Proxied, ProxyError, proxy_request}
use zk_wsp.Common.Proxy.Laws.{Ends, ByError, Failed, Completed, proxy_request-Ends}
use zk_wsp.Common.Utils.{get_client_id}
use zk_wsp.Common.Write.Uses.{taken-IsSound}
use zk_wsp.Server.Pool.Idle.{HandsOut, get_idle_write_connection-HandsOut}
use zk_wsp.Server.Handlers.{
  on_pool, on_client, on_destination, request_on, Server, RegisterEnv, RequestEnv, is_made,
  register_connection, enter, greet, upgrade, admit, settle, on_connection, find_pool, pool_for,
}

-- What holds between two calls: the connections are sound, and the server is not shut down.
abbrev pub IsUp : Store × Server → Type 0
IsUp (s, sv) = IsSound s × (sv.done ≡ false)

pub release-Sound :
    (now i : ℕ) (s : Store) (p : Pool)
    → IsSound s
    → Returns (λ (s', _). IsSound s') (release server_pool now i s p)
release-Sound now i s p v = elim (release-cases server_pool server_pool-lawful now i s p) [
  | inl (c, e) ↦ rw e v
  | inr (inl (o, (p', e, f))) ↦ rw f (freed-Keeps server_pool server_pool-lawful now i s o v).sound
  | inr (inr (o, f)) ↦ rw f tt
]

add_connection-Sound :
    (ws : ℕ) (type : ConnectionType) (s : Store) (p : Pool)
    → IsSound s
    → IsSound (add_connection ws type s p).1
unfolding add_connection
add_connection-Sound ws read s p v j = ground (arith, v j)
add_connection-Sound ws write s p v j = ground (arith, v j)
add_connection-Sound ws (unknown n) s p v j = ground (arith, v j)

register_connection-IsUp :
    (id : Bytes) (idle_size : ℤ) (type : ConnectionType) (ws : ℕ) (s : Store) (sv : Server)
    → IsUp (s, sv)
    → let (_, s', sv') = register_connection id idle_size type ws s sv in IsUp (s', sv')
unfolding register_connection
register_connection-IsUp id idle_size type ws s sv (v, d) = (
  add_connection-Sound ws type s
      (record (pool_for sv.config id (find_pool id sv.pools)).1 { idle_size = idle_size }) v,
  d,
)

-- What a handler leaves, which also answers.
abbrev pub IsLeftUp : {W O : Type 0} → W × Store × Server × O → Type 0
IsLeftUp (w, s, sv, _) = IsUp (s, sv)

module _ (e : RegisterEnv) (s : Store) (sv : Server) (v : IsUp (s, sv)) where
  enter-IsUp :
      (id : Bytes) (ws : ℕ) (w : ResponseWriter) (parsed : Option (ℤ × ℤ))
      → Returns IsLeftUp (enter id ws w s sv parsed)
  unfolding enter
  enter-IsUp id ws w none = v
  enter-IsUp id ws w (some (idle_size, type)) =
      elim (Bool-cases (is_made sv.config (find_pool id sv.pools))) [
        | inr n ↦ rw n tt
        | inl y ↦ rw y (register_connection-IsUp id idle_size (of_int type) ws s sv v)
      ]

  greet-IsUp :
      (id : Bytes) (ws : ℕ) (w : ResponseWriter) (m : Option Bytes)
      → Returns IsLeftUp (greet id ws w s sv m)
  unfolding greet
  greet-IsUp id ws w none = v
  greet-IsUp id ws w (some g) =
      Returns->>= IsLeftUp (parse_greeting g) _ λ parsed _. enter-IsUp id ws w parsed

  upgrade-IsUp :
      (id : Bytes) (w : ResponseWriter) (u : Option ℕ) → Returns IsLeftUp (upgrade e id w s sv u)
  unfolding upgrade
  upgrade-IsUp id w none = v
  upgrade-IsUp id w (some ws) = greet-IsUp id ws w e.read_message

  pub admit-IsUp :
      (w : ResponseWriter) (x : Result AuthError ValidateAccessTokenResponse)
      → Returns IsLeftUp (admit e w s sv x)
  unfolding admit
  admit-IsUp w (error x) = v
  admit-IsUp w (value response) = elim (Bool-cases response.payload.is_valid) [
    | inl h ↦ rw h (upgrade-IsUp response.payload.cluster_id w e.upgrade)
    | inr h ↦ rw h v
  ]

pub handed-IsSound :
    (s : Store) (p : Pool) (x : Option ℕ × Store × Pool) → IsSound s → HandsOut s p x → IsSound x.1
handed-IsSound s p (none, s', p') v (stale, q, all, same, _) = rw same v
handed-IsSound s p (some c, s', p') v (stale, q, all, h, busied, _) =
    rw busied (taken-IsSound c s v h)

module _ (lib : UrlLib) (e : RequestEnv) (sv : Server) (up : sv.done ≡ false) where
  settle-IsUp :
      (id : Bytes) (c : ℕ) (err : Option ProxyError) (w : ResponseWriter) (s : Store) (p : Pool)
      → IsSound s
      → Returns (λ (_, s', sv'). IsUp (s', sv')) (settle e id c sv err w s p)
  unfolding settle
  settle-IsUp id c none w s p v = (v, up)
  settle-IsUp id c (some err) w s p v = rw (close-ok c s v) ((shut-Keeps c s v).sound, up)

  ended-IsSound :
      (c : ℕ) (s : Store) (p : Pool) (q : Proxied) (err : Option ProxyError) (s' : Store)
      (p' : Pool)
      → IsSound s
      → ByError err
          (Failed server_pool lib e.proxy s p q s' p')
          (Completed server_pool lib e.proxy c s p q s' p')
      → IsSound s'
  ended-IsSound c s p q none s' p' v h =
      of_Returns (λ (t, _). IsSound t) (release server_pool e.proxy.now c s p)
        (release-Sound e.proxy.now c s p v) h.released
  ended-IsSound c s p q (some err) s' p' v h = rw h.same_store v

  on_connection-IsUp :
      (id : Bytes) (w : ResponseWriter) (r : Request lib.Url) (x : Option ℕ × Store × Pool)
      → IsSound x.1
      → Returns (λ (_, s', sv'). IsUp (s', sv')) (on_connection lib e id w r sv x)
  on_connection-IsUp id w r (none, s, p) v = (v, up)
  on_connection-IsUp id w r (some c, s, p) v =
      Returns->>= _ (proxy_request server_pool lib e.proxy c w r s p) _ λ (q, w', s', p') g.
        settle-IsUp id c q.err w' s' p' (
          ended-IsSound c s p q q.err s' p' v (
            of_Returns (Ends server_pool lib e.proxy c s p)
              (proxy_request server_pool lib e.proxy c w r s p)
              (proxy_request-Ends server_pool lib e.proxy c w r s p) g))

  on_pool-IsUp :
      (id : Bytes) (w : ResponseWriter) (r : Request lib.Url) (s : Store) (o : Option Pool)
      → IsSound s
      → Returns (λ (_, s', sv'). IsUp (s', sv')) (on_pool lib e id w r s sv o)
  on_pool-IsUp id w r s none v = (v, up)
  on_pool-IsUp id w r s (some p) v =
      unfold request_on in
      on_connection-IsUp id w r _
        (handed-IsSound s p _ v (get_idle_write_connection-HandsOut sv.config e.rounds s p))

  on_client-IsUp :
      (r : Request lib.Url) (s : Store) (x : Option Bytes × ResponseWriter)
      → IsSound s
      → Returns (λ (_, s', sv'). IsUp (s', sv')) (on_client lib e r s sv x)
  on_client-IsUp r s (none, w) v = (v, up)
  on_client-IsUp r s (some id, w) v = on_pool-IsUp id w r s (lookup id sv.pools) v

  pub on_destination-IsUp :
      (r : Request lib.Url) (s : Store) (x : Option lib.Url × ResponseWriter)
      → IsSound s
      → Returns (λ (_, s', sv'). IsUp (s', sv')) (on_destination lib e r s sv x)
  on_destination-IsUp r s (none, w) v = (v, up)
  on_destination-IsUp r s (some url, w) v =
      on_client-IsUp _ s (get_client_id lib w (record r { url = url })) v
