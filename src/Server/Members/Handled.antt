-- ===== src/Server/Members/Handled.antt =====
-- What requests and pings leave in the table: server/server.go, server/connectionStatus.go.
use zk_wsp.Prelude.{
  true, ==_refl, arith, ℕ, ◌≡◌, ◌∙◌, refl, ◌⊎◌, inl, inr, false, Option, none, some, List, [], ◌∷◌,
  Bytes, same, same_iff, if◌then◌else◌, Bool-cases,
}
use zk_wsp.Prelude.Dict.{lookup, insert, lookup-insert}
use zk_wsp.Outcome.{ok, Returns, Returns->>=, of_Returns}
use zk_wsp.Http.Writer.{ResponseWriter}
use zk_wsp.Http.Request.{UrlLib, Request}
use zk_wsp.Common.Store.{Connection, read_conn, write_conn, Store}
use zk_wsp.Common.Pool.{send}
use zk_wsp.Common.Types.{is_closed}
use zk_wsp.Common.Read.Laws.{same_conn}
use zk_wsp.Common.Write.{release, close_without_lock}
use zk_wsp.Common.Write.Laws.{release-cases}
use zk_wsp.Common.Proxy.{Proxied, ProxyError, proxy_request}
use zk_wsp.Common.Proxy.Laws.{Ends, ByError, Failed, Completed, proxy_request-Ends}
use zk_wsp.Common.Utils.{get_client_id, get_destination_url}
use zk_wsp.Server.Pool.{
  Pool, server_pool, offer, remove, remove_without_lock, take_received, get_idle_write_connection,
}
use zk_wsp.Server.Pool.Interface.{server_pool-lawful}
use zk_wsp.Server.Pool.Remove.{present, present-remove}
use zk_wsp.Server.Handlers.{
  on_pool, on_client, on_destination, request_on, Server, RequestEnv, settle, on_connection,
  request, set_pool,
}
use zk_wsp.Server.Handlers.Pools.{IsFiled, IsFiled-insert, IsFiled-lookup}
use zk_wsp.Server.Members.{table_of, IsSame, IsLeft}
use zk_wsp.Server.Members.Table.{table_of-IsSame, table_of-IsLeft}

-- No client has two entries.
abbrev pub IsUnique : List (Bytes × Pool) → Type 0
IsUnique [] = Unit
IsUnique ((k, p) ∷ ps) = (lookup k ps ≡ none) × IsUnique ps

-- The pools are filed under their clients, each client once.
abbrev pub IsMap : List (Bytes × Pool) → Type 0
IsMap ps = IsFiled ps × IsUnique ps

insert-absent :
    (k id : Bytes) (p : Pool) (ps : List (Bytes × Pool))
    → lookup k ps ≡ none
    → same k id ≡ false
    → lookup k (insert id p ps) ≡ none
insert-absent k id p ps e n =
    lookup-insert ps k id p ∙ ground (arith, same_iff id k, same_iff k id, e)

IsUnique-insert :
    (id : Bytes) (p : Pool) (ps : List (Bytes × Pool)) → IsUnique ps → IsUnique (insert id p ps)
unfolding insert lookup
IsUnique-insert id p [] u = (refl, tt)
IsUnique-insert id p ((k, q) ∷ ps) (e, u) = elim (Bool-cases (same k id)) [
  | inl y ↦ rw y (e, u)
  | inr n ↦ rw n (insert-absent k id p ps e n, IsUnique-insert id p ps u)
]

pub IsMap-insert :
    (id : Bytes) (p : Pool) (ps : List (Bytes × Pool))
    → p.client_id ≡ id
    → IsMap ps
    → IsMap (insert id p ps)
IsMap-insert id p ps e (f, u) = (IsFiled-insert id p ps f e, IsUnique-insert id p ps u)

-- The same connections stand in the lists.
abbrev pub IsCalm : Pool → Pool → Type 0
IsCalm p p' = ((d : Connection) → present d p' ≡ present d p) × (p'.client_id ≡ p.client_id)

-- One connection stands there no more.
abbrev pub IsWithout : Connection → Pool → Pool → Type 0
IsWithout c p p' =
    ((d : Connection) → present d p' ≡ (if same_conn c d then 0 else present d p))
    × (p'.client_id ≡ p.client_id)

pub IsCalm-refl : (p : Pool) → IsCalm p p
IsCalm-refl p = (λ d. refl, refl)

pub IsCalm-trans : (p q r : Pool) → IsCalm p q → IsCalm q r → IsCalm p r
IsCalm-trans p q r (a, b) (x, y) = (λ d. x d ∙ a d, y ∙ b)

with_idle-IsCalm : (p : Pool) (q : List ℕ) → IsCalm p (record p { idle = q })
with_idle-IsCalm p q = (same_lists, refl)
  where
    same_lists : (d : Connection) → present d (record p { idle = q }) ≡ present d p
    same_lists (read_conn i) = refl
    same_lists (write_conn i) = refl

remove-client : (c : Connection) (p : Pool) → (remove c p).client_id ≡ p.client_id
unfolding remove_without_lock
remove-client (read_conn i) p = refl
remove-client (write_conn i) p = refl

pub remove-IsWithout : (c : Connection) (p p' : Pool) → IsCalm p p' → IsWithout c p (remove c p')
remove-IsWithout c p p' (a, b) =
    (λ d. present-remove c d p' ∙ rw (a d) refl, remove-client c p' ∙ b)

offer-IsCalm : (i : ℕ) (p : Pool) → Returns (IsCalm p) (offer i p)
unfolding offer
offer-IsCalm i p = Returns->>= (IsCalm p) (send p.capacity p.idle i) _ λ q _. with_idle-IsCalm p q

pub release-IsCalm :
    (now i : ℕ) (s : Store) (p : Pool)
    → Returns (λ (_, p'). IsCalm p p') (release server_pool now i s p)
release-IsCalm now i s p = elim (release-cases server_pool server_pool-lawful now i s p) [
  | inl (c, e) ↦ rw e (IsCalm-refl p)
  | inr (inl (o, (p', e, f))) ↦ rw f (of_Returns (IsCalm p) (offer i p) (offer-IsCalm i p) e)
  | inr (inr (o, f)) ↦ rw f tt
]

pub take_received-IsCalm :
    (r : Option ℕ × List ℕ) (s : Store) (p : Pool) → IsCalm p (take_received r s p).2
take_received-IsCalm (none, rest) s p = with_idle-IsCalm p rest
take_received-IsCalm (some c, rest) s p = with_idle-IsCalm p rest

-- The pool `p` of the client `id` is put back changed.
module _ (sv : Server) (id : Bytes) (p : Pool) (h : lookup id sv.pools ≡ some p)
    (m : IsMap sv.pools) where
  pub calm-IsMap : (p' : Pool) → IsCalm p p' → IsMap (set_pool id p' sv).pools
  calm-IsMap p' (f, e) = IsMap-insert id p' sv.pools (e ∙ IsFiled-lookup id p sv.pools m.0 h) m

  pub calm-IsSame :
      (p' : Pool) → IsCalm p p' → IsSame (table_of sv.pools) (table_of (set_pool id p' sv).pools)
  calm-IsSame p' (f, e) = table_of-IsSame sv.pools id (some p) h p' f

  pub without-IsMap :
      (c : Connection) (p' : Pool) → IsWithout c p p' → IsMap (set_pool id p' sv).pools
  without-IsMap c p' (f, e) = IsMap-insert id p' sv.pools (e ∙ IsFiled-lookup id p sv.pools m.0 h) m

  pub without-IsLeft :
      (c : Connection) (p' : Pool)
      → IsWithout c p p'
      → IsLeft id c (table_of sv.pools) (table_of (set_pool id p' sv).pools)
  without-IsLeft c p' (f, e) = table_of-IsLeft sv.pools id (some p) h p' c f

-- What `ProxyRequest` leaves of the pool
ended-IsCalm :
    (lib : UrlLib) (e : RequestEnv) (c : ℕ) (s : Store) (p : Pool) (q : Proxied)
    (err : Option ProxyError) (s' : Store) (p' : Pool)
    → ByError err
        (Failed server_pool lib e.proxy s p q s' p')
        (Completed server_pool lib e.proxy c s p q s' p')
    → IsCalm p p'
ended-IsCalm lib e c s p q none s' p' h =
    of_Returns (λ (_, p'). IsCalm p p') (release server_pool e.proxy.now c s p)
      (release-IsCalm e.proxy.now c s p) h.released
ended-IsCalm lib e c s p q (some err) s' p' h = rw h.same_pool (IsCalm-refl p)

-- What a request may leave: the table as it was, or without one write connection, which is closed.
abbrev pub IsHandled : Server → ResponseWriter × Store × Server → Type 0
IsHandled sv (_, s', sv') =
    IsMap sv'.pools
    × (IsSame (table_of sv.pools) (table_of sv'.pools)
        ⊎ ((id : Bytes) × ((i : ℕ) × (is_closed (s'.writes i).status ≡ true)
              × IsLeft id (write_conn i) (table_of sv.pools) (table_of sv'.pools))))

closes :
    (i : ℕ) (s s' : Store) → close_without_lock i s ≡ ok s' → is_closed (s'.writes i).status ≡ true
unfolding close_without_lock
closes i s s' h = elim (Bool-cases (is_closed (s.writes i).status)) [
  | inl y ↦ ground arith
  | inr n ↦ ground (arith, ==_refl i)
]

module _ (lib : UrlLib) (e : RequestEnv) (sv : Server) (m : IsMap sv.pools) where
  module _ (id : Bytes) (p : Pool) (h : lookup id sv.pools ≡ some p) where
    settle-IsHandled :
        (c : ℕ) (err : Option ProxyError) (w : ResponseWriter) (s : Store) (p' : Pool)
        → IsCalm p p'
        → Returns (IsHandled sv) (settle e id c sv err w s p')
    unfolding settle
    settle-IsHandled c none w s p' a =
        (calm-IsMap sv id p h m p' a, inl (calm-IsSame sv id p h m p' a))
    settle-IsHandled c (some err) w s p' a =
        Returns->>= (IsHandled sv) (close_without_lock c s) _ λ s' got.
          let b = remove-IsWithout (write_conn c) p p' a in
          (
            without-IsMap sv id p h m (write_conn c) (remove (write_conn c) p') b,
            inr (
              id,
              (
                c,
                closes c s s' got,
                without-IsLeft sv id p h m (write_conn c) (remove (write_conn c) p') b,
              ),
            ),
          )

    on_connection-IsHandled :
        (w : ResponseWriter) (r : Request lib.Url) (x : Option ℕ × Store × Pool)
        → IsCalm p x.2
        → Returns (IsHandled sv) (on_connection lib e id w r sv x)
    on_connection-IsHandled w r (none, s, p') a =
        (calm-IsMap sv id p h m p' a, inl (calm-IsSame sv id p h m p' a))
    on_connection-IsHandled w r (some c, s, p') a =
        Returns->>= (IsHandled sv) (proxy_request server_pool lib e.proxy c w r s p') _
          λ (q, w', s', p'') got. settle-IsHandled c q.err w' s' p'' (
            IsCalm-trans p p' p'' a (
              ended-IsCalm lib e c s p' q q.err s' p'' (
                of_Returns (Ends server_pool lib e.proxy c s p')
                  (proxy_request server_pool lib e.proxy c w r s p')
                  (proxy_request-Ends server_pool lib e.proxy c w r s p') got)))

  on_pool-IsHandled :
      (id : Bytes) (w : ResponseWriter) (r : Request lib.Url) (s : Store) (o : Option Pool)
      → lookup id sv.pools ≡ o
      → Returns (IsHandled sv) (on_pool lib e id w r s sv o)
  on_pool-IsHandled id w r s none h = (m, inl (λ k d. refl))
  on_pool-IsHandled id w r s (some p) h =
      unfold request_on get_idle_write_connection in
      on_connection-IsHandled id p h w r _ (take_received-IsCalm _ s p)

  on_client-IsHandled :
      (r : Request lib.Url) (s : Store) (x : Option Bytes × ResponseWriter)
      → Returns (IsHandled sv) (on_client lib e r s sv x)
  on_client-IsHandled r s (none, w) = (m, inl (λ k d. refl))
  on_client-IsHandled r s (some id, w) = on_pool-IsHandled id w r s (lookup id sv.pools) refl

  on_destination-IsHandled :
      (r : Request lib.Url) (s : Store) (x : Option lib.Url × ResponseWriter)
      → Returns (IsHandled sv) (on_destination lib e r s sv x)
  on_destination-IsHandled r s (none, w) = (m, inl (λ k d. refl))
  on_destination-IsHandled r s (some url, w) =
      on_client-IsHandled _ s (get_client_id lib w (record r { url = url }))

  pub request-IsHandled :
      (w : ResponseWriter) (r : Request lib.Url) (s : Store)
      → Returns (IsHandled sv) (request lib e w r s sv)
  unfolding request
  request-IsHandled w r s = on_destination-IsHandled r s (get_destination_url lib w r)
