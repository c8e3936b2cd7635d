-- ===== src/Server/Members/Refinement.antt =====
-- The server keeps what the table promises: server/server.go.
use zk_wsp.Prelude.{
  List, [], ◌∷◌, Bool-cases, same→eq, same, ℕ, ◌≡◌, ◌∙◌, sym, refl, ◌⊎◌, inl, inr, Option, Bytes,
  subst, none, some, true, false, ap,
}
use zk_wsp.Outcome.{Returns-mono, Returns, Returns->>=, of_Returns}
use zk_wsp.Server.Running.{
  run, Call, registered, requested, cleaned, synced, started, ended, call, start_in, end_in,
}
use zk_wsp.Server.Running.Handling.{IsUp}
use zk_wsp.Server.Running.Stopping.{call-IsUp}
use zk_wsp.Result.{value}
use zk_wsp.Common.Auth.{ValidateAccessTokenResponse}
use zk_wsp.Common.Store.{Connection, Store}
use zk_wsp.Common.Write.{release}
use zk_wsp.Common.Write.Laws.{IsSound}
use zk_wsp.Common.Read.{close_connection}
use zk_wsp.Common.Read.Laws.{same_conn}
use zk_wsp.Http.Header.{Header}
use zk_wsp.Http.Request.{UrlLib}
use zk_wsp.Common.Types.{of_int, ConnectionType}
use zk_wsp.Server.Pool.{server_pool, remove, Pool, add_connection}
use zk_wsp.Server.Handlers.{
  Server, Registered, RegisterEnv, register, request, register_connection, set_pool,
}
use zk_wsp.Server.Handlers.Registration.{Registers, register-Registers, validated}
use zk_wsp.Server.Upkeep.{clean, clean_pools}
use zk_wsp.Server.Members.{IsLeft, Promise, table_of, IsSame, IsJoined, count_in}
use zk_wsp.Server.Members.Handled.{
  IsHandled, request-IsHandled, IsCalm, release-IsCalm, remove-IsWithout, IsCalm-refl,
  without-IsMap, without-IsLeft, IsMap, IsMap-insert,
}
use zk_wsp.Server.Members.Synced.{IsKeeping, calm-IsKeeping, synced-IsKeeping}
use zk_wsp.Server.Upkeep.Cleaning.{clean_pools-Returns}
use zk_wsp.Server.Members.Swept.{IsSwept, clean_pools-IsSwept}
use zk_wsp.Prelude.Int.{ℤ}
use zk_wsp.Prelude.Dict.{lookup}
use zk_wsp.Server.Pool.Remove.{present}
use zk_wsp.Server.Handlers.Pools.{
  pool_or_new, pool_or_new-client, add_connection-client, register_connection-put_connection,
}
use zk_wsp.Server.Members.Table.{
  table_of-IsSame, table_of-IsJoined, IsAdded, add_connection-IsAdded, pool_or_new-present,
}

-- A connection is registered, or the table stays as it is.
abbrev IsPut : Bytes → Server → Server → Type 0
IsPut id sv sv' =
    IsMap sv'.pools
    × (IsSame (table_of sv.pools) (table_of sv'.pools)
        ⊎ ((c : Connection) × IsJoined id c (table_of sv.pools) (table_of sv'.pools)))

module _ (id : Bytes) (size : ℤ) (type : ConnectionType) (ws : ℕ) (s : Store) (sv : Server)
    (m : IsMap sv.pools) where
  abbrev target : Pool
  target = record (pool_or_new sv.config id (lookup id sv.pools)) { idle_size = size }

  target-present : (d : Connection) → present d target ≡ count_in d (lookup id sv.pools)
  target-present (Connection.read_conn i) =
      pool_or_new-present sv.config id (lookup id sv.pools) (Connection.read_conn i)
  target-present (Connection.write_conn i) =
      pool_or_new-present sv.config id (lookup id sv.pools) (Connection.write_conn i)

  abbrev put : Pool
  put = (add_connection ws type s target).2

  put-IsMap : IsMap (set_pool id put sv).pools
  put-IsMap =
      IsMap-insert id put sv.pools
        (add_connection-client type ws s target
          ∙ pool_or_new-client sv.config id sv.pools (lookup id sv.pools) m.0 refl)
        m

  put-IsPut : IsAdded target put → IsPut id sv (set_pool id put sv)
  put-IsPut (inl f) = (
    put-IsMap,
    inl (table_of-IsSame sv.pools id (lookup id sv.pools) refl put (λ d. f d ∙ target-present d)),
  )
  put-IsPut (inr (c, f)) = (
    put-IsMap,
    inr (
      c,
      table_of-IsJoined sv.pools id (lookup id sv.pools) refl put c
          (λ d. f d ∙ rw (target-present d) refl),
    ),
  )

  register_connection-IsPut : IsPut id sv (register_connection id size type ws s sv).2
  register_connection-IsPut =
      subst (λ (x : Option Connection × Store × Server). IsPut id sv x.2)
        (sym (register_connection-put_connection id size type ws s sv m.0).0)
        (put-IsPut (add_connection-IsAdded ws type s target))

-- What `Register` leaves
abbrev IsRegistered : RegisterEnv → Header → Server → Server → Type 0
IsRegistered e header sv sv' =
    IsMap sv'.pools
    × (IsSame (table_of sv.pools) (table_of sv'.pools)
        ⊎ ((response : ValidateAccessTokenResponse) × (validated e header sv ≡ value response)
            × (response.payload.is_valid ≡ true)
            × ((c : Connection) × IsJoined response.payload.cluster_id c (table_of sv.pools)
                  (table_of sv'.pools))))

put-IsRegistered :
    (e : RegisterEnv) (header : Header) (sv sv' : Server) (response : ValidateAccessTokenResponse)
    → validated e header sv ≡ value response
    → response.payload.is_valid ≡ true
    → IsPut response.payload.cluster_id sv sv'
    → IsRegistered e header sv sv'
put-IsRegistered e header sv sv' response a b (m, inl same_table) = (m, inl same_table)
put-IsRegistered e header sv sv' response a b (m, inr (c, joined)) =
    (m, inr (response, a, b, (c, joined)))

Registers-IsRegistered :
    (e : RegisterEnv) (header : Header) (s : Store) (sv : Server) (x : Registered)
    → IsMap sv.pools
    → Registers e header s sv x
    → IsRegistered e header sv x.2
Registers-IsRegistered e header s sv (w, s', sv', o) m (inl (same_server, _)) =
    rw same_server (m, inl (λ k d. refl))
Registers-IsRegistered e header s sv (w, s', sv', o) m (inr a) =
    put-IsRegistered e header sv sv' a.response a.answered a.valid (
      subst (λ (x : Option Connection × Store × Server). IsPut a.response.payload.cluster_id sv x.2)
        (sym a.registered)
        (register_connection-IsPut a.response.payload.cluster_id a.idle_size (of_int a.type) a.ws s
          sv m))

-- What a call leaves, if it keeps its promise.
abbrev pub IsKept : (lib : UrlLib) → Call lib → Server → Store × Server → Type 0
IsKept lib q sv (s', sv') =
    IsMap sv'.pools × Promise lib q sv s' (table_of sv.pools) (table_of sv'.pools)

started-IsKeeping :
    (lib : UrlLib) (id : Bytes) (i now : ℕ) (s : Store) (sv : Server) (o : Option Pool)
    → lookup id sv.pools ≡ o
    → IsMap sv.pools
    → Returns (λ (_, sv'). IsKeeping sv sv') (start_in lib id i now s sv o)
started-IsKeeping lib id i now s sv none h m = (m, λ k d. refl)
started-IsKeeping lib id i now s sv (some p) h m =
    Returns->>= (λ (_, sv'). IsKeeping sv sv') (release server_pool now i s p) _
      λ (s', p') got. calm-IsKeeping sv id p p' h m (
        of_Returns (λ (_, p'). IsCalm p p') (release server_pool now i s p)
          (release-IsCalm now i s p) got)

-- A client without a pool has no connection to lose.
absent-IsLeft :
    (id : Bytes) (c : Connection) (ps : List (Bytes × Pool))
    → lookup id ps ≡ none
    → IsLeft id c (table_of ps) (table_of ps)
absent-IsLeft id c ps h k d = elim (Bool-cases (same id k)) [
  | inr n ↦ rw n refl
  | inl y ↦ rw y (elim (Bool-cases (same_conn c d)) [
    | inr n ↦ rw n refl
    | inl z ↦
        rw z (subst (λ x. count_in d (lookup x ps) ≡ 0) (same→eq id k y) (ap (λ o. count_in d o) h))
  ])
]

ended-IsKept :
    (lib : UrlLib) (id : Bytes) (c : Connection) (s : Store) (sv : Server) (o : Option Pool)
    → lookup id sv.pools ≡ o
    → IsMap sv.pools
    → Returns
        (λ (_, sv'). IsMap sv'.pools × IsLeft id c (table_of sv.pools) (table_of sv'.pools))
        (end_in lib id c s sv o)
ended-IsKept lib id c s sv none h m =
    Returns->>= _ (close_connection c s) _ λ s' _. (m, absent-IsLeft id c sv.pools h)
ended-IsKept lib id c s sv (some p) h m = Returns->>= _ (close_connection c s) _ λ s' _.
    let b = remove-IsWithout c p p (IsCalm-refl p) in
    (without-IsMap sv id p h m c (remove c p) b, without-IsLeft sv id p h m c (remove c p) b)

module _ (lib : UrlLib) where
  call-IsKept :
      (q : Call lib) (s : Store) (sv : Server)
      → IsSound s
      → IsMap sv.pools
      → Returns (IsKept lib q sv) (call lib q s sv)
  unfolding call clean
  call-IsKept (registered e header w) s sv v m =
      Returns->>= (IsKept lib (registered e header w) sv) (register e header w s sv) _ λ x got.
        Registers-IsRegistered e header s sv x m (
          of_Returns (Registers e header s sv) (register e header w s sv)
            (register-Registers e header w s sv m.0) got)
  call-IsKept (requested e w r) s sv v m =
      Returns->>= (IsKept lib (requested e w r) sv) (request lib e w r s sv) _ λ x got.
        of_Returns (IsHandled sv) (request lib e w r s sv) (request-IsHandled lib e sv m w r s) got
  call-IsKept (cleaned held now) s sv v m =
      Returns->>= (IsKept lib (cleaned held now) sv) (clean_pools held sv.config now sv.pools s) _
        λ (s', qs) got.
          let w =
            of_Returns (λ (_, qs). IsSwept sv.pools qs) (clean_pools held sv.config now sv.pools s)
              (clean_pools-Returns held sv.config now (λ (_, qs). IsSwept sv.pools qs) sv.pools s
                (clean_pools-IsSwept held sv.config now sv.pools s v m))
              got in
          (w.0, w.2)
  call-IsKept (synced e) s sv v m = synced-IsKeeping e s sv m
  call-IsKept (started id i now) s sv v m =
      started-IsKeeping lib id i now s sv (lookup id sv.pools) refl m
  call-IsKept (ended id c) s sv v m = ended-IsKept lib id c s sv (lookup id sv.pools) refl m

  -- A sequence of calls each of which keeps its promise
  pub data Follows : List (Call lib) → Store → Server → Store → Server → Type 0 where
    stops : {s : Store} {sv : Server} → Follows [] s sv s sv
    does :
        {q : Call lib} {qs : List (Call lib)} {s s' s'' : Store} {sv sv' sv'' : Server}
        → Promise lib q sv s' (table_of sv.pools) (table_of sv'.pools)
        → Follows qs s' sv' s'' sv''
        → Follows (q ∷ qs) s sv s'' sv''

  -- Let the connections be sound, the server not shut down, and its pools filed under their clients,
  -- each client once. If calls in any order return, then each of them has done to the table of
  -- connections what it promises: `Register` leaves it, or adds one connection for the cluster of a key
  -- that the cloud service called valid; a request leaves it, or takes out one write connection
  -- of one client, which it leaves closed; the cleaning only takes connections out; the sync and the start of a connection leave it;
  -- and the end of a connection takes out just this one.
  pub run-Follows :
      (qs : List (Call lib)) (s : Store) (sv : Server)
      → IsSound s
      → sv.done ≡ false
      → IsMap sv.pools
      → Returns (λ (s', sv'). Follows qs s sv s' sv') (run lib qs s sv)
  unfolding run
  run-Follows [] s sv v d m = stops
  run-Follows (q ∷ qs) s sv v d m =
      Returns->>= (λ (t, u). Follows (q ∷ qs) s sv t u) (call lib q s sv) _
        λ (s', sv') got.
          let (w, e) = of_Returns IsUp (call lib q s sv) (call-IsUp lib q s sv (v, d)) got in
          let (m', p) =
            of_Returns (IsKept lib q sv) (call lib q s sv) (call-IsKept q s sv v m) got in
          Returns-mono (run lib qs s' sv') (λ z f. does p f) (run-Follows qs s' sv' w e m')
