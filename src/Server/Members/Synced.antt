-- ===== src/Server/Members/Synced.antt =====
-- The sync leaves the table as it is: server/connectionStatus.go.
use zk_wsp.Prelude.{
  ℕ, ◌≡◌, ◌∙◌, refl, inl, inr, Bool, Option, none, some, List, [], ◌∷◌, Bytes, Option-cases,
}
use zk_wsp.Prelude.Dict.{lookup, keys}
use zk_wsp.Outcome.{Outcome, ok, blocked, panic, ◌>>=◌, Returns, Returns->>=, of_Returns}
use zk_wsp.Common.Store.{Store}
use zk_wsp.Common.Receive.{Round}
use zk_wsp.Common.Write.{release, PingEnv, send_ping_message, ping_error, on_socket}
use zk_wsp.Server.Pool.{Pool, server_pool, get_idle_write_connection}
use zk_wsp.Server.Handlers.{Server, set_pool}
use zk_wsp.Server.Status.{
  StatusError, SyncEnv, probe, ping_status, get_connection_status, collect, periodic_sync,
  push_data, sync_url,
}
use zk_wsp.Server.Members.{table_of, IsSame}
use zk_wsp.Server.Members.Handled.{
  IsMap, IsCalm, IsCalm-trans, release-IsCalm, take_received-IsCalm, calm-IsMap, calm-IsSame,
}

-- What a call leaves that does not touch the lists.
abbrev pub IsKeeping : Server → Server → Type 0
IsKeeping sv sv' = IsMap sv'.pools × IsSame (table_of sv.pools) (table_of sv'.pools)

IsKeeping-trans : (a b c : Server) → IsKeeping a b → IsKeeping b c → IsKeeping a c
IsKeeping-trans a b c (m, f) (n, g) = (n, λ k d. g k d ∙ f k d)

pub calm-IsKeeping :
    (sv : Server) (id : Bytes) (p p' : Pool)
    → lookup id sv.pools ≡ some p
    → IsMap sv.pools
    → IsCalm p p'
    → IsKeeping sv (set_pool id p' sv)
calm-IsKeeping sv id p p' h m a = (calm-IsMap sv id p h m p' a, calm-IsSame sv id p h m p' a)

module _ (sv : Server) (id : Bytes) (p : Pool) (h : lookup id sv.pools ≡ some p)
    (m : IsMap sv.pools) where
  probe-IsKeeping :
      (ping : PingEnv) (some_busy : Bool) (x : Option ℕ × Store × Pool)
      → IsCalm p x.2
      → Returns (λ (_, _, sv'). IsKeeping sv sv') (probe ping id some_busy sv x)
  unfolding send_ping_message
  probe-IsKeeping ping some_busy (none, s, p') a = calm-IsKeeping sv id p p' h m a
  probe-IsKeeping ping some_busy (some c, s, p') a =
      released (s.writes c).ws (release server_pool ping.now c s p')
        (release-IsCalm ping.now c s p')
    where
      released :
          (ws : Option ℕ) (q : Outcome (Store × Pool))
          → Returns (λ (_, p''). IsCalm p' p'') q
          → Returns {A = Option StatusError × Store × Server}
              (λ (_, _, sv'). IsKeeping sv sv')
              (q >>= (λ (s', p''). on_socket ws (ping_error ping, s', p'')) >>= λ (err, s', p'').
                ok (ping_status err, s', set_pool id p'' sv))
      released none (ok (s', p'')) b = tt
      released (some ws) (ok (s', p'')) b =
          calm-IsKeeping sv id p p'' h m (IsCalm-trans p p' p'' a b)
      released ws blocked b = tt
      released ws panic b = tt

get_connection_status-IsKeeping :
    (rounds : ℕ → Round) (ping : PingEnv) (id : Bytes) (s : Store) (sv : Server)
    → IsMap sv.pools
    → Returns (λ (_, _, sv'). IsKeeping sv sv') (get_connection_status rounds ping id s sv)
unfolding get_connection_status
get_connection_status-IsKeeping rounds ping id s sv m = elim (Option-cases (lookup id sv.pools)) [
  | inl e ↦ rw (get_connection_status, e) (m, λ k d. refl)
  | inr (p, e) ↦
      rw (get_connection_status, e)
        (unfold get_idle_write_connection in
          probe-IsKeeping sv id p e m ping _ _ (take_received-IsCalm _ s p))
]

collect-IsKeeping :
    (e : SyncEnv) (ids : List Bytes) (s : Store) (sv : Server)
    → IsMap sv.pools
    → Returns (λ (_, _, sv'). IsKeeping sv sv') (collect e ids s sv)
unfolding collect
collect-IsKeeping e [] s sv m = (m, λ k d. refl)
collect-IsKeeping e (id ∷ ids) s sv m =
    Returns->>= _ (get_connection_status (e.rounds id) (e.ping id) id s sv) _ λ (err, s', sv') g.
      Returns->>= _ (collect e ids s' sv') _ λ (states, s'', sv'') h.
        let a =
          of_Returns (λ (_, _, sv'). IsKeeping sv sv')
            (get_connection_status (e.rounds id) (e.ping id) id s sv)
            (get_connection_status-IsKeeping (e.rounds id) (e.ping id) id s sv m) g in
        IsKeeping-trans sv sv' sv'' a (
          of_Returns (λ (_, _, sv''). IsKeeping sv' sv'') (collect e ids s' sv')
            (collect-IsKeeping e ids s' sv' a.0) h)

pub synced-IsKeeping :
    (e : SyncEnv) (s : Store) (sv : Server)
    → IsMap sv.pools
    → Returns
        (λ (_, sv'). IsKeeping sv sv')
        (periodic_sync e s sv >>= λ (_, _, s', sv'). ok (s', sv'))
unfolding periodic_sync
synced-IsKeeping e s sv m =
    pushed (collect e (keys sv.pools) s sv) (collect-IsKeeping e (keys sv.pools) s sv m)
  where
    pushed :
        (q : Outcome (List (Bytes × Bool) × Store × Server))
        → Returns (λ (_, _, sv'). IsKeeping sv sv') q
        → Returns
            (λ (_, sv'). IsKeeping sv sv')
            (q
              >>= (λ (states, s', sv').
                  ok (states, push_data e (sync_url sv.config) states, s', sv'))
              >>= λ (_, _, s', sv'). ok (s', sv'))
    pushed (ok x) h = h
    pushed blocked h = tt
    pushed panic h = tt
