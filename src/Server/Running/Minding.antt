-- ===== src/Server/Running/Minding.antt =====
-- What the cleaning, the sync, and the start and the end of a connection leave to the other calls:
-- server/server.go, server/connectionStatus.go.
use zk_wsp.Prelude.{ℕ, inl, inr, Bool, Option, none, some, List, [], ◌∷◌, Bytes, Option-cases}
use zk_wsp.Prelude.Dict.{lookup}
use zk_wsp.Outcome.{
  ◌>>=◌, Outcome, ok, blocked, panic, Returns, Returns->>=, of_Returns, Succeeds-mono,
}
use zk_wsp.Http.Request.{UrlLib}
use zk_wsp.Common.Store.{Connection, Store}
use zk_wsp.Common.Write.{release, PingEnv, send_ping_message, on_socket}
use zk_wsp.Common.Write.Laws.{IsSound}
use zk_wsp.Common.Read.Laws.{close_connection-ok, shut_connection-IsSound}
use zk_wsp.Server.Pool.{Pool, server_pool}
use zk_wsp.Server.Pool.Idle.{get_idle_write_connection-HandsOut}
use zk_wsp.Server.Handlers.{Server}
use zk_wsp.Common.Receive.{Round}
use zk_wsp.Common.Write.{ping_error}
use zk_wsp.Server.Handlers.{set_pool}
use zk_wsp.Prelude.Dict.{keys}
use zk_wsp.Server.Status.{
  push_data, sync_url, probe, ping_status, get_connection_status, collect, periodic_sync, SyncEnv,
}
use zk_wsp.Server.Upkeep.{clean, clean_pools}
use zk_wsp.Server.Upkeep.Cleaning.{clean_pools-Returns, clean_pools-Swept}
use zk_wsp.Server.Running.{start_in, end_in}
use zk_wsp.Server.Running.Handling.{IsUp, release-Sound, handed-IsSound}

probe-IsUp :
    (ping : PingEnv) (id : Bytes) (some_busy : Bool) (sv : Server) (x : Option ℕ × Store × Pool)
    → IsUp (x.1, sv)
    → Returns (λ (_, s', sv'). IsUp (s', sv')) (probe ping id some_busy sv x)
unfolding send_ping_message
probe-IsUp ping id some_busy sv (none, s, p) v = v
probe-IsUp ping id some_busy sv (some c, s, p) (v, d) =
    released (s.writes c).ws (release server_pool ping.now c s p) (release-Sound ping.now c s p v)
  where
    released :
        (ws : Option ℕ) (m : Outcome (Store × Pool))
        → Returns (λ (s', _). IsSound s') m
        → Returns
            (λ (_, s', sv'). IsUp (s', sv'))
            (m >>= (λ (s', p'). on_socket ws (ping_error ping, s', p')) >>= λ (err, s', p').
              ok (ping_status err, s', set_pool id p' sv))
    released none (ok (s', p')) h = tt
    released (some ws) (ok (s', p')) h = (h, d)
    released ws blocked h = tt
    released ws panic h = tt

get_connection_status-IsUp :
    (rounds : ℕ → Round) (ping : PingEnv) (id : Bytes) (s : Store) (sv : Server)
    → IsUp (s, sv)
    → Returns (λ (_, s', sv'). IsUp (s', sv')) (get_connection_status rounds ping id s sv)
unfolding get_connection_status
get_connection_status-IsUp rounds ping id s sv (v, d) = elim (Option-cases (lookup id sv.pools)) [
  | inl e ↦ rw (get_connection_status, e) (v, d)
  | inr (p, e) ↦
      rw (get_connection_status, e)
        (probe-IsUp ping id _ sv _
          (handed-IsSound s p _ v (get_idle_write_connection-HandsOut sv.config rounds s p), d))
]

collect-IsUp :
    (e : SyncEnv) (ids : List Bytes) (s : Store) (sv : Server)
    → IsUp (s, sv)
    → Returns (λ (_, s', sv'). IsUp (s', sv')) (collect e ids s sv)
unfolding collect
collect-IsUp e [] s sv v = v
collect-IsUp e (id ∷ ids) s sv v =
    Returns->>= _ (get_connection_status (e.rounds id) (e.ping id) id s sv) _ λ (err, s', sv') g.
      Returns->>= _ (collect e ids s' sv') _ λ (states, s'', sv'') h.
        of_Returns (λ (_, s'', sv''). IsUp (s'', sv'')) (collect e ids s' sv')
          (collect-IsUp e ids s' sv' (
            of_Returns (λ (_, s', sv'). IsUp (s', sv'))
              (get_connection_status (e.rounds id) (e.ping id) id s sv)
              (get_connection_status-IsUp (e.rounds id) (e.ping id) id s sv v) g))
          h

pub synced-IsUp :
    (e : SyncEnv) (s : Store) (sv : Server)
    → IsUp (s, sv)
    → Returns IsUp (periodic_sync e s sv >>= λ (_, _, s', sv'). ok (s', sv'))
unfolding periodic_sync
synced-IsUp e s sv v =
    pushed (collect e (keys sv.pools) s sv) (collect-IsUp e (keys sv.pools) s sv v)
  where
    pushed :
        (m : Outcome (List (Bytes × Bool) × Store × Server))
        → Returns (λ (_, s', sv'). IsUp (s', sv')) m
        → Returns IsUp (
            m
            >>= (λ (states, s', sv'). ok (states, push_data e (sync_url sv.config) states, s', sv'))
            >>= λ (_, _, s', sv'). ok (s', sv'))
    pushed (ok x) h = h
    pushed blocked h = tt
    pushed panic h = tt

pub start_in-IsUp :
    (lib : UrlLib) (id : Bytes) (i now : ℕ) (s : Store) (sv : Server) (o : Option Pool)
    → IsUp (s, sv)
    → Returns IsUp (start_in lib id i now s sv o)
start_in-IsUp lib id i now s sv none v = v
start_in-IsUp lib id i now s sv (some p) (v, d) =
    Returns->>= IsUp (release server_pool now i s p) _ λ (s', p') e. (
      of_Returns (λ (s', _). IsSound s') (release server_pool now i s p) (release-Sound now i s p v)
          e,
      d,
    )

pub end_in-IsUp :
    (lib : UrlLib) (id : Bytes) (c : Connection) (s : Store) (sv : Server) (o : Option Pool)
    → IsUp (s, sv)
    → Returns IsUp (end_in lib id c s sv o)
end_in-IsUp lib id c s sv none (v, d) =
    rw (close_connection-ok c s v) (shut_connection-IsSound c s v, d)
end_in-IsUp lib id c s sv (some p) (v, d) =
    rw (close_connection-ok c s v) (shut_connection-IsSound c s v, d)

pub clean-IsUp :
    (held : Connection → Bool) (now : ℕ) (s : Store) (sv : Server)
    → IsUp (s, sv)
    → Returns IsUp (clean held now s sv)
unfolding clean
clean-IsUp held now s sv (v, d) =
    Returns->>= IsUp (clean_pools held sv.config now sv.pools s) _ λ (s', ps) got. (
      of_Returns (λ (t, qs). IsSound t) (clean_pools held sv.config now sv.pools s)
          (clean_pools-Returns held sv.config now (λ (t, qs). IsSound t) sv.pools s
            λ free.
              Succeeds-mono (clean_pools held sv.config now sv.pools s) (λ x h. h.sound)
                (clean_pools-Swept held sv.config now sv.pools s v free))
          got,
      d,
    )
