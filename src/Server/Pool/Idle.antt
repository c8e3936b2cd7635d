-- ===== src/Server/Pool/Idle.antt =====
-- How server/pool.go hands out idle connections, and what becomes of its channel.
use zk_wsp.Prelude.{
  ℕ, zero, suc, ◌+◌, ◌≡◌, refl, true, false, Option, none, some, List, [], ◌∷◌, ◌++◌, arith,
  ==_refl, length, ◌<◌, ◌≤◌, ap, length-append,
}
use zk_wsp.Outcome.{Outcome, ok, panic, blocked, ◌>>=◌, Succeeds}
use zk_wsp.Common.Types.{Status, is_idle, write}
use zk_wsp.Common.Store.{write_conn, Store, update}
use zk_wsp.Common.Write.{release, close_without_lock}
use zk_wsp.Common.Write.Laws.{release-ok, release-blocked, close-ok_at, freed}
use zk_wsp.Common.Write.Uses.{taken, take-idle}
use zk_wsp.Common.Receive.{Round}
use zk_wsp.Common.Receive.Laws.{
  AllStale, Received, get_value_with_timeout-Received, get_value_with_timeout-first_idle,
}
use zk_wsp.Server.Config.{Config, get_timeout}
use zk_wsp.Server.Pool.{
  Pool, get_idle_write_connection, add_connection, server_pool, remove_without_lock, take_received,
}
use zk_wsp.Server.Pool.Interface.{offer-room, offer-full, server_pool-lawful}

-- What `GetIdleWriteConnection` does with the connections at the head of the channel.
abbrev pub HandsOut : Store → Pool → Option ℕ × Store × Pool → Type 0
HandsOut s p (some c, s', p') =
    (stale : List ℕ) × (p.idle ≡ stale ++ c ∷ p'.idle)
    × AllStale s stale
    × (is_idle (s.writes c).status ≡ true)
    × (s' ≡ taken c s)
    × (p' ≡ record p { idle = p'.idle })
HandsOut s p (none, s', p') =
    (stale : List ℕ) × (p.idle ≡ stale ++ p'.idle)
    × AllStale s stale
    × (s' ≡ s)
    × (p' ≡ record p { idle = p'.idle })

-- `GetIdleWriteConnection` hands out a connection that was idle, which is busy then and no more in
-- the channel, or none. In both cases it drops only unusable connections from the channel, and
-- neither another connection nor another field of the pool changes.
pub get_idle_write_connection-HandsOut :
    (config : Config) (rounds : ℕ → Round) (s : Store) (p : Pool)
    → HandsOut s p (get_idle_write_connection config rounds s p)
unfolding get_idle_write_connection
get_idle_write_connection-HandsOut config rounds s p =
    go _ (get_value_with_timeout-Received s rounds 0 (get_timeout config) p.idle)
  where
    go : (r : Option ℕ × List ℕ) → Received s p.idle r → HandsOut s p (take_received r s p)
    go (none, rest) (stale, e, all) = (stale, e, all, refl, refl)
    go (some c, rest) (stale, e, all, h) = rw (take-idle c s h) (stale, e, all, h, refl, refl)

-- While the channel wins over the timer, `GetIdleWriteConnection` finds an idle connection if there
-- is one in the channel, behind any number of unusable ones.
pub get_idle_write_connection-finds :
    (config : Config) (rounds : ℕ → Round) (s : Store) (p : Pool) (stale : List ℕ) (c : ℕ)
    (rest : List ℕ)
    → ((j : ℕ) → (rounds j).timer_first ≡ false)
    → p.idle ≡ stale ++ c ∷ rest
    → AllStale s stale
    → is_idle (s.writes c).status ≡ true
    → (get_idle_write_connection config rounds s p).0 ≡ some c
unfolding get_idle_write_connection
get_idle_write_connection-finds config rounds s p stale c rest quiet e all h = rw (
  e,
  get_value_with_timeout-first_idle s rounds quiet stale c rest all h 0 (get_timeout config),
  take-idle c s h,
)

-- A peer that registers a connection, which `Start` releases, and then disconnects: the end of
-- `Start` removes the connection from the pool and closes it.
unfoldable pub visit : ℕ → ℕ → Store → Pool → Outcome (Store × Pool)
visit ws now s p =
    let (c, s1, p1) = add_connection ws write s p in
    release server_pool now s.next s1 p1 >>= λ (s2, p2).
    close_without_lock s.next s2 >>= λ s3. ok (s3, remove_without_lock (write_conn s.next) p2)

-- So many visits, one after the other.
unfoldable pub visits : ℕ → ℕ → Store → Pool → Outcome (Store × Pool)
unfolding visit
visits zero now s p = ok (s, p)
visits (suc n) now s p = visit n now s p >>= λ (s', p'). visits n now s' p'

-- The pool after `AddConnection` of a write connection
abbrev pub with_new : Store → Pool → Pool
with_new s p = record p { write_connections = p.write_connections ++ s.next ∷ [] }

-- The store after it, where the new connection is the only change.
abbrev pub with_socket : ℕ → Store → Store
with_socket ws s = record s {
  writes =
      update
        (update s.writes s.next (record {
          ws = none;
          status = Status.idle;
          idle_since = 0;
          next_response_closed = false;
        }))
        s.next
        (record {
          ws = some ws;
          status = Status.idle;
          idle_since = 0;
          next_response_closed = false;
        });
  next = suc s.next;
}

pub add_connection-write :
    (ws : ℕ) (s : Store) (p : Pool)
    → p.done ≡ false
    → add_connection ws write s p ≡ (some (write_conn s.next), with_socket ws s, with_new s p)
unfolding add_connection
add_connection-write ws s p alive = ground (arith, ==_refl s.next)

pub with_socket-next :
    (ws : ℕ) (s : Store) → ((with_socket ws s).writes s.next).status ≡ Status.idle
with_socket-next ws s = rw (==_refl s.next)

-- After a visit the connection is gone from the lists, and still in the channel.
record Visited (s : Store) (p : Pool) (s' : Store) (p' : Pool) : Type 0 where
  queued : p'.idle ≡ p.idle ++ s.next ∷ []
  capacity : p'.capacity ≡ p.capacity
  alive : p'.done ≡ false

visit-Visited :
    (ws now : ℕ) (s : Store) (p : Pool)
    → p.done ≡ false
    → length p.idle < p.capacity
    → Succeeds (λ (s', p'). Visited s p s' p') (visit ws now s p)
unfolding visit remove_without_lock
visit-Visited ws now s p alive room =
    rw
      (
        add_connection-write ws s p alive,
        release-ok server_pool server_pool-lawful now s.next (with_socket ws s) (with_new s p)
            (record (with_new s p) { idle = p.idle ++ s.next ∷ [] }) (rw (with_socket-next ws s))
            (offer-room s.next (with_new s p) room),
        close-ok_at s.next (freed server_pool server_pool-lawful now s.next (with_socket ws s))
            (rw (==_refl s.next)),
      )
      (record { queued = refl; capacity = refl; alive = alive })

visit-blocked :
    (ws now : ℕ) (s : Store) (p : Pool)
    → p.done ≡ false
    → p.capacity ≤ length p.idle
    → visit ws now s p ≡ blocked
unfolding visit
visit-blocked ws now s p alive full = rw (
  add_connection-write ws s p alive,
  release-blocked server_pool server_pool-lawful now s.next (with_socket ws s) (with_new s p)
      (rw (with_socket-next ws s)) (offer-full s.next (with_new s p) full),
)

visits-after :
    (n now : ℕ) (s : Store) (p : Pool) (m : Outcome (Store × Pool))
    → Succeeds (λ (s', p'). Visited s p s' p') m
    → ((s' : Store) (p' : Pool) → Visited s p s' p' → visits n now s' p' ≡ blocked)
    → (m >>= λ (s', p'). visits n now s' p') ≡ blocked
visits-after n now s p (ok (s', p')) v k = k s' p' v
visits-after n now s p blocked v k = absurd v
visits-after n now s p panic v k = absurd v

-- In a pool that is not shut down, let peers register write connections and leave again, one after the
-- other, and let nobody take a connection meanwhile. Each visit puts a connection into the channel, so
-- that the visit after the channel is full waits for ever: for every capacity and whatever the channel
-- and the lists held at the start.
pub visits-blocked :
    (n now : ℕ) (s : Store) (p : Pool)
    → p.done ≡ false
    → length p.idle + n ≡ p.capacity
    → visits (suc n) now s p ≡ blocked
unfolding visits
visits-blocked zero now s p alive fill = rw (visit-blocked 0 now s p alive (omega arith))
visits-blocked (suc n) now s p alive fill =
    visits-after (suc n) now s p (visit (suc n) now s p)
      (visit-Visited (suc n) now s p alive (omega arith))
      λ s' p' v.
        visits-blocked n now s' p' v.alive
          (omega (arith, ap length v.queued, length-append p.idle (s.next ∷ []), v.capacity))
