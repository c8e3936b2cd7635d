-- ===== src/Client/Pool/Interface.antt =====
-- The client's pool keeps what the connections rely on: client/pool.go.
use zk_wsp.Prelude.{
  ℕ, ◌≤◌, ◌<◌, ◌≡◌, refl, ◌++◌, [], ◌∷◌, length, occurrences, occurrences-keep, ◌∙◌, ==_refl,
}
use zk_wsp.Outcome.{ok, blocked}
use zk_wsp.Common.Store.{write_conn}
use zk_wsp.Common.Pool.{IsConnectionPool, send-ok, send-blocked}
use zk_wsp.Client.Pool.{Pool, offer, client_pool, remove_without_lock}

pub offer-room :
    (i : ℕ) (p : Pool)
    → length p.idle < p.capacity
    → offer i p ≡ ok (record p { idle = p.idle ++ i ∷ [] })
unfolding offer
offer-room i p h = rw (send-ok p.capacity p.idle i h)

pub offer-full : (i : ℕ) (p : Pool) → p.capacity ≤ length p.idle → offer i p ≡ blocked
unfolding offer
offer-full i p h = rw (send-blocked p.capacity p.idle i h)

abbrev pub client_pool-lawful : IsConnectionPool client_pool
client_pool-lawful = record {
  idle = λ p. p.idle;
  capacity = λ p. p.capacity;
  offer-room = λ i p h. record {
    after = record p { idle = p.idle ++ i ∷ [] };
    offered = offer-room i p h;
    queued = refl;
    same_capacity = refl;
  };
  offer-full = offer-full;
}

pub remove-absent :
    (c : ℕ) (p : Pool) → occurrences c (remove_without_lock (write_conn c) p).write_connections ≡ 0
unfolding remove_without_lock
remove-absent c p = occurrences-keep c c p.write_connections ∙ rw (==_refl c)
