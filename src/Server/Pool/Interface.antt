-- ===== src/Server/Pool/Interface.antt =====
-- The server's pool keeps what the connections rely on.
use zk_wsp.Prelude.{ℕ, ◌≤◌, ◌<◌, ◌≡◌, refl, ◌++◌, [], ◌∷◌, length}
use zk_wsp.Outcome.{ok, blocked}
use zk_wsp.Common.Pool.{IsConnectionPool, send-ok, send-blocked}
use zk_wsp.Server.Pool.{Pool, offer, server_pool}

pub offer-room :
    (i : ℕ) (p : Pool)
    → length p.idle < p.capacity
    → offer i p ≡ ok (record p { idle = p.idle ++ i ∷ [] })
unfolding offer
offer-room i p h = rw (send-ok p.capacity p.idle i h)

pub offer-full : (i : ℕ) (p : Pool) → p.capacity ≤ length p.idle → offer i p ≡ blocked
unfolding offer
offer-full i p h = rw (send-blocked p.capacity p.idle i h)

abbrev pub server_pool-lawful : IsConnectionPool server_pool
server_pool-lawful = record {
  idle = λ p. p.idle;
  capacity = λ p. p.capacity;
  offer-room = λ i p h. record {
    after = record p { idle = p.idle ++ i ∷ [] };
    offered = offer-room i p h;
    queued = refl;
    same_capacity = refl;
  };
  offer-full = offer-full;
}
