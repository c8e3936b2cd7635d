-- ===== src/Client/Pool/Idle.antt =====
-- How client/pool.go hands out idle connections.
use zk_wsp.Prelude.{ℕ, ◌≡◌, refl, true, Option, none, some, List, ◌∷◌, ◌++◌}
use zk_wsp.Common.Types.{is_idle}
use zk_wsp.Common.Store.{Store}
use zk_wsp.Common.Write.Uses.{taken, take-idle}
use zk_wsp.Common.Receive.{Round}
use zk_wsp.Common.Receive.Laws.{AllStale, Received, get_value_with_timeout-Received}
use zk_wsp.Client.Config.{Config, get_timeout}
use zk_wsp.Client.Pool.{Pool, get_idle_write_connection, take_received}

-- What `GetIdleWriteConnection` does with the connections at the head of the channel.
abbrev pub HandsOut : Store → Pool → Option ℕ × Store × Pool → Type 0
HandsOut s p (some c, s', p') =
    (stale : List ℕ) × (p.idle ≡ stale ++ c ∷ p'.idle)
    × AllStale s stale
    × (is_idle (s.writes c).status ≡ true)
    × (s' ≡ taken c s)
    × (p' ≡ record p { idle = p'.idle })
HandsOut s p (none, s', p') =
    (stale : List ℕ) × (p.idle ≡ stale ++ p'.idle)
    × AllStale s stale
    × (s' ≡ s)
    × (p' ≡ record p { idle = p'.idle })

pub get_idle_write_connection-HandsOut :
    (config : Config) (rounds : ℕ → Round) (s : Store) (p : Pool)
    → HandsOut s p (get_idle_write_connection config rounds s p)
unfolding get_idle_write_connection
get_idle_write_connection-HandsOut config rounds s p =
    go _ (get_value_with_timeout-Received s rounds 0 (get_timeout config) p.idle)
  where
    go : (r : Option ℕ × List ℕ) → Received s p.idle r → HandsOut s p (take_received r s p)
    go (none, rest) (stale, e, all) = (stale, e, all, refl, refl)
    go (some c, rest) (stale, e, all, h) = rw (take-idle c s h) (stale, e, all, h, refl, refl)
