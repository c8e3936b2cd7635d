-- ===== src/Client/Pool/Filling.antt =====
-- What `connector` of client/pool.go achieves when the server accepts its connections.
use zk_wsp.Prelude.{◌≤◌, ℕ, ◌+◌, ◌<◌, ◌≡◌, true, false, none, some, All, length, ◌⊎◌}
use zk_wsp.Prelude.Int.{pos, pos_part, ◌≤ℤ◌}
use zk_wsp.Common.Types.{ConnectionType, read, write}
use zk_wsp.Common.Store.{Connection, Store, set_ws}
use zk_wsp.Greeting.{greeting}
use zk_wsp.Client.Config.{Config}
use zk_wsp.Client.Pool.{
  Pool, PoolSize, Dial, Created, connections_to_create, is_invalid, size, unknown,
}

-- The dial succeeds, and so does the greeting.
pub record IsAccepted (config : Config) (d : Dial) : Type 0 where
  pub valid : is_invalid d.response_code ≡ false
  pub socket : ℕ
  pub dialed : d.ws ≡ some socket
  pub greeted :
      (type : ConnectionType) → d.write_message (greeting config.pool_idle_size type) ≡ true

-- The objects of the pool's lists exist.
abbrev pub AreMade : Store → Pool → Type 0
AreMade s p = All (λ i. i < s.next) p.read_connections × All (λ i. i < s.next) p.write_connections

-- `n` more connections of a type, all available, and none of the other.
abbrev pub IsMore : ConnectionType → ℕ → PoolSize × PoolSize → PoolSize × PoolSize → Type 0
IsMore read n (r, w) (r', w') =
    (r'.idle ≡ r.idle + n) × (r'.total ≡ r.total + n) × (w'.idle ≡ w.idle) × (w'.total ≡ w.total)
IsMore write n (r, w) (r', w') =
    (w'.idle ≡ w.idle + n) × (w'.total ≡ w.total + n) × (r'.idle ≡ r.idle) × (r'.total ≡ r.total)
IsMore (unknown k) n x y = ⊥

-- What the creation of a connection leaves, when it is connected.
abbrev IsOpened : ConnectionType → Store → Pool → ℕ → Connection × Store × Pool → Type 0
IsOpened type s p ws (c, s', p') =
    let t = set_ws c ws s' in AreMade t p' × IsMore type 1 (size s p) (size t p')

-- `n` connections were created and started.
abbrev IsFilled : ConnectionType → ℕ → Store → Pool → Created → Type 0
IsFilled type n s p (err, s', p', started) =
    (err ≡ none) × AreMade s' p' × IsMore type n (size s p) (size s' p') × (length started ≡ n)

-- What was missing is there: as many connections as `PoolIdleSize` are available, or there are
-- `PoolMaxSize` in all; there are not more than that in all; none was created beyond `PoolIdleSize`;
-- all the new ones are available; and a further round would create nothing.
abbrev pub IsServed : Config → PoolSize → PoolSize → Type 0
IsServed config z z' =
    ((config.pool_idle_size ≤ℤ pos z'.idle) ⊎ (config.pool_max_size ≤ℤ pos z'.total))
    × (z'.total ≤ pos_part config.pool_max_size)
    × ((z'.total ≡ z.total) ⊎ (pos z'.idle ≤ℤ config.pool_idle_size))
    × (z'.total + z.idle ≡ z.total + z'.idle)
    × (pos_part (connections_to_create config z') ≡ 0)

-- Both types are served, and every new connection is started.
abbrev pub AreServed : Config → Store → Pool → Created → Type 0
AreServed config s p (err, s', p', started) =
    let (r, w) = size s p in
    let (r', w') = size s' p' in
    (err ≡ none)
    × IsServed config r r'
    × IsServed config w w'
    × (r.total + w.total + length started ≡ r'.total + w'.total)
