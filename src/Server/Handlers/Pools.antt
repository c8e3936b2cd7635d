-- ===== src/Server/Handlers/Pools.antt =====
-- The pools of the server by client: server/server.go, step 3 of `Register`.
use zk_wsp.Prelude.{
  ℕ, ◌≡◌, ◌∙◌, refl, sym, Bool, true, false, Option, none, some, List, [], ◌∷◌, if◌then◌else◌,
  Bytes, arith, same, same→eq, Bool-cases, inl, inr, All,
}
use zk_wsp.Prelude.Int.{ℤ}
use zk_wsp.Prelude.Dict.{lookup, insert}
use zk_wsp.Common.Types.{ConnectionType, read, write, unknown}
use zk_wsp.Common.Store.{Connection, Store}
use zk_wsp.Server.Config.{Config}
use zk_wsp.Server.Pool.{Pool, new_pool, add_connection, add_new}
use zk_wsp.Server.Handlers.{Server, find_pool, register_connection, pool_for, set_pool}

-- Each pool is filed under its client.
abbrev pub IsFiled : List (Bytes × Pool) → Type 0
IsFiled = All (λ x. x.1.client_id ≡ x.0)

-- The search for a client's pool is a lookup.
pub find_pool-lookup :
    (id : Bytes) (ps : List (Bytes × Pool))
    → IsFiled ps
    → find_pool id ps ≡ (elim (lookup id ps) [ none ↦ none | some p ↦ some (id, p) ])
unfolding find_pool lookup
find_pool-lookup id [] f = refl
find_pool-lookup id ((k, p) ∷ ps) f = elim (Bool-cases (same k id)) [
  | inl e ↦ rw (f.0, e) (ground (arith, same→eq k id e))
  | inr e ↦ rw (f.0, e) (find_pool-lookup id ps f.1)
]

add_new-client :
    (type : ConnectionType) (ws : ℕ) (s : Store) (p : Pool)
    → (add_new ws type s p).2.client_id ≡ p.client_id
add_new-client read ws s p = refl
add_new-client write ws s p = refl
add_new-client (unknown n) ws s p = refl

pub add_connection-client :
    (type : ConnectionType) (ws : ℕ) (s : Store) (p : Pool)
    → (add_connection ws type s p).2.client_id ≡ p.client_id
unfolding add_connection
add_connection-client type ws s p = refuses p.done
  where
    refuses :
        (done : Bool)
        → (if done then (none, s, p) else add_new ws type s p).2.client_id ≡ p.client_id
    refuses true = refl
    refuses false = add_new-client type ws s p

pub IsFiled-insert :
    (id : Bytes) (p : Pool) (ps : List (Bytes × Pool))
    → IsFiled ps
    → p.client_id ≡ id
    → IsFiled (insert id p ps)
unfolding insert
IsFiled-insert id p [] f e = (e, tt)
IsFiled-insert id p ((k, q) ∷ ps) f e = elim (Bool-cases (same k id)) [
  | inl y ↦ rw y (e ∙ sym (same→eq k id y), f.1)
  | inr n ↦ rw n (f.0, IsFiled-insert id p ps f.1 e)
]

pub IsFiled-lookup :
    (id : Bytes) (p : Pool) (ps : List (Bytes × Pool))
    → IsFiled ps
    → lookup id ps ≡ some p
    → p.client_id ≡ id
unfolding lookup
IsFiled-lookup id p [] f e = cc
IsFiled-lookup id p ((k, q) ∷ ps) f e = elim (Bool-cases (same k id)) [
  | inl y ↦ ground (arith, same→eq k id y)
  | inr n ↦ ground (arith, IsFiled-lookup id p ps f.1)
]

-- The pool of a client, a new one if it has none.
abbrev pub pool_or_new : Config → Bytes → Option Pool → Pool
pool_or_new config id none = new_pool config id
pool_or_new config id (some p) = p

pub pool_or_new-client :
    (config : Config) (id : Bytes) (ps : List (Bytes × Pool)) (found : Option Pool)
    → IsFiled ps
    → lookup id ps ≡ found
    → (pool_or_new config id found).client_id ≡ id
unfolding new_pool
pool_or_new-client config id ps none f e = refl
pool_or_new-client config id ps (some p) f e = IsFiled-lookup id p ps f e

-- The registration of a connection as an update of a map at the client's key.
abbrev pub put_connection :
    Bytes → ℤ → ConnectionType → ℕ → Store → Server → Option Connection × Store × Server
put_connection id size type ws s sv =
    let (started, s', p') =
      add_connection ws type s
        (record (pool_or_new sv.config id (lookup id sv.pools)) { idle_size = size }) in
    (started, s', set_pool id p' sv)

pool_for-pool_or_new :
    (config : Config) (id : Bytes) (found : Option Pool)
    → pool_for config id (elim found [ none ↦ none | some p ↦ some (id, p) ])
      ≡ (id, pool_or_new config id found)
pool_for-pool_or_new config id none = refl
pool_for-pool_or_new config id (some p) = refl

-- If each pool is filed under its client, then the loop of `Register` finds the pool that a lookup
-- finds, so that the new connection goes to the client's pool or to a new one and every other pool
-- is kept; and each pool is filed under its client afterwards.
pub register_connection-put_connection :
    (id : Bytes) (size : ℤ) (type : ConnectionType) (ws : ℕ) (s : Store) (sv : Server)
    → IsFiled sv.pools
    → (register_connection id size type ws s sv ≡ put_connection id size type ws s sv)
      × IsFiled (register_connection id size type ws s sv).2.pools
unfolding register_connection
register_connection-put_connection id size type ws s sv f =
    rw (find_pool-lookup id sv.pools f, pool_for-pool_or_new sv.config id (lookup id sv.pools))
      (
        refl,
        IsFiled-insert id _ sv.pools f
            (add_connection-client type ws s _ ∙ pool_or_new-client sv.config id sv.pools _ f refl),
      )
