-- ===== src/Server/Handlers/Entered.antt =====
-- What step 3 of `Register` leaves of the pools: server/server.go, and `AddConnection` of
-- server/pool.go.
use zk_wsp.Prelude.{
  ℕ, ◌≡◌, ◌⊎◌, inl, inr, refl, sym, subst, true, false, Option, none, some, [], ◌∷◌, ◌++◌, Bytes,
  same, if◌then◌else◌, Bool-cases,
}
use zk_wsp.Prelude.Int.{ℤ}
use zk_wsp.Prelude.Dict.{lookup, lookup-insert}
use zk_wsp.Common.Types.{ConnectionType, read, write, unknown}
use zk_wsp.Common.Store.{Connection, read_conn, write_conn, Store}
use zk_wsp.Server.Pool.{Pool, add_connection}
use zk_wsp.Server.Handlers.{Server, register_connection}
use zk_wsp.Server.Handlers.Pools.{
  IsFiled, pool_or_new, put_connection, register_connection-put_connection,
}

-- The pool `p'` has the connections of the pool `p`.
abbrev pub HasSame : Pool → Pool → Type 0
HasSame p p' =
    (p'.read_connections ≡ p.read_connections) × (p'.write_connections ≡ p.write_connections)

-- A pool that is not shut down gets the next object at the end of the list of its type; a
-- connection of an unknown type is dropped.
abbrev pub Joins : ConnectionType → Store → Pool → Option Connection → Pool → Type 0
Joins read s p started p' =
    (started ≡ some (read_conn s.next))
    × (p'.read_connections ≡ p.read_connections ++ s.next ∷ [])
    × (p'.write_connections ≡ p.write_connections)
Joins write s p started p' =
    (started ≡ some (write_conn s.next))
    × (p'.write_connections ≡ p.write_connections ++ s.next ∷ [])
    × (p'.read_connections ≡ p.read_connections)
Joins (unknown n) s p started p' = (started ≡ none) × HasSame p p'

-- Only the pool of the client changes: it is the old one or a new one, has the idle size of the
-- greeting, and the new connection, unless it was shut down or the type is unknown.
pub record Entered (id : Bytes) (size : ℤ) (type : ConnectionType) (s : Store) (sv : Server)
    (x : Option Connection × Store × Server) : Type 0 where
  pub pool : Pool
  pub filed :
      (k : Bytes) → lookup k x.2.pools ≡ (if same id k then some pool else lookup k sv.pools)
  pub same_size : pool.idle_size ≡ size
  pub joined :
      let old = pool_or_new sv.config id (lookup id sv.pools) in
      ((old.done ≡ true) × (x.0 ≡ none) × HasSame old pool)
      ⊎ ((old.done ≡ false) × Joins type s old x.0 pool)

-- What a call of `AddConnection` on `p` leaves.
abbrev IsAdded : ConnectionType → ℤ → Store → Pool → Option Connection × Store × Pool → Type 0
IsAdded type size s p x =
    (x.2.idle_size ≡ size)
    × (((p.done ≡ true) × (x.0 ≡ none) × HasSame p x.2)
        ⊎ ((p.done ≡ false) × Joins type s p x.0 x.2))

add_connection-IsAdded :
    (type : ConnectionType) (ws : ℕ) (size : ℤ) (s : Store) (p : Pool)
    → IsAdded type size s p (add_connection ws type s (record p { idle_size = size }))
unfolding add_connection
add_connection-IsAdded read ws size s p = elim (Bool-cases p.done) [
  | inl y ↦ rw y (refl, inl (refl, refl, (refl, refl)))
  | inr n ↦ rw n (refl, inr (refl, (refl, refl, refl)))
]
add_connection-IsAdded write ws size s p = elim (Bool-cases p.done) [
  | inl y ↦ rw y (refl, inl (refl, refl, (refl, refl)))
  | inr n ↦ rw n (refl, inr (refl, (refl, refl, refl)))
]
add_connection-IsAdded (unknown k) ws size s p = elim (Bool-cases p.done) [
  | inl y ↦ rw y (refl, inl (refl, refl, (refl, refl)))
  | inr n ↦ rw n (refl, inr (refl, (refl, (refl, refl))))
]

put_connection-Entered :
    (id : Bytes) (size : ℤ) (type : ConnectionType) (ws : ℕ) (s : Store) (sv : Server)
    → Entered id size type s sv (put_connection id size type ws s sv)
put_connection-Entered id size type ws s sv =
    let old = pool_or_new sv.config id (lookup id sv.pools) in
    let p = (add_connection ws type s (record old { idle_size = size })).2 in
    let (same_idle_size, added) = add_connection-IsAdded type ws size s old in
    record {
      pool = p;
      filed = λ k. lookup-insert sv.pools k id p;
      same_size = same_idle_size;
      joined = added;
    }

pub register_connection-Entered :
    (id : Bytes) (size : ℤ) (type : ConnectionType) (ws : ℕ) (s : Store) (sv : Server)
    → IsFiled sv.pools
    → Entered id size type s sv (register_connection id size type ws s sv)
register_connection-Entered id size type ws s sv f =
    subst (Entered id size type s sv)
      (sym (register_connection-put_connection id size type ws s sv f).0)
      (put_connection-Entered id size type ws s sv)
