-- ===== src/Server/Members/Table.antt =====
-- How the operations on one pool show in the table.
use zk_wsp.Prelude.{
  ℕ, ◌+◌, ◌≡◌, ◌∙◌, sym, ap, refl, ◌⊎◌, inl, inr, true, false, Option, none, some, List, [], ◌∷◌,
  ◌++◌, Bytes, arith, same, same→eq, if◌then◌else◌, Bool-cases, occurrences-append, Bool,
}
use zk_wsp.Prelude.Dict.{lookup, insert, lookup-insert}
use zk_wsp.Common.Types.{ConnectionType, read, write, unknown}
use zk_wsp.Common.Store.{Connection, read_conn, write_conn, Store}
use zk_wsp.Common.Read.Laws.{same_conn}
use zk_wsp.Server.Pool.{Pool, add_connection, add_new, new_pool}
use zk_wsp.Server.Pool.Remove.{present}
use zk_wsp.Server.Config.{Config}
use zk_wsp.Server.Handlers.Pools.{pool_or_new}
use zk_wsp.Server.Members.{count_in, table_of, IsSame, IsJoined, IsLeft}

-- The entry of a client after an update of the map
lookup-updated :
    (ps : List (Bytes × Pool)) (id k : Bytes) (p' : Pool) (d : Connection)
    → table_of (insert id p' ps) k d ≡ (if same id k then present d p' else table_of ps k d)
lookup-updated ps id k p' d =
    ap (λ o. count_in d o) (lookup-insert ps k id p')
    ∙ elim (Bool-cases (same id k)) [ inl e ↦ rw e refl | inr e ↦ rw e refl ]

-- The pool `p` of the client `id`
module _ (ps : List (Bytes × Pool)) (id : Bytes) (o : Option Pool) (h : lookup id ps ≡ o) where
  at_key : (k : Bytes) (d : Connection) → same id k ≡ true → table_of ps k d ≡ count_in d o
  at_key k d e =
      ap (λ x. count_in d (lookup x ps)) (sym (same→eq id k e)) ∙ ap (λ x. count_in d x) h

  pub table_of-IsSame :
      (p' : Pool)
      → ((d : Connection) → present d p' ≡ count_in d o)
      → IsSame (table_of ps) (table_of (insert id p' ps))
  table_of-IsSame p' f k d = lookup-updated ps id k p' d ∙ elim (Bool-cases (same id k)) [
    | inl e ↦ rw e (f d ∙ sym (at_key k d e))
    | inr e ↦ rw e refl
  ]

  pub table_of-IsJoined :
      (p' : Pool) (c : Connection)
      → ((d : Connection) → present d p' ≡ count_in d o + (if same_conn c d then 1 else 0))
      → IsJoined id c (table_of ps) (table_of (insert id p' ps))
  table_of-IsJoined p' c f k d = lookup-updated ps id k p' d ∙ elim (Bool-cases (same id k)) [
    | inl e ↦ rw e (omega (arith, f d, at_key k d e))
    | inr e ↦ rw e (omega arith)
  ]

  pub table_of-IsLeft :
      (p' : Pool) (c : Connection)
      → ((d : Connection) → present d p' ≡ (if same_conn c d then 0 else count_in d o))
      → IsLeft id c (table_of ps) (table_of (insert id p' ps))
  table_of-IsLeft p' c f k d = lookup-updated ps id k p' d ∙ elim (Bool-cases (same id k)) [
    | inl e ↦ rw e (f d ∙ ap (λ n. if same_conn c d then 0 else n) (sym (at_key k d e)))
    | inr e ↦ rw e refl
  ]

-- What `AddConnection` does to the lists: nothing, or it adds the connection that it starts.
abbrev pub IsAdded : Pool → Pool → Type 0
IsAdded p p' =
    ((d : Connection) → present d p' ≡ present d p)
    ⊎ ((c : Connection) × ((d : Connection)
          → present d p' ≡ present d p + (if same_conn c d then 1 else 0)))

added_read :
    (p : Pool) (i : ℕ) (d : Connection)
    → present d (record p { read_connections = p.read_connections ++ i ∷ [] })
      ≡ present d p + (if same_conn (read_conn i) d then 1 else 0)
added_read p i (read_conn j) = ground (arith, occurrences-append j p.read_connections (i ∷ []))
added_read p i (write_conn j) = omega arith

added_write :
    (p : Pool) (i : ℕ) (d : Connection)
    → present d (record p { write_connections = p.write_connections ++ i ∷ [] })
      ≡ present d p + (if same_conn (write_conn i) d then 1 else 0)
added_write p i (write_conn j) = ground (arith, occurrences-append j p.write_connections (i ∷ []))
added_write p i (read_conn j) = omega arith

pub add_connection-IsAdded :
    (ws : ℕ) (type : ConnectionType) (s : Store) (p : Pool)
    → IsAdded p (add_connection ws type s p).2
unfolding add_connection
add_connection-IsAdded ws type s p = go type p.done
  where
    go :
        (type : ConnectionType) (b : Bool)
        → IsAdded p (if b then (none, s, p) else add_new ws type s p).2
    go type true = inl (λ d. refl)
    go read false = inr (read_conn s.next, added_read p s.next)
    go write false = inr (write_conn s.next, added_write p s.next)
    go (unknown n) false = inl (λ d. refl)

pub pool_or_new-present :
    (config : Config) (id : Bytes) (o : Option Pool) (d : Connection)
    → present d (pool_or_new config id o) ≡ count_in d o
unfolding new_pool
pool_or_new-present config id none (read_conn i) = refl
pool_or_new-present config id none (write_conn i) = refl
pool_or_new-present config id (some p) d = refl
