-- ===== src/Client/Pool/Bounds.antt =====
-- How many connections the client opens: client/pool.go, `connector`.
use zk_wsp.Prelude.{
  count-le-length, ◌^◌, if◌then◌else◌, ℕ, zero, suc, ◌+◌, ◌≤◌, ◌≡◌, refl, Option, none, some, List,
  [], ◌∷◌, ◌++◌, length, arith, ==_refl, ◌∙◌, length-append, Bool-cases, inl, inr, ◌⊎◌,
}
use zk_wsp.Prelude.Int.{
  ℤ, pos, negsuc, pos_part, neg_part, int_laws, ◌≤ℤ◌, ◌<ℤ◌, ◌+ℤ◌, ◌-ℤ◌, ltb_ℤ, wrap-fits, +ℤ_parts,
  -ℤ_parts,
}
use zk_wsp.Outcome.{ok, ◌>>=◌, Succeeds, Succeeds->>=}
use zk_wsp.Common.Types.{ConnectionType, read, write, is_closed}
use zk_wsp.Common.Store.{
  Connection, read_conn, write_conn, Store, set_ws, update, WriteConnection, new_read_connection,
  new_write_connection,
}
use zk_wsp.Common.Read.{close_connection}
use zk_wsp.Common.Read.Laws.{close_connection-ok, shut_connection-IsSound}
use zk_wsp.Common.Write.Laws.{IsSound}
use zk_wsp.Client.Config.{Config}
use zk_wsp.Client.Pool.{
  Pool, PoolSize, Dial, Created, create, create_connections, connector, connections_to_create,
  connect_internal, remove_without_lock, unknown, new_read_connection, new_write_connection, greet,
  is_invalid, is_available, without, ConnectError, size, start_too, start_all,
}

-- `PoolMaxSize` is not negative, and both sizes are far from the ends of the range of an int.
abbrev pub IsSized : Config → Type 0
IsSized config =
    (pos 0 ≤ℤ config.pool_max_size)
    × (config.pool_max_size <ℤ pos (2 ^ 62))
    × (negsuc (2 ^ 62) ≤ℤ config.pool_idle_size)
    × (config.pool_idle_size <ℤ pos (2 ^ 62))

-- What is counted of one type of connections.
abbrev pub IsCount : Config → PoolSize → Type 0
IsCount config z = (z.idle ≤ z.total) × (z.total ≤ pos_part config.pool_max_size)

-- The number of connections to create, if nothing wraps around.
abbrev pub missing : Config → PoolSize → ℤ
missing config z =
    let to_create = config.pool_idle_size -ℤ pos z.idle in
    if ltb_ℤ config.pool_max_size (pos z.total +ℤ to_create)
    then config.pool_max_size -ℤ pos z.total
    else to_create

pub not_negative : (a : ℤ) → pos 0 ≤ℤ a → neg_part a ≡ 0
not_negative (pos n) h = refl
not_negative (negsuc n) h = omega arith

pub connections_to_create-missing :
    (config : Config) (z : PoolSize)
    → IsSized config
    → IsCount config z
    → connections_to_create config z ≡ missing config z
unfolding connections_to_create
connections_to_create-missing config z (a, b, c, d) (x, y) =
    let idle_size = config.pool_idle_size in
    let max = config.pool_max_size in
    let n = not_negative max a in
    let p = -ℤ_parts idle_size (pos z.idle) in
    let q = +ℤ_parts (pos z.total) (idle_size -ℤ pos z.idle) in
    let r = -ℤ_parts max (pos z.total) in
    rw
      (
        wrap-fits (idle_size -ℤ pos z.idle) (omega (arith, n, p)) (omega (arith, n, p)),
        wrap-fits (pos z.total +ℤ (idle_size -ℤ pos z.idle)) (omega (arith, n, p, q))
            (omega (arith, n, p, q)),
        wrap-fits (max -ℤ pos z.total) (omega (arith, n, r)) (omega (arith, n, r)),
      )
      refl

missing-bounded :
    (config : Config) (z : PoolSize)
    → z.total ≤ pos_part config.pool_max_size
    → pos 0 ≤ℤ config.pool_max_size
    → z.total + pos_part (missing config z) ≤ pos_part config.pool_max_size
missing-bounded config z h k = grind int_laws

-- No more than `PoolMaxSize` connections are created: none if there are as many already.
pub connections_to_create-bounded :
    (config : Config) (z : PoolSize)
    → IsSized config
    → IsCount config z
    → z.total + pos_part (connections_to_create config z) ≤ pos_part config.pool_max_size
connections_to_create-bounded config z k c =
    rw (connections_to_create-missing config z k c) (missing-bounded config z c.1 k.0)

-- At most `n` connections of a type more, and no more of the other type.
abbrev pub Grown : ConnectionType → ℕ → Pool → Pool → Type 0
Grown read n p q =
    (length q.read_connections ≤ length p.read_connections + n)
    × (length q.write_connections ≤ length p.write_connections)
    × (q.retry_interval ≡ p.retry_interval)
    × (q.done ≡ p.done)
Grown write n p q =
    (length q.write_connections ≤ length p.write_connections + n)
    × (length q.read_connections ≤ length p.read_connections)
    × (q.retry_interval ≡ p.retry_interval)
    × (q.done ≡ p.done)
Grown (unknown k) n p q = ⊥

set_ws-IsSound : (c : Connection) (ws : ℕ) (s : Store) → IsSound s → IsSound (set_ws c ws s)
set_ws-IsSound (read_conn i) ws s v j = v j
set_ws-IsSound (write_conn i) ws s v j = ground (arith, v i, v j)

greet-IsSound :
    (config : Config) (d : Dial) (type : ConnectionType) (c : Connection) (s : Store)
    (ws : Option ℕ)
    → IsSound s
    → IsSound (greet config d type c s ws).1
greet-IsSound config d type c s none v = v
greet-IsSound config d type c s (some ws) v = set_ws-IsSound c ws s v

connect_internal-IsSound :
    (config : Config) (d : Dial) (type : ConnectionType) (c : Connection) (s : Store)
    → IsSound s
    → IsSound (connect_internal config d type c s).1
unfolding connect_internal
connect_internal-IsSound config d type c s v = elim (Bool-cases (is_invalid d.response_code)) [
  | inl y ↦ rw y v
  | inr n ↦ rw n (greet-IsSound config d type c s d.ws v)
]

new-IsSound :
    (i : ℕ) (s : Store) (c : WriteConnection)
    → IsSound s
    → is_closed c.status ≡ c.next_response_closed
    → (j : ℕ)
    → is_closed (update s.writes i c j).status ≡ (update s.writes i c j).next_response_closed
new-IsSound i s c v e j = ground (arith, e, v j)

-- A list with one more element, and without it again
appended : (xs : List ℕ) (i : ℕ) → length (xs ++ i ∷ []) ≤ length xs + 1
appended xs i = omega (arith, length-append xs (i ∷ []))

removed : (xs : List ℕ) (i : ℕ) → length (without i (xs ++ i ∷ [])) ≤ length xs + 0
removed [] i = ground (arith, ==_refl i)
removed (x ∷ xs) i = ground (arith, removed xs i)

create-Grown :
    (type : ConnectionType) (s : Store) (p : Pool)
    → IsSound s
    → (type ≡ read) ⊎ (type ≡ write)
    → Succeeds
        (λ (c, s', p'). IsSound s' × Grown type 1 p p' × Grown type 0 p (remove_without_lock c p'))
        (create type s p)
unfolding create remove_without_lock new_read_connection new_write_connection
create-Grown read s p v k = (
  v,
  (appended p.read_connections s.next, omega arith, refl, refl),
  (removed p.read_connections s.next, omega arith, refl, refl),
)
create-Grown write s p v k = (
  new-IsSound s.next s _ v refl,
  (appended p.write_connections s.next, omega arith, refl, refl),
  (removed p.write_connections s.next, omega arith, refl, refl),
)
create-Grown (unknown n) s p v k = elim k [ inl e ↦ cc | inr e ↦ cc ]

Grown-refl : (type : ConnectionType) (p : Pool) → (type ≡ read) ⊎ (type ≡ write) → Grown type 0 p p
Grown-refl read p k = (omega arith, omega arith, refl, refl)
Grown-refl write p k = (omega arith, omega arith, refl, refl)
Grown-refl (unknown n) p k = elim k [ inl e ↦ cc | inr e ↦ cc ]

Grown-trans :
    (type : ConnectionType) (n : ℕ) (p q r : Pool)
    → Grown type 1 p q
    → Grown type n q r
    → Grown type (suc n) p r
Grown-trans read n p q r (a, b, c, d) (x, y, z, w) = (omega arith, omega arith, z ∙ c, w ∙ d)
Grown-trans write n p q r (a, b, c, d) (x, y, z, w) = (omega arith, omega arith, z ∙ c, w ∙ d)
Grown-trans (unknown k) n p q r h i = h

Grown-more : (type : ConnectionType) (n : ℕ) (p q : Pool) → Grown type 0 p q → Grown type n p q
Grown-more read n p q (a, b, c, d) = (omega arith, b, c, d)
Grown-more write n p q (a, b, c, d) = (omega arith, b, c, d)
Grown-more (unknown k) n p q h = h

module _ (config : Config) (dials : ℕ → Dial) (type : ConnectionType) where
  connected-Grown :
      (n : ℕ) (p : Pool) (c : Connection) (p' : Pool) (err : Option ConnectError) (t : Store)
      → IsSound t
      → Grown type 1 p p'
      → Grown type 0 p (remove_without_lock c p')
      → Succeeds
          (λ (_, s'', p'', _). IsSound s'' × Grown type n p' p'')
          (create_connections config dials n type t p')
      → Succeeds
          (λ (_, s'', p'', _). IsSound s'' × Grown type (suc n) p p'')
          (elim err [
            | none ↦ create_connections config dials n type t p' >>= λ x. ok (start_too c x)
            | some e ↦ close_connection c t >>= λ u. ok (some e, u, remove_without_lock c p', [])
          ])
  connected-Grown n p c p' none t v g h rest =
      Succeeds->>= _ _ (create_connections config dials n type t p') _ rest
        λ (_, s'', p'', _) _ (w, i). (w, Grown-trans type n p p' p'' g i)
  connected-Grown n p c p' (some e) t v g h rest =
      rw (close_connection-ok c t v)
        (shut_connection-IsSound c t v, Grown-more type (suc n) p (remove_without_lock c p') h)

  create_connections-Grown :
      (n : ℕ) (s : Store) (p : Pool)
      → IsSound s
      → (type ≡ read) ⊎ (type ≡ write)
      → Succeeds
          (λ (_, s', p', _). IsSound s' × Grown type n p p')
          (create_connections config dials n type s p)
  unfolding create_connections
  create_connections-Grown zero s p v k = (v, Grown-refl type p k)
  create_connections-Grown (suc n) s p v k =
      Succeeds->>= _ _ (create type s p) _ (create-Grown type s p v k) λ (c, s', p') _ (w, g, h).
        let (err, t) = connect_internal config (dials s.next) type c s' in
        let sound = connect_internal-IsSound config (dials s.next) type c s' w in
        connected-Grown n p c p' err t sound g h (create_connections-Grown n t p' sound k)

-- Both lists are within `PoolMaxSize`, which is not negative, and the sizes of the configuration are
-- within 2 ^ 62.
abbrev pub IsWithin : Config → Pool → Type 0
IsWithin config p =
    (length p.read_connections ≤ pos_part config.pool_max_size)
    × (length p.write_connections ≤ pos_part config.pool_max_size)
    × IsSized config

pub size-IsCount :
    (config : Config) (s : Store) (p : Pool)
    → IsWithin config p
    → IsCount config (size s p).0 × IsCount config (size s p).1
unfolding size
size-IsCount config s p (a, b, _) = (
  (count-le-length (λ i. is_available (s.reads i).status) p.read_connections, a),
  (count-le-length (λ i. is_available (s.writes i).status) p.write_connections, b),
)

-- What `connector` leaves: the bounds, the interval and the mark of the pool are kept.
abbrev pub IsKept : Config → Pool → Created → Type 0
IsKept config p (_, s', p', _) =
    IsSound s' × IsWithin config p' × (p'.retry_interval ≡ p.retry_interval) × (p'.done ≡ p.done)

reads_done-IsKept :
    (config : Config) (dials : ℕ → Dial) (n : ℕ) (p p' : Pool) (s' : Store)
    (started : List Connection) (err : Option ConnectError)
    → IsSound s'
    → IsWithin config p'
    → length p'.write_connections + n ≤ pos_part config.pool_max_size
    → (p'.retry_interval ≡ p.retry_interval)
    → (p'.done ≡ p.done)
    → Succeeds (IsKept config p) (elim err [
      | some e ↦ ok (some e, s', p', started)
      | none ↦ create_connections config dials n write s' p' >>= λ x. ok (start_all started x)
    ])
reads_done-IsKept config dials n p p' s' started (some e) v h b r d = (v, h, r, d)
reads_done-IsKept config dials n p p' s' started none v h b r d =
    Succeeds->>= _ _ (create_connections config dials n write s' p') _
      (create_connections-Grown config dials write n s' p' v (inr refl))
      λ (_, s'', p'', _) _ (u, i). (u, (omega arith, omega arith, h.2), i.2 ∙ r, i.3 ∙ d)

-- On a sound store and a pool whose two lists are within `PoolMaxSize`, where this is not negative and
-- the sizes of the configuration are within 2 ^ 62, `connector` returns, however
-- the dials end; both lists are within `PoolMaxSize` again, the store is sound, and the retry
-- interval and the mark of the shutdown are as before.
pub connector-IsKept :
    (config : Config) (dials : ℕ → Dial) (s : Store) (p : Pool)
    → IsSound s
    → IsWithin config p
    → Succeeds (IsKept config p) (connector config dials s p)
unfolding connector size
connector-IsKept config dials s p v h =
    let (reads, writes) = size s p in
    let m = pos_part (connections_to_create config reads) in
    let n = pos_part (connections_to_create config writes) in
    let more_reads = connections_to_create-bounded config reads h.2 (size-IsCount config s p h).0 in
    let more_writes =
      connections_to_create-bounded config writes h.2 (size-IsCount config s p h).1 in
    Succeeds->>= _ _ (create_connections config dials m read s p) _
      (create_connections-Grown config dials read m s p v (inl refl))
      λ (err, s', p', started) _ (w, g).
        reads_done-IsKept config dials n p p' s' started err w (omega arith, omega arith, h.2)
          (omega arith) g.2 g.3
