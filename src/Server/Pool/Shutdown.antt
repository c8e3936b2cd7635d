-- ===== src/Server/Pool/Shutdown.antt =====
-- What `Shutdown` of server/pool.go leaves behind.
use zk_wsp.Prelude.{◌++◌, ◌≡◌, ◌⊎◌, inl, inr, refl, List, [], ◌∷◌, arith, Bool-cases, true, ◌∙◌}
use zk_wsp.Outcome.{ok, Succeeds}
use zk_wsp.Common.Types.{closed}
use zk_wsp.Common.Store.{Connection, read_conn, write_conn, Store, get_status}
use zk_wsp.Common.Write.Laws.{IsSound}
use zk_wsp.Common.Read.Laws.{
  same_conn, shut_connection, close_connection-ok, shut_connection-IsSound, get_status-shut,
}
use zk_wsp.Server.Pool.{Pool, conns, close_all, shutdown}

-- The store after the loops of `Shutdown`
shut_all : List Connection → Store → Store
shut_all [] s = s
shut_all (c ∷ cs) s = shut_all cs (shut_connection c s)

close_all-ok : (cs : List Connection) (s : Store) → IsSound s → close_all cs s ≡ ok (shut_all cs s)
unfolding close_all shut_all
close_all-ok [] s v = refl
close_all-ok (c ∷ cs) s v =
    rw (close_connection-ok c s v) (close_all-ok cs _ (shut_connection-IsSound c s v))

shut_all-IsSound : (cs : List Connection) (s : Store) → IsSound s → IsSound (shut_all cs s)
unfolding shut_all
shut_all-IsSound [] s v = v
shut_all-IsSound (c ∷ cs) s v = shut_all-IsSound cs _ (shut_connection-IsSound c s v)

-- Whether a connection is in a list.
abbrev pub Among : Connection → List Connection → Type 0
Among d [] = ⊥
Among d (c ∷ cs) = (same_conn c d ≡ true) ⊎ Among d cs

shut_all-closed_stays :
    (d : Connection) (cs : List Connection) (s : Store)
    → get_status d s ≡ closed
    → get_status d (shut_all cs s) ≡ closed
unfolding shut_all
shut_all-closed_stays d [] s e = e
shut_all-closed_stays d (c ∷ cs) s e =
    shut_all-closed_stays d cs (shut_connection c s) (ground (arith, get_status-shut c d s))

shut_all-closes :
    (d : Connection) (cs : List Connection) (s : Store)
    → Among d cs
    → get_status d (shut_all cs s) ≡ closed
unfolding shut_all
shut_all-closes d [] s h = absurd h
shut_all-closes d (c ∷ cs) s (inl e) =
    shut_all-closed_stays d cs (shut_connection c s) (ground (arith, get_status-shut c d s))
shut_all-closes d (c ∷ cs) s (inr h) = shut_all-closes d cs (shut_connection c s) h

shut_all-others :
    (d : Connection) (cs : List Connection) (s : Store)
    → ¬ Among d cs
    → get_status d (shut_all cs s) ≡ get_status d s
unfolding shut_all
shut_all-others d [] s h = refl
shut_all-others d (c ∷ cs) s h = elim (Bool-cases (same_conn c d)) [
  | inl e ↦ absurd (h (inl e))
  | inr e ↦
      shut_all-others d cs (shut_connection c s) (λ k. h (inr k)) ∙ rw (get_status-shut c d s, e)
]

among : (d : Connection) (cs : List Connection) → Among d cs ⊎ ¬ Among d cs
among d [] = inr (λ h. h)
among d (c ∷ cs) = elim (Bool-cases (same_conn c d)) [
  | inl e ↦ inl (inl e)
  | inr e ↦ elim (among d cs) [
    | inl h ↦ inl (inr h)
    | inr h ↦ inr (elim [ inl e' ↦ cc | inr h' ↦ h h' ])
  ]
]

shut_all-append :
    (cs ds : List Connection) (s : Store) → shut_all (cs ++ ds) s ≡ shut_all ds (shut_all cs s)
unfolding shut_all
shut_all-append [] ds s = refl
shut_all-append (c ∷ cs) ds s = shut_all-append cs ds (shut_connection c s)

-- The connections in the two lists of a pool
abbrev pub all_conns : Pool → List Connection
all_conns p = conns write_conn p.write_connections ++ conns read_conn p.read_connections

-- What a pool and the store look like after `Shutdown`.
pub record IsShutDown (s : Store) (p : Pool) (s' : Store) (p' : Pool) : Type 0 where
  pub sound : IsSound s'
  pub no_writes : p'.write_connections ≡ []
  pub no_reads : p'.read_connections ≡ []
  pub done : p'.done ≡ true
  pub fate :
      (d : Connection)
      → (Among d (all_conns p) × (get_status d s' ≡ closed))
        ⊎ ((¬ Among d (all_conns p)) × (get_status d s' ≡ get_status d s))

shut_all-fate :
    (d : Connection) (cs : List Connection) (s : Store)
    → (Among d cs × (get_status d (shut_all cs s) ≡ closed))
      ⊎ ((¬ Among d cs) × (get_status d (shut_all cs s) ≡ get_status d s))
shut_all-fate d cs s = elim (among d cs) [
  | inl h ↦ inl (h, shut_all-closes d cs s h)
  | inr h ↦ inr (h, shut_all-others d cs s h)
]

-- On a sound store `Shutdown` returns without a panic. Then the pool is empty and refuses new
-- connections, every connection that stood in one of its lists is closed, and all others have the
-- status that they had.
pub shutdown-IsShutDown :
    (s : Store) (p : Pool) → IsSound s → Succeeds (λ (s', p'). IsShutDown s p s' p') (shutdown s p)
unfolding shutdown
shutdown-IsShutDown s p v =
    let ws = conns write_conn p.write_connections in
    let rs = conns read_conn p.read_connections in
    let sound = shut_all-IsSound ws s v in
    rw (close_all-ok ws s v, close_all-ok rs (shut_all ws s) sound)
      (record {
        sound = shut_all-IsSound rs (shut_all ws s) sound;
        no_writes = refl;
        no_reads = refl;
        done = refl;
        fate = λ d. rw (← shut_all-append ws rs s) (shut_all-fate d (ws ++ rs) s);
      })
