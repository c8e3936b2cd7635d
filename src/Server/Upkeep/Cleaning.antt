-- ===== src/Server/Upkeep/Cleaning.antt =====
-- What the periodic cleaning leaves: server/server.go, `clean`.
use zk_wsp.Prelude.{
  ◌<◌, ◌∙◌, ap, sym, occurrences, ℕ, ◌≡◌, ◌&&◌, refl, Bool, true, false, List, [], ◌∷◌, Bytes, All,
  ◌++◌, ◌⊎◌, inl, inr, subst, Bool-cases, arith,
}
use zk_wsp.Server.Pool.Remove.{present}
use zk_wsp.Outcome.{
  ◌>>=◌, Outcome, ok, blocked, panic, Returns, Returns->>=, Succeeds-Returns, of_Returns, Succeeds,
  Succeeds->>=, Succeeds-mono,
}
use zk_wsp.Common.Store.{Store, Connection, get_status, write_conn, read_conn}
use zk_wsp.Common.Types.{closed, is_idle}
use zk_wsp.Common.Write.Laws.{IsSound}
use zk_wsp.Server.Config.{Config}
use zk_wsp.Server.Pool.{Pool, is_empty, is_nil, shutdown, clean as clean_pool, conns}
use zk_wsp.Server.Pool.Clean.{clean-Cleaned, Cleaned, Fate, kept, dropped}
use zk_wsp.Server.Pool.Shutdown.{shutdown-IsShutDown, IsShutDown, all_conns, Among}
use zk_wsp.Server.Handlers.{Server}
use zk_wsp.Server.Upkeep.{clean_pools, clean, waits}

-- No connection in either list
abbrev pub has_none : Pool → Bool
has_none p = is_nil p.write_connections && is_nil p.read_connections

-- Every pool has a connection.
abbrev pub AreInUse : List (Bytes × Pool) → Type 0
AreInUse = All (λ x. has_none x.1 ≡ false)

-- A connection keeps its status, or was idle and is closed.
abbrev pub IsSpared : Connection → Store → Store → Type 0
IsSpared d s s' =
    (get_status d s' ≡ get_status d s)
    ⊎ ((is_idle (get_status d s) ≡ true) × (get_status d s' ≡ closed))

IsSpared-trans : (d : Connection) (s t u : Store) → IsSpared d s t → IsSpared d t u → IsSpared d s u
IsSpared-trans d s t u (inl a) (inl b) = inl (ground arith)
IsSpared-trans d s t u (inl a) (inr b) = inr (ground arith)
IsSpared-trans d s t u (inr a) (inl b) = inr (ground arith)
IsSpared-trans d s t u (inr a) (inr b) = inr (ground arith)

-- An entry of the map
abbrev pub IsEntry : Bytes → Pool → List (Bytes × Pool) → Type 0
IsEntry id p [] = ⊥
IsEntry id p ((k, q) ∷ qs) = ((k ≡ id) × (q ≡ p)) ⊎ IsEntry id p qs

-- A connection of a pool stands in the pool of the same client as often as before, or it was idle and
-- is closed.
abbrev pub IsKeptIn : Bytes → Pool → Connection → Store → Store → List (Bytes × Pool) → Type 0
IsKeptIn id p d s s' qs =
    ((q : Pool) × (IsEntry id q qs × (present d q ≡ present d p)))
    ⊎ ((is_idle (get_status d s) ≡ true) × (get_status d s' ≡ closed))

pub record Swept (s : Store) (ps : List (Bytes × Pool)) (s' : Store) (qs : List (Bytes × Pool))
    : Type 0 where
  pub sound : IsSound s'
  pub in_use : AreInUse qs
  pub spared : (d : Connection) → IsSpared d s s'
  pub stays :
      (id : Bytes) (p : Pool) (d : Connection)
      → IsEntry id p ps
      → 0 < present d p
      → IsKeptIn id p d s s' qs

IsSpared-Fate :
    (d : Connection) (s : Store) (p : Pool) (s' : Store) (p' : Pool)
    → Fate d s p s' p'
    → IsSpared d s s'
IsSpared-Fate d s p s' p' (kept a b) = inl a
IsSpared-Fate d s p s' p' (dropped a b c) = inr (a, b)

conns_none :
    (ws rs : List ℕ)
    → (is_nil ws && is_nil rs) ≡ true
    → conns write_conn ws ++ conns read_conn rs ≡ []
conns_none [] [] e = refl
conns_none [] (r ∷ rs) e = cc
conns_none (w ∷ ws) rs e = cc

all_conns-has_none : (p : Pool) → has_none p ≡ true → all_conns p ≡ []
all_conns-has_none p e = conns_none p.write_connections p.read_connections e

-- An empty pool has no connection that its shutdown could close.
IsSpared-shutdown :
    (d : Connection) (s : Store) (p : Pool) (s' : Store) (p' : Pool)
    → has_none p ≡ true
    → IsShutDown s p s' p'
    → IsSpared d s s'
IsSpared-shutdown d s p s' p' e h = elim (h.fate d) [
  | inl (among, _) ↦ elim (subst (Among d) (all_conns-has_none p e) among) [ ]
  | inr (_, same) ↦ inl same
]

pub is_empty-has_none :
    (config : Config) (now : ℕ) (s : Store) (p : Pool)
    → IsSound s
    → Succeeds
        (λ (empty, s', p'). Cleaned s p s' p' × (empty ≡ has_none p'))
        (is_empty config now s p)
is_empty-has_none config now s p v =
    unfold is_empty in
    Succeeds->>= _ _ (clean_pool config now s p) _ (clean-Cleaned config now s p v)
      λ (s', p') _ a. (a, refl)

-- A pool without connections has none of them.
is_nil→eq : (is : List ℕ) → is_nil is ≡ true → is ≡ []
is_nil→eq [] h = refl
is_nil→eq (i ∷ is) h = cc

both_nil : (a b : Bool) → (a && b) ≡ true → (a ≡ true) × (b ≡ true)
both_nil true true h = (refl, refl)
both_nil true false h = cc
both_nil false b h = cc

has_none-present : (p : Pool) (d : Connection) → has_none p ≡ true → present d p ≡ 0
has_none-present p (read_conn i) h =
    ap (occurrences i) (is_nil→eq p.read_connections (both_nil (is_nil p.write_connections) _ h).1)
has_none-present p (write_conn i) h =
    ap (occurrences i) (is_nil→eq p.write_connections (both_nil _ (is_nil p.read_connections) h).0)

closed-stays :
    (d : Connection) (s s' : Store)
    → IsSpared d s s'
    → get_status d s ≡ closed
    → get_status d s' ≡ closed
closed-stays d s s' (inl a) h = a ∙ h
closed-stays d s s' (inr (a, b)) h = b

-- Idle later, idle before
idle-before :
    (d : Connection) (s t : Store)
    → IsSpared d s t
    → is_idle (get_status d t) ≡ true
    → is_idle (get_status d s) ≡ true
idle-before d s t (inl a) h = ground arith
idle-before d s t (inr (a, b)) h = a

nothing : {m n : ℕ} → m ≡ 0 → m ≡ n → 0 < n → ⊥
nothing a b h = omega (arith, a, b, h)

module _ (id : Bytes) (p : Pool) (s s' : Store) (p' : Pool) (a : Cleaned s p s' p') where
  -- A connection of another pool
  later :
      (k : Bytes) (q : Pool) (d : Connection) (t u : Store) (qs qs' : List (Bytes × Pool))
      → IsSpared d s t
      → ((x : Pool) → IsEntry k x qs → IsEntry k x qs')
      → IsKeptIn k q d t u qs
      → IsKeptIn k q d s u qs'
  later k q d t u qs qs' h f (inl (x, (m, e))) = inl (x, (f x m, e))
  later k q d t u qs qs' h f (inr (i, c)) = inr (idle-before d s t h i, c)

  -- The pool stays.
  stays-Swept :
      (ps qs : List (Bytes × Pool)) (u : Store)
      → has_none p' ≡ false
      → Swept s' ps u qs
      → Swept s ((id, p) ∷ ps) u ((id, p') ∷ qs)
  stays-Swept ps qs u n c = record {
    sound = c.sound;
    in_use = (n, c.in_use);
    spared = λ d. IsSpared-trans d s s' u (IsSpared-Fate d s p s' p' (a.fate d)) (c.spared d);
    stays = stays;
  }
    where
      fated : (d : Connection) → Fate d s p s' p' → IsKeptIn id p d s u ((id, p') ∷ qs)
      fated d (kept x y) = inl (p', (inl (refl, refl), y))
      fated d (dropped x y z) = inr (x, closed-stays d s' u (c.spared d) y)

      stays :
          (k : Bytes) (q : Pool) (d : Connection)
          → IsEntry k q ((id, p) ∷ ps)
          → 0 < present d q
          → IsKeptIn k q d s u ((id, p') ∷ qs)
      stays k q d (inl (x, y)) h =
          subst (λ i. IsKeptIn i q d s u ((id, p') ∷ qs)) x
            (subst (λ r. IsKeptIn id r d s u ((id, p') ∷ qs)) y (fated d (a.fate d)))
      stays k q d (inr m) h =
          later k q d s' u qs ((id, p') ∷ qs) (IsSpared-Fate d s p s' p' (a.fate d)) (λ x e. inr e)
            (c.stays k q d m h)

  -- The pool is dropped.
  goes-Swept :
      (ps qs : List (Bytes × Pool)) (t u : Store) (r : Pool)
      → has_none p' ≡ true
      → IsShutDown s' p' t r
      → Swept t ps u qs
      → Swept s ((id, p) ∷ ps) u qs
  goes-Swept ps qs t u r n b c = record {
    sound = c.sound;
    in_use = c.in_use;
    spared = λ d. IsSpared-trans d s t u (up_to d) (c.spared d);
    stays = stays;
  }
    where
      up_to : (d : Connection) → IsSpared d s t
      up_to d =
          IsSpared-trans d s s' t (IsSpared-Fate d s p s' p' (a.fate d))
            (IsSpared-shutdown d s' p' t r n b)

      fated : (d : Connection) → 0 < present d p → Fate d s p s' p' → IsKeptIn id p d s u qs
      fated d h (kept x y) = elim (nothing (has_none-present p' d n) y h) [ ]
      fated d h (dropped x y z) = inr (
        x,
        closed-stays d s' u
            (IsSpared-trans d s' t u (IsSpared-shutdown d s' p' t r n b) (c.spared d)) y,
      )

      stays :
          (k : Bytes) (q : Pool) (d : Connection)
          → IsEntry k q ((id, p) ∷ ps)
          → 0 < present d q
          → IsKeptIn k q d s u qs
      stays k q d (inl (x, y)) h =
          subst (λ i. IsKeptIn i q d s u qs) x
            (subst (λ r. IsKeptIn id r d s u qs) y
              (fated d (subst (λ r. 0 < present d r) (sym y) h) (a.fate d)))
      stays k q d (inr m) h = later k q d t u qs qs (up_to d) (λ x e. e) (c.stays k q d m h)

-- No connection of the pools has a lock that is never given back.
abbrev pub AreFree : (Connection → Bool) → List (Bytes × Pool) → Type 0
AreFree held = All (λ x. waits held x.1 ≡ false)

module _ (held : Connection → Bool) (config : Config) (now : ℕ) where
  -- The cleaning of the first pool and of the others
  abbrev next :
      Bytes → List (Bytes × Pool) → Bool × Store × Pool → Outcome (Store × List (Bytes × Pool))
  next id ps (empty, s', p') = elim empty [
    | true ↦ shutdown s' p' >>= λ (s'', _). clean_pools held config now ps s''
    | false ↦ clean_pools held config now ps s' >>= λ (s'', qs). ok (s'', (id, p') ∷ qs)
  ]

  pub clean_pools-free :
      (id : Bytes) (p : Pool) (ps : List (Bytes × Pool)) (s : Store)
      → waits held p ≡ false
      → clean_pools held config now ((id, p) ∷ ps) s ≡ (is_empty config now s p >>= next id ps)
  unfolding clean_pools
  clean_pools-free id p ps s f =
      ap (λ b. elim b [ true ↦ blocked | false ↦ is_empty config now s p >>= next id ps ]) f

  clean_pools-held :
      (id : Bytes) (p : Pool) (ps : List (Bytes × Pool)) (s : Store)
      → waits held p ≡ true
      → clean_pools held config now ((id, p) ∷ ps) s ≡ blocked
  unfolding clean_pools
  clean_pools-held id p ps s f =
      ap (λ b. elim b [ true ↦ blocked | false ↦ is_empty config now s p >>= next id ps ]) f

  -- Cleaning all pools returns, and each pool that is left has a connection.
  pub clean_pools-Swept :
      (ps : List (Bytes × Pool)) (s : Store)
      → IsSound s
      → AreFree held ps
      → Succeeds (λ (s', qs). Swept s ps s' qs) (clean_pools held config now ps s)
  clean_pools-Swept [] s v f =
      unfold clean_pools in
      record { sound = v; in_use = tt; spared = λ d. inl refl; stays = λ id p d m. elim m [ ] }
  clean_pools-Swept ((id, p) ∷ ps) s v (f, fs) = rw (clean_pools-free id p ps s f) (
      Succeeds->>= _ _ (is_empty config now s p) _ (is_empty-has_none config now s p v)
        λ (empty, s', p') _ (a, e). elim (Bool-cases empty) [
          | inl y ↦ rw y (
              Succeeds->>= _ _ (shutdown s' p') _ (shutdown-IsShutDown s' p' a.sound) λ (t, q) _ b.
                Succeeds-mono (clean_pools held config now ps t)
                  (λ (u, qs) c. goes-Swept id p s s' p' a ps qs t u q (cc) b c)
                  (clean_pools-Swept ps t b.sound fs))
          | inr n ↦ rw n (
              Succeeds->>= _ _ (clean_pools held config now ps s') _
                (clean_pools-Swept ps s' a.sound fs)
                λ (u, qs) _ c. stays-Swept id p s s' p' a ps qs u (cc) c)
        ])

  returns_all :
      {A : Type 0} {Q : A → Type 0} (m : Outcome A) → ((a : A) → m ≡ ok a → Q a) → Returns Q m
  returns_all (ok a) f = f a refl
  returns_all blocked f = tt
  returns_all panic f = tt

  others :
      (id : Bytes) (ps : List (Bytes × Pool)) (y : Bool × Store × Pool)
      → ((t : Store) → Returns (λ _. AreFree held ps) (clean_pools held config now ps t))
      → Returns (λ _. AreFree held ps) (next id ps y)
  others id ps (true, s', p') k = Returns->>= _ (shutdown s' p') _ λ (t, q) _. k t
  others id ps (false, s', p') k =
      Returns->>= _ (clean_pools held config now ps s') _
        λ z got. of_Returns (λ _. AreFree held ps) (clean_pools held config now ps s') (k s') got

  -- A cleaning that waits for a lock does not return.
  pub returned-AreFree :
      (ps : List (Bytes × Pool)) (s : Store) (x : Store × List (Bytes × Pool))
      → clean_pools held config now ps s ≡ ok x
      → AreFree held ps
  returned-AreFree [] s x h = tt
  returned-AreFree ((id, p) ∷ ps) s x h = elim (Bool-cases (waits held p)) [
    | inl y ↦ cc (clean_pools-held id p ps s y)
    | inr n ↦ (
      n,
      of_Returns (λ _. AreFree held ps) (is_empty config now s p >>= next id ps)
          (Returns->>= _ (is_empty config now s p) _ λ y _. others id ps y λ t.
            returns_all (clean_pools held config now ps t) λ z got. returned-AreFree ps t z got)
          (sym (clean_pools-free id p ps s n) ∙ h),
    )
  ]

  -- What the cleaning leaves when it need not wait, it leaves whenever it returns.
  pub clean_pools-Returns :
      (Q : Store × List (Bytes × Pool) → Type 0) (ps : List (Bytes × Pool)) (s : Store)
      → (AreFree held ps → Succeeds Q (clean_pools held config now ps s))
      → Returns Q (clean_pools held config now ps s)
  clean_pools-Returns Q ps s k = returns_all (clean_pools held config now ps s) λ z got.
      of_Returns Q (clean_pools held config now ps s)
        (Succeeds-Returns Q (clean_pools held config now ps s) (k (returned-AreFree ps s z got)))
        got

-- On a sound store, and if the lock of no connection of the pools is held for ever, the periodic
-- cleaning of the server returns. Then each pool that is left has a connection. Every connection has
-- the status that it had, or it was idle and is closed: what serves a request is not touched, not even
-- by the shutdown of the pools that are dropped. And each connection of a pool stands in the pool of
-- the same client as often as before, unless it was idle and is closed.
pub clean-Swept :
    (held : Connection → Bool) (now : ℕ) (s : Store) (sv : Server)
    → IsSound s
    → AreFree held sv.pools
    → Succeeds (λ (s', sv'). Swept s sv.pools s' sv'.pools) (clean held now s sv)
unfolding clean
clean-Swept held now s sv v f =
    Succeeds->>= _ _ (clean_pools held sv.config now sv.pools s) _
      (clean_pools-Swept held sv.config now sv.pools s v f) λ (s', ps) _ h. h
