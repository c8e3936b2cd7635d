-- ===== src/Server/Members/Swept.antt =====
-- The cleaning only takes connections out of the table: server/server.go, `clean`.
use zk_wsp.Prelude.{
  ℕ, ◌≡◌, ◌∙◌, ap, refl, ◌⊎◌, inl, inr, true, false, Bool, Option, none, some, List, [], ◌∷◌, Bytes,
  same, same→eq, Bool-cases, if◌then◌else◌, subst,
}
use zk_wsp.Prelude.Dict.{lookup}
use zk_wsp.Outcome.{Succeeds, Succeeds->>=, Succeeds-mono}
use zk_wsp.Common.Store.{Connection, Store}
use zk_wsp.Common.Write.Laws.{IsSound}
use zk_wsp.Server.Config.{Config}
use zk_wsp.Server.Pool.{Pool, is_empty, shutdown}
use zk_wsp.Server.Pool.Clean.{Cleaned, Fate, kept, dropped}
use zk_wsp.Server.Pool.Remove.{present}
use zk_wsp.Server.Pool.Shutdown.{shutdown-IsShutDown}
use zk_wsp.Server.Upkeep.{clean_pools}
use zk_wsp.Server.Upkeep.Cleaning.{is_empty-has_none, AreFree, clean_pools-free}
use zk_wsp.Server.Members.{count_in, table_of, IsThinned}
use zk_wsp.Server.Members.Handled.{IsMap}

-- What the cleaning leaves of the map.
abbrev pub IsSwept : List (Bytes × Pool) → List (Bytes × Pool) → Type 0
IsSwept ps qs =
    IsMap qs
    × ((k : Bytes) → lookup k ps ≡ none → lookup k qs ≡ none)
    × IsThinned (table_of ps) (table_of qs)

Fate-thins :
    (d : Connection) (s : Store) (p : Pool) (s' : Store) (p' : Pool)
    → Fate d s p s' p'
    → (present d p' ≡ present d p) ⊎ (present d p' ≡ 0)
Fate-thins d s p s' p' (kept a b) = inl b
Fate-thins d s p s' p' (dropped a b c) = inr c

if_none :
    (b : Bool) (p : Pool) (o : Option Pool)
    → (if b then some p else o) ≡ none
    → (b ≡ false) × (o ≡ none)
if_none true p o h = cc
if_none false p o h = (refl, h)

module _ (id : Bytes) (p : Pool) (ps qs : List (Bytes × Pool)) (m : IsMap ((id, p) ∷ ps))
    (w : IsSwept ps qs) where
  -- The pool is cleaned and stays.
  stays-IsSwept :
      (s s' : Store) (p' : Pool) → Cleaned s p s' p' → IsSwept ((id, p) ∷ ps) ((id, p') ∷ qs)
  unfolding lookup
  stays-IsSwept s s' p' a = (
    ((a.same_client ∙ m.0.0, w.0.0), (w.1 id m.1.0, w.0.1)),
    λ k e. let (n, o) = if_none (same id k) p (lookup k ps) e in rw n (w.1 k o),
    λ k d. elim (Bool-cases (same id k)) [
      | inl y ↦ rw y (Fate-thins d s p s' p' (a.fate d))
      | inr n ↦ rw n (w.2 k d)
    ],
  )

  -- The pool is dropped.
  goes-IsSwept : IsSwept ((id, p) ∷ ps) qs
  unfolding lookup
  goes-IsSwept = (
    w.0,
    λ k e. w.1 k (if_none (same id k) p (lookup k ps) e).1,
    λ k d. elim (Bool-cases (same id k)) [
      | inl y ↦ inr (
          subst (λ x. count_in d (lookup x qs) ≡ 0) (same→eq id k y)
            (ap (λ o. count_in d o) (w.1 id m.1.0)))
      | inr n ↦ rw n (w.2 k d)
    ],
  )

IsMap-tail : (id : Bytes) (p : Pool) (ps : List (Bytes × Pool)) → IsMap ((id, p) ∷ ps) → IsMap ps
IsMap-tail id p ps (f, u) = (f.1, u.1)

pub clean_pools-IsSwept :
    (held : Connection → Bool) (config : Config) (now : ℕ) (ps : List (Bytes × Pool)) (s : Store)
    → IsSound s
    → IsMap ps
    → AreFree held ps
    → Succeeds (λ (_, qs). IsSwept ps qs) (clean_pools held config now ps s)
clean_pools-IsSwept held config now [] s v m f =
    unfold clean_pools in (m, (λ k e. e), λ k d. inl refl)
clean_pools-IsSwept held config now ((id, p) ∷ ps) s v m (f, fs) =
    rw (clean_pools-free held config now id p ps s f) (
      Succeeds->>= _ _ (is_empty config now s p) _ (is_empty-has_none config now s p v)
        λ (empty, s', p') _ (a, e). elim (Bool-cases empty) [
          | inl y ↦ rw y (
              Succeeds->>= _ _ (shutdown s' p') _ (shutdown-IsShutDown s' p' a.sound) λ (t, q) _ b.
                Succeeds-mono (clean_pools held config now ps t)
                  (λ (u, qs) w. goes-IsSwept id p ps qs m w)
                  (clean_pools-IsSwept held config now ps t b.sound (IsMap-tail id p ps m) fs))
          | inr n ↦ rw n (
              Succeeds->>= _ _ (clean_pools held config now ps s') _
                (clean_pools-IsSwept held config now ps s' a.sound (IsMap-tail id p ps m) fs)
                λ (u, qs) _ w. stays-IsSwept id p ps qs m w s s' p' a)
        ])
