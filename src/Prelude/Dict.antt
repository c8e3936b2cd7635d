-- ===== src/Prelude/Dict.antt =====
-- A Go map from strings, as an association list in the order of its iteration, which Go leaves open.
use mathlib.Core.Path.{◌≡◌, refl, ap, subst}
use mathlib.Core.Logic.{inl, inr}
use mathlib.Core.Option.{Option, none, some}
use mathlib.Core.List.{List, [], ◌∷◌}
use native.Mathlib.Omega.{arith}
use zk_wsp.Prelude.Tests.{if◌then◌else◌, Bool-cases}
use zk_wsp.Prelude.Lists.{All}
use zk_wsp.Prelude.Text.{Bytes, same, same_iff}

module _ {ℓ} {V : Type ℓ} where
  unfoldable pub lookup : Bytes → List (Bytes × V) → Option V
  lookup key [] = none
  lookup key ((k, x) ∷ rest) = if same k key then some x else lookup key rest

  -- The entry keeps its place if the key is there.
  unfoldable pub insert : Bytes → V → List (Bytes × V) → List (Bytes × V)
  insert key new [] = (key, new) ∷ []
  insert key new ((k, x) ∷ rest) =
      if same k key then (k, new) ∷ rest else (k, x) ∷ insert key new rest

  pub lookup-insert :
      (dict : List (Bytes × V)) (key new_key : Bytes) (new : V)
      → lookup key (insert new_key new dict)
        ≡ (if same new_key key then some new else lookup key dict)
  unfolding lookup insert
  lookup-insert [] key new_key new = refl
  lookup-insert ((k, x) ∷ rest) key new_key new =
      let ih = lookup-insert rest key new_key new in
      ground (arith, ih, same_iff k key, same_iff k new_key, same_iff new_key key)

  -- The keys, in the order of the entries
  abbrev pub keys : List (Bytes × V) → List Bytes
  keys [] = []
  keys ((k, x) ∷ rest) = k ∷ keys rest

  pub keys-insert :
      (dict : List (Bytes × V)) (key : Bytes) (old new : V)
      → lookup key dict ≡ some old
      → keys (insert key new dict) ≡ keys dict
  unfolding lookup insert
  keys-insert [] key old new h = cc
  keys-insert ((k, x) ∷ rest) key old new h = elim (Bool-cases (same k key)) [
    | inl hit ↦ rw hit refl
    | inr miss ↦ rw miss (ap (λ ks. k ∷ ks) (keys-insert rest key old new (rw (miss, lookup) at h)))
  ]

  -- A property of all values holds of one that is looked up, and is kept by an update.
  pub All-lookup {κ} :
      (P : V → Type κ) (dict : List (Bytes × V)) (key : Bytes) (x : V)
      → All (λ e. P e.1) dict
      → lookup key dict ≡ some x
      → P x
  unfolding lookup
  All-lookup P [] key x a h = cc
  All-lookup P ((k, y) ∷ rest) key x a h = elim (Bool-cases (same k key)) [
    | inl hit ↦ subst P (cc (rw (hit, lookup) at h)) a.0
    | inr miss ↦ All-lookup P rest key x a.1 (rw (miss, lookup) at h)
  ]

  pub All-insert {κ} :
      (P : V → Type κ) (dict : List (Bytes × V)) (key : Bytes) (new : V)
      → All (λ e. P e.1) dict
      → P new
      → All (λ e. P e.1) (insert key new dict)
  unfolding insert
  All-insert P [] key new a p = (p, tt)
  All-insert P ((k, y) ∷ rest) key new a p = elim (Bool-cases (same k key)) [
    | inl hit ↦ rw hit (p, a.1)
    | inr miss ↦ rw miss (a.0, All-insert P rest key new a.1 p)
  ]
