-- ===== src/Common/Write/Uses.antt =====
-- What a handler gets when it takes a write connection, and leaves when it gives it back:
-- common/writeConnection.go.
use zk_wsp.Prelude.{
  Bool, ap, subst, ℕ, ◌≡◌, true, false, ◌∷◌, ◌++◌, [], arith, ==_refl, length, dec_lt,
}
use zk_wsp.Outcome.{ok}
use zk_wsp.Common.Types.{is_busy, Status, busy, is_closed, is_idle}
use zk_wsp.Common.Store.{Store, update}
use zk_wsp.Common.Pool.{ConnectionPool, IsConnectionPool}
use zk_wsp.Common.Write.{take, release, close_without_lock}
use zk_wsp.Common.Write.Laws.{
  IsSound, release-ok, release-blocked, shut, shut-Keeps, close-ok, take-Keeps,
}

-- The store after the connection was taken
abbrev pub taken : ℕ → Store → Store
taken c s = record s { writes = update s.writes c (record (s.writes c) { status = busy }) }

pub take-idle :
    (c : ℕ) (s : Store) → is_idle (s.writes c).status ≡ true → take c s ≡ (true, taken c s)
unfolding take
take-idle c s h = ground arith

pub taken-IsSound :
    (c : ℕ) (s : Store) → IsSound s → is_idle (s.writes c).status ≡ true → IsSound (taken c s)
taken-IsSound c s v h j = ground (arith, v c, v j)

pub taken-open : (c : ℕ) (s : Store) → is_closed ((taken c s).writes c).status ≡ false
taken-open c s = rw (==_refl c)

-- `Close` on a sound store
close-shut : (i : ℕ) (s s' : Store) → IsSound s → close_without_lock i s ≡ ok s' → shut i s ≡ s'
close-shut i s s' v c = cc (close-ok i s v)

pub close-IsSound : (i : ℕ) (s s' : Store) → IsSound s → close_without_lock i s ≡ ok s' → IsSound s'
close-IsSound i s s' v c = subst IsSound (close-shut i s s' v c) (shut-Keeps i s v).sound

pub close-closes :
    (i : ℕ) (s s' : Store)
    → IsSound s
    → close_without_lock i s ≡ ok s'
    → is_closed (s'.writes i).status ≡ true
close-closes i s s' v c =
    subst (λ t. is_closed (t.writes i).status ≡ true) (close-shut i s s' v c)
      (ground (arith, ==_refl i))

-- `Take` when it succeeds
pub take-IsSound : (i : ℕ) (s s' : Store) → IsSound s → take i s ≡ (true, s') → IsSound s'
take-IsSound i s s' v e = subst IsSound (ap (λ (r : Bool × Store). r.1) e) (take-Keeps i s v).sound

pub take-IsBusy :
    (i : ℕ) (s s' : Store) → take i s ≡ (true, s') → is_busy (s'.writes i).status ≡ true
unfolding take
take-IsBusy i s s' e = ground (arith, ==_refl i)

pub take-IsFree :
    (i : ℕ) (s s' : Store)
    → take i s ≡ (true, s')
    → (is_closed (s.writes i).status ≡ false) × (is_busy (s.writes i).status ≡ false)
unfolding take
take-IsFree i s s' e = ground arith

-- A connection that may be handed out again: it is idle, and the last one in the channel.
module _ {P : Type 0} {ops : ConnectionPool P} (lawful : IsConnectionPool ops) where
  abbrev pub IsOffered : ℕ → Store → P → P → Type 0
  IsOffered c s p p' =
      ((s.writes c).status ≡ Status.idle) × (lawful.idle p' ≡ lawful.idle p ++ c ∷ [])

  pub release-IsOffered :
      (now i : ℕ) (s : Store) (p : P) (s' : Store) (p' : P)
      → is_closed (s.writes i).status ≡ false
      → release ops now i s p ≡ ok (s', p')
      → IsOffered i s' p p'
  release-IsOffered now i s p s' p' alive e =
      elim (dec_lt (length (lawful.idle p)) (lawful.capacity p)) [
        | yes room ↦
            let o = lawful.offer-room i p room in
            ground
              (arith, release-ok ops lawful now i s p o.after alive o.offered, o.queued, ==_refl i)
        | no full ↦ ground (
          arith,
          release-blocked ops lawful now i s p alive (lawful.offer-full i p (omega arith)),
        )
      ]
