-- ===== src/Common/Receive/Laws.antt =====
-- What `GetValueWithTimeout` returns, and when it gives up.
use zk_wsp.Prelude.{
  ◌≤◌, ◌<◌, ◌+◌, ◌∙◌, arith, ℕ, suc, ◌≡◌, refl, inl, inr, true, false, ◌&&◌, Option, none, some,
  List, [], ◌∷◌, ◌++◌, All, Bool-cases, ap,
}
use zk_wsp.Prelude.Int.{ℤ, pos, ◌-ℤ◌}
use zk_wsp.Common.Types.{is_idle}
use zk_wsp.Common.Store.{Store}
use zk_wsp.Common.Receive.{Round, expired, get_value_with_timeout}

-- The connections at the head of the queue that were received and not wanted.
abbrev pub AllStale : Store → List ℕ → Type 0
AllStale s = All (λ c. is_idle (s.writes c).status ≡ false)

-- A received connection is idle, and the first such one of the queue; none behind it is
-- lost. Without one every connection that was received was unusable.
abbrev pub Received : Store → List ℕ → Option ℕ × List ℕ → Type 0
Received s queue (some c, rest) =
    (stale : List ℕ) × (queue ≡ stale ++ c ∷ rest)
    × AllStale s stale
    × (is_idle (s.writes c).status ≡ true)
Received s queue (none, rest) = (stale : List ℕ) × (queue ≡ stale ++ rest) × AllStale s stale

Received-cons :
    (s : Store) (c : ℕ) (queue : List ℕ) (r : Option ℕ × List ℕ)
    → is_idle (s.writes c).status ≡ false
    → Received s queue r
    → Received s (c ∷ queue) r
Received-cons s c queue (some d, rest) e (stale, q, all, h) = (c ∷ stale, ap (◌∷◌ c) q, (e, all), h)
Received-cons s c queue (none, rest) e (stale, q, all) = (c ∷ stale, ap (◌∷◌ c) q, (e, all))

module _ (s : Store) (rounds : ℕ → Round) where
  late :
      (k : ℕ) (timeout : ℤ) (c : ℕ) (queue : List ℕ)
      → (expired timeout && (rounds k).timer_first) ≡ true
      → get_value_with_timeout s rounds k timeout (c ∷ queue) ≡ (none, c ∷ queue)
  unfolding get_value_with_timeout
  late k timeout c queue e = ground arith

  pub hit :
      (k : ℕ) (timeout : ℤ) (c : ℕ) (queue : List ℕ)
      → (expired timeout && (rounds k).timer_first) ≡ false
      → is_idle (s.writes c).status ≡ true
      → get_value_with_timeout s rounds k timeout (c ∷ queue) ≡ (some c, queue)
  unfolding get_value_with_timeout
  hit k timeout c queue e h = ground arith

  pub skip :
      (k : ℕ) (timeout : ℤ) (c : ℕ) (queue : List ℕ)
      → (expired timeout && (rounds k).timer_first) ≡ false
      → is_idle (s.writes c).status ≡ false
      → get_value_with_timeout s rounds k timeout (c ∷ queue)
        ≡ get_value_with_timeout s rounds (suc k) (timeout -ℤ pos (rounds k).elapsed) queue
  unfolding get_value_with_timeout
  skip k timeout c queue e h = ground arith

  -- Whatever the timers do, `GetValueWithTimeout` returns an idle connection, before which it
  -- dropped only unusable ones from the queue, or none, and then too it dropped only unusable ones.
  pub get_value_with_timeout-Received :
      (k : ℕ) (timeout : ℤ) (queue : List ℕ)
      → Received s queue (get_value_with_timeout s rounds k timeout queue)
  get_value_with_timeout-Received k timeout [] = unfold get_value_with_timeout in ([], refl, tt)
  get_value_with_timeout-Received k timeout (c ∷ queue) =
      elim (Bool-cases (expired timeout && (rounds k).timer_first)) [
        | inl e ↦ rw (late k timeout c queue e) ([], refl, tt)
        | inr e ↦ elim (Bool-cases (is_idle (s.writes c).status)) [
          | inl h ↦ rw (hit k timeout c queue e h) ([], refl, tt, h)
          | inr h ↦ rw (skip k timeout c queue e h) (
              Received-cons s c queue _ h
                (get_value_with_timeout-Received (suc k) (timeout -ℤ pos (rounds k).elapsed) queue))
        ]
      ]

  -- While the channel wins over the timer, the first idle connection of the queue is returned, and
  -- all that stands behind it stays in the queue.
  pub get_value_with_timeout-first_idle :
      ((j : ℕ) → (rounds j).timer_first ≡ false)
      → (stale : List ℕ) (c : ℕ) (rest : List ℕ) → AllStale s stale
      → is_idle (s.writes c).status ≡ true
      → (k : ℕ) (timeout : ℤ)
      → get_value_with_timeout s rounds k timeout (stale ++ c ∷ rest) ≡ (some c, rest)
  get_value_with_timeout-first_idle quiet [] c rest all h k timeout =
      hit k timeout c rest (ground (arith, quiet k)) h
  get_value_with_timeout-first_idle quiet (x ∷ stale) c rest (e, all) h k timeout =
      skip k timeout x (stale ++ c ∷ rest) (ground (arith, quiet k)) e
      ∙ get_value_with_timeout-first_idle quiet stale c rest all h (suc k) _

  -- Each round takes the whole time since the start of the call off the timeout once more. So
  -- behind two unusable connections an idle one is not returned though the time since the start,
  -- `second`, is below the timeout: it is enough that the two times add up to the timeout.
  pub get_value_with_timeout-early :
      (a b c : ℕ) (rest : List ℕ) (timeout first second : ℕ)
      → (rounds 0).elapsed ≡ first
      → (rounds 1).elapsed ≡ second
      → (rounds 2).timer_first ≡ true
      → first ≤ second
      → second < timeout
      → timeout ≤ first + second
      → is_idle (s.writes a).status ≡ false
      → is_idle (s.writes b).status ≡ false
      → get_value_with_timeout s rounds 0 (pos timeout) (a ∷ b ∷ c ∷ rest) ≡ (none, c ∷ rest)
  get_value_with_timeout-early a b c rest timeout first second e0 e1 timer h0 h1 h2 ha hb =
      skip 0 (pos timeout) a (b ∷ c ∷ rest) (ground arith) ha
      ∙ skip 1 (pos timeout -ℤ pos (rounds 0).elapsed) b (c ∷ rest) (unfold ◌-ℤ◌ in ground arith) hb
      ∙ late 2 (pos timeout -ℤ pos (rounds 0).elapsed -ℤ pos (rounds 1).elapsed) c rest
          (unfold ◌-ℤ◌ in ground arith)
