-- ===== src/Common/Write/History.antt =====
-- Any sequence of calls of the methods of common/writeConnection.go on one connection.
use zk_wsp.Prelude.{
  All, Option, none, some, Option-cases, subst, ==_refl, ℕ, suc, ◌+◌, ◌≤◌, ◌≡◌, ◌∙◌, inl, inr, refl,
  Bool, true, false, List, [], ◌∷◌, arith, if◌then◌else◌,
}
use zk_wsp.Outcome.{Outcome, ok, ◌>>=◌, Safely, Safely->>=, Safely-mono}
use zk_wsp.Common.Types.{is_closed, is_busy}
use zk_wsp.Common.Store.{WriteConnection, Store}
use zk_wsp.Common.Pool.{ConnectionPool, IsConnectionPool}
use zk_wsp.Common.Write.{PingEnv, take, release, close, close_without_lock, send_ping_message}
use zk_wsp.Common.Write.Laws.{
  pinged, IsSound, Keeps, take-Keeps, close-ok, shut-Keeps, release-cases, freed-Keeps,
}

pub data Call : Type 0 where
  takes closes : Call
  releases : ℕ → Call
  pings : PingEnv → Call

-- How many connections the calls have handed out, and the state that they leave.
pub record History (P : Type 0) : Type 0 where
  pub taken : ℕ
  pub store : Store
  pub pool : P

-- 1 if the connection can be taken.
abbrev pub free : WriteConnection → ℕ
free c = if is_closed c.status then 0 else if is_busy c.status then 0 else 1

-- How often the calls may set the connection free.
abbrev pub freeings : List Call → ℕ
freeings [] = 0
freeings (releases now ∷ cs) = suc (freeings cs)
freeings (pings e ∷ cs) = suc (freeings cs)
freeings (takes ∷ cs) = freeings cs
freeings (closes ∷ cs) = freeings cs

-- Only a ping needs a websocket.
abbrev pub CanCall : Option ℕ → Call → Type 0
CanCall none (pings e) = ⊥
CanCall none takes = Unit
CanCall none closes = Unit
CanCall none (releases now) = Unit
CanCall (some ws) c = Unit

abbrev pub as_number : Bool → ℕ
as_number true = 1
as_number false = 0

module _ {P : Type 0} (ops : ConnectionPool P) (i : ℕ) where
  pub step : Call → History P → Outcome (History P)
  step takes h =
      let r = take i h.store in
      ok (record { taken = h.taken + as_number r.0; store = r.1; pool = h.pool })
  step closes h = close i h.store >>= λ s. ok (record h { store = s })
  step (releases now) h =
      release ops now i h.store h.pool >>= λ (s, p). ok (record h { store = s; pool = p })
  step (pings e) h = send_ping_message ops e i h.store h.pool >>= λ (_, s, p).
      ok (record h { store = s; pool = p })

  pub run : List Call → History P → Outcome (History P)
  run [] h = ok h
  run (c ∷ cs) h = step c h >>= run cs

  step-of_closed :
      (c : Call) (h : History P)
      → is_closed (h.store.writes i).status ≡ true
      → CanCall (h.store.writes i).ws c
      → step c h ≡ ok h
  unfolding step take release close_without_lock send_ping_message
  step-of_closed takes h e r = ground arith
  step-of_closed closes h e r = rw e
  step-of_closed (releases now) h e r = rw e
  step-of_closed (pings x) h e r = elim (Option-cases (h.store.writes i).ws) [
    | inl n ↦ elim (subst (λ o. CanCall o (pings x)) n r) [ ]
    | inr (w, y) ↦ rw (e, y)
  ]

  -- A closed connection, its pool and the rest of the store stay as they are under every sequence of
  -- calls on the connection, which neither wait nor panic, and none of which takes it; it has a websocket if there are pings.
  pub run-of_closed :
      (cs : List Call) (h : History P)
      → is_closed (h.store.writes i).status ≡ true
      → All (CanCall (h.store.writes i).ws) cs
      → run cs h ≡ ok h
  unfolding run
  run-of_closed [] h e r = refl
  run-of_closed (c ∷ cs) h e r = rw (step-of_closed c h e r.0) (run-of_closed cs h e r.1)

  -- What the calls `cs` do to the connection, from one history to a later one.
  pub record Lawful (cs : List Call) (h h' : History P) : Type 0 where
    pub keeps : Keeps i h.store h'.store
    pub same_ws : (h'.store.writes i).ws ≡ (h.store.writes i).ws
    pub bound :
        h'.taken + free (h'.store.writes i) ≤ h.taken + free (h.store.writes i) + freeings cs

  module _ (lawful : IsConnectionPool ops) where
    take-Lawful : (h : History P) → IsSound h.store → Safely (Lawful (takes ∷ []) h) (step takes h)
    unfolding step
    take-Lawful h v = record {
      keeps = take-Keeps i h.store v;
      same_ws = unfold take in ground (arith, ==_refl i);
      bound = unfold take in ground arith;
    }

    close-Lawful :
        (h : History P) → IsSound h.store → Safely (Lawful (closes ∷ []) h) (step closes h)
    unfolding step
    close-Lawful h v = rw (close-ok i h.store v) (record {
      keeps = shut-Keeps i h.store v;
      same_ws = ground (arith, ==_refl i);
      bound = ground arith;
    })

    release-Lawful :
        (now : ℕ) (h : History P)
        → IsSound h.store
        → Safely (Lawful (releases now ∷ []) h) (step (releases now) h)
    unfolding step
    release-Lawful now h v = elim (release-cases ops lawful now i h.store h.pool) [
      | inl (c, e) ↦ rw e (record {
        keeps = record { sound = v; socket = refl };
        same_ws = refl;
        bound = ground arith;
      })
      | inr (inl (o, (p', _, e))) ↦ rw e (record {
        keeps = freed-Keeps ops lawful now i h.store o v;
        same_ws = rw (==_refl i);
        bound = ground arith;
      })
      | inr (inr (o, e)) ↦ rw e tt
    ]

    ping-Lawful :
        (e : PingEnv) (h : History P)
        → IsSound h.store
        → (w : ℕ) → (h.store.writes i).ws ≡ some w
        → Safely (Lawful (pings e ∷ []) h) (step (pings e) h)
    unfolding step
    ping-Lawful e h v w q =
        rw (pinged ops lawful e i h.store h.pool w q)
          (elim (release-cases ops lawful e.now i h.store h.pool) [
            | inl (c, r) ↦ rw r (record {
              keeps = record { sound = v; socket = refl };
              same_ws = refl;
              bound = ground arith;
            })
            | inr (inl (o, (p', _, r))) ↦ rw r (record {
              keeps = freed-Keeps ops lawful e.now i h.store o v;
              same_ws = rw (==_refl i);
              bound = ground arith;
            })
            | inr (inr (o, r)) ↦ rw r tt
          ])

    step-Lawful :
        (c : Call) (h : History P)
        → IsSound h.store
        → CanCall (h.store.writes i).ws c
        → Safely (Lawful (c ∷ []) h) (step c h)
    step-Lawful takes h v r = take-Lawful h v
    step-Lawful closes h v r = close-Lawful h v
    step-Lawful (releases now) h v r = release-Lawful now h v
    step-Lawful (pings e) h v r = elim (Option-cases (h.store.writes i).ws) [
      | inl n ↦ elim (subst (λ o. CanCall o (pings e)) n r) [ ]
      | inr (w, y) ↦ ping-Lawful e h v w y
    ]

    freeings-cons :
        (c : Call) (cs : List Call) → freeings (c ∷ cs) ≡ freeings (c ∷ []) + freeings cs
    freeings-cons takes cs = omega arith
    freeings-cons closes cs = omega arith
    freeings-cons (releases now) cs = omega arith
    freeings-cons (pings e) cs = omega arith

    Lawful-trans :
        (c : Call) (cs : List Call) (h m h' : History P)
        → Lawful (c ∷ []) h m
        → Lawful cs m h'
        → Lawful (c ∷ cs) h h'
    Lawful-trans c cs h m h' a b = record {
      keeps = record { sound = b.keeps.sound; socket = b.keeps.socket ∙ a.keeps.socket };
      same_ws = b.same_ws ∙ a.same_ws;
      bound = omega (arith, a.bound, b.bound, freeings-cons c cs);
    }

    -- On a sound store no sequence of calls on a connection panics, if the connection has a websocket or
    -- none of the calls is a ping. If it returns, then the store
    -- is sound again; the number of calls of `ws.Close` has grown by one if the connection lost its
    -- open websocket in between, and by none otherwise; and the connection was taken at most as
    -- often as it was free at the start and may have been set free since.
    pub run-Lawful :
        (cs : List Call) (h : History P)
        → IsSound h.store
        → All (CanCall (h.store.writes i).ws) cs
        → Safely (Lawful cs h) (run cs h)
    unfolding run
    run-Lawful [] h v r = record {
      keeps = record { sound = v; socket = refl };
      same_ws = refl;
      bound = omega arith;
    }
    run-Lawful (c ∷ cs) h v r =
        Safely->>= (Lawful (c ∷ []) h) (Lawful (c ∷ cs) h) (step c h) (run cs)
          (step-Lawful c h v r.0)
          λ m _ a.
            Safely-mono (run cs m) (λ h' b. Lawful-trans c cs h m h' a b)
              (run-Lawful cs m a.keeps.sound (rw a.same_ws r.1))
