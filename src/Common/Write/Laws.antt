-- ===== src/Common/Write/Laws.antt =====
-- What `Take`, `Release` and `Close` do to the connection that they are called on.
use zk_wsp.Prelude.{
  ap, ℕ, ◌+◌, ◌≡◌, ◌⊎◌, inl, inr, true, false, none, some, arith, if◌then◌else◌, length, dec_lt,
  Bool-cases,
}
use zk_wsp.Outcome.{ok, blocked, ◌>>=◌}
use zk_wsp.Common.Types.{idle, closed, is_closed}
use zk_wsp.Common.Store.{WriteConnection, Store, set_write, close_ws}
use zk_wsp.Common.Pool.{ConnectionPool, IsConnectionPool}
use zk_wsp.Common.Write.{
  take, release, close_without_lock, PingEnv, ping_error, send_ping_message, on_socket,
}

-- The channel `nextResponse` of a connection is closed exactly if the connection is.
abbrev pub IsSound : Store → Type 0
IsSound s = (j : ℕ) → is_closed (s.writes j).status ≡ (s.writes j).next_response_closed

-- 1 if the connection still has an open websocket, and 0 otherwise.
abbrev pub open_sockets : WriteConnection → ℕ
open_sockets c = if is_closed c.status then 0 else (elim c.ws [ none ↦ 0 | some _ ↦ 1 ])

-- What a call on connection `i` may do: the store stays sound, the connection stays closed if it
-- was, and a websocket leaves the open ones only by one call of its `Close`.
pub record Keeps (i : ℕ) (s t : Store) : Type 0 where
  pub sound : IsSound t
  pub socket :
      length t.ws_closes + open_sockets (t.writes i)
      ≡ length s.ws_closes + open_sockets (s.writes i)

pub take-Keeps : (i : ℕ) (s : Store) → IsSound s → Keeps i s (take i s).1
unfolding take
take-Keeps i s v = record { sound = λ j. ground (arith, v i, v j); socket = ground arith }

-- The store after `Close`, which cannot panic on a sound one.
abbrev pub shut : ℕ → Store → Store
shut i s =
    let c = s.writes i in
    if is_closed c.status
    then s
    else set_write i (record c { next_response_closed = true; status = closed })
        (record s { ws_closes = close_ws c.ws s.ws_closes })

pub close-ok : (i : ℕ) (s : Store) → IsSound s → close_without_lock i s ≡ ok (shut i s)
unfolding close_without_lock
close-ok i s v = ground (arith, v i)

-- For one connection it is enough that this one is as a sound store has it.
pub close-ok_at :
    (i : ℕ) (s : Store)
    → is_closed (s.writes i).status ≡ (s.writes i).next_response_closed
    → close_without_lock i s ≡ ok (shut i s)
unfolding close_without_lock
close-ok_at i s v = ground arith

pub shut-Keeps : (i : ℕ) (s : Store) → IsSound s → Keeps i s (shut i s)
shut-Keeps i s v = record { sound = λ j. ground (arith, v i, v j); socket = ground arith }

module _ {P : Type 0} (ops : ConnectionPool P) (lawful : IsConnectionPool ops) where
  open lawful use {offer-room, offer-full, idle as queue, capacity}

  -- An offer returns or waits; it never panics.
  pub offer-cases :
      (i : ℕ) (p : P) → ((p' : P) × (ops.offer i p ≡ ok p')) ⊎ (ops.offer i p ≡ blocked)
  offer-cases i p = elim (dec_lt (length (queue p)) (capacity p)) [
    | yes h ↦ let r = offer-room i p h in inl (r.after, r.offered)
    | no h ↦ inr (offer-full i p (omega arith))
  ]

  -- The store after a `Release` that found room.
  abbrev pub freed : ℕ → ℕ → Store → Store
  freed now i s = set_write i (record (s.writes i) { idle_since = now; status = idle }) s

  pub release-ok :
      (now i : ℕ) (s : Store) (p p' : P)
      → is_closed (s.writes i).status ≡ false
      → ops.offer i p ≡ ok p'
      → release ops now i s p ≡ ok (freed now i s, p')
  unfolding release
  release-ok now i s p p' o e = rw (o, e)

  pub release-blocked :
      (now i : ℕ) (s : Store) (p : P)
      → is_closed (s.writes i).status ≡ false
      → ops.offer i p ≡ blocked
      → release ops now i s p ≡ blocked
  unfolding release
  release-blocked now i s p o e = rw (o, e)

  pub release-cases :
      (now i : ℕ) (s : Store) (p : P)
      → ((is_closed (s.writes i).status ≡ true) × (release ops now i s p ≡ ok (s, p)))
        ⊎ ((is_closed (s.writes i).status ≡ false)
            × ((p' : P) × (ops.offer i p ≡ ok p')
                × (release ops now i s p ≡ ok (freed now i s, p'))))
        ⊎ ((is_closed (s.writes i).status ≡ false) × (release ops now i s p ≡ blocked))
  unfolding release
  release-cases now i s p = elim (Bool-cases (is_closed (s.writes i).status)) [
    | inl c ↦ inl (c, rw c)
    | inr o ↦ inr (elim (offer-cases i p) [
      | inl (p', e) ↦ inl (o, (p', e, rw (o, e)))
      | inr e ↦ inr (o, rw (o, e))
    ])
  ]

  pub freed-Keeps :
      (now i : ℕ) (s : Store)
      → is_closed (s.writes i).status ≡ false
      → IsSound s
      → Keeps i s (freed now i s)
  freed-Keeps now i s o v = record { sound = λ j. ground (arith, v i, v j); socket = ground arith }

  -- A ping over a websocket that is there
  pub pinged :
      (e : PingEnv) (i : ℕ) (s : Store) (p : P) (w : ℕ)
      → (s.writes i).ws ≡ some w
      → send_ping_message ops e i s p
        ≡ (release ops e.now i s p >>= λ (s', p'). ok (ping_error e, s', p'))
  unfolding send_ping_message
  pinged e i s p w h =
      ap (λ o. release ops e.now i s p >>= λ (s', p'). on_socket o (ping_error e, s', p')) h
