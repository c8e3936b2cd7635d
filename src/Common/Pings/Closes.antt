-- ===== src/Common/Pings/Closes.antt =====
-- How often the websocket of a read connection is closed: common/readConnection.go.
use zk_wsp.Prelude.{
  ℕ, suc, ◌+◌, ◌≡◌, ◌≤◌, refl, Bool, true, false, some, arith, ==_refl, Bool-cases, inl, inr, ◌≢◌,
  ap,
}
use zk_wsp.Common.Types.{is_closed, Status}
use zk_wsp.Common.Store.{Store}
use zk_wsp.Common.Pool.{ConnectionPool}
use zk_wsp.Common.Read.{close, close_without_lock}
use zk_wsp.Common.Pings.{
  LoopPc, head, reading, received, working, written, leaving, removed, ended, Conn, closes, Step,
  Steps, IsStart, listen, arrive, read_error, begin, turn_error, answer, body_error, turn_ends,
  take_out, shut, ping, ping_error, ping_close, ping_drop, close_elsewhere, elsewhere, done, then_,
  idle, set_status, busy,
}

-- One more close is left if the connection is not closed.
abbrev pub left : Bool → ℕ
left true = 0
left false = 1

-- How many closes there can have been, with the one that is left, where the loop stands: each time
-- that the loop sets the status there is one more.
abbrev pub cap : LoopPc → ℕ
cap head = 1
cap reading = 2
cap received = 2
cap working = 3
cap written = 1
cap leaving = 3
cap removed = 3
cap ended = 3

cap-le : (l : LoopPc) → cap l ≤ 3
cap-le head = omega arith
cap-le reading = omega arith
cap-le received = omega arith
cap-le working = omega arith
cap-le written = omega arith
cap-le leaving = omega arith
cap-le removed = omega arith
cap-le ended = omega arith

module _ {P : Type 0} (ops : ConnectionPool P) (i : ℕ) where
  -- The invariant, for the websocket `w`
  pub record Inv (w : ℕ) (s : Conn P) : Type 0 where
    pub connected : (s.store.reads i).ws ≡ some w
    pub capped : closes i s.store + left (is_closed (s.store.reads i).status) ≤ cap s.loop
    pub cut : is_closed (s.store.reads i).status ≡ true → 1 ≤ closes i s.store
    pub shut_down : s.loop ≡ ended → is_closed (s.store.reads i).status ≡ true

  -- `Close` leaves none of the closes that are left, and counts it.
  record IsShut (w : ℕ) (s t : Store) : Type 0 where
    connected : (t.reads i).ws ≡ some w
    cut : is_closed (t.reads i).status ≡ true
    counted : closes i t ≡ closes i s + left (is_closed (s.reads i).status)

  close-IsShut : (w : ℕ) (s : Store) → (s.reads i).ws ≡ some w → IsShut w s (close i s)
  unfolding close_without_lock
  close-IsShut w s h = elim (Bool-cases (is_closed (s.reads i).status)) [
    | inl c ↦ record { connected = rw c h; cut = rw c c; counted = rw c (omega arith) }
    | inr o ↦ record {
      connected = rw o (rw (==_refl i) h);
      cut = rw o (rw (==_refl i) refl);
      counted = ground (arith, ==_refl i, ==_refl w);
    }
  ]

  counted-pos : (b : Bool) (k : ℕ) → (b ≡ true → 1 ≤ k) → 1 ≤ k + left b
  counted-pos true k h = omega (arith, h refl)
  counted-pos false k h = omega arith

  -- The invariant after `Close`, wherever the loop stands after it.
  close-Inv :
      (w : ℕ) (s t : Conn P)
      → Inv w s
      → t.store ≡ close i s.store
      → cap s.loop ≤ cap t.loop
      → Inv w t
  close-Inv w s t v e h =
      let c = close-IsShut w s.store v.connected in
      record {
        connected = rw e c.connected;
        capped = rw (e, c.cut, c.counted) (omega (arith, h, v.capped));
        cut = λ _. rw (e, c.counted) (counted-pos (is_closed (s.store.reads i).status) _ v.cut);
        shut_down = λ _. rw e c.cut;
      }

  -- The invariant after a move of the loop that leaves the store alone and does not end it.
  move-Inv :
      (w : ℕ) (s t : Conn P)
      → Inv w s
      → t.store ≡ s.store
      → (closes i s.store + left (is_closed (s.store.reads i).status) ≤ cap t.loop)
      → (t.loop ≡ ended → s.loop ≡ ended)
      → Inv w t
  move-Inv w s t v e h f = record {
    connected = rw e v.connected;
    capped = rw e h;
    cut = rw e v.cut;
    shut_down = λ g. rw e (v.shut_down (f g));
  }

  left-le : (b : Bool) → left b ≤ 1
  left-le true = omega arith
  left-le false = omega arith

  -- The invariant after the loop has set a status that is not `CLOSED`.
  set-Inv :
      (w : ℕ) (status : Status) (s t : Conn P)
      → Inv w s
      → is_closed status ≡ false
      → t.store ≡ set_status i status s.store
      → suc (cap s.loop) ≡ cap t.loop
      → (t.loop ≢ ended)
      → Inv w t
  set-Inv w status s t v o e h f = record {
    connected = rw e (rw (==_refl i) v.connected);
    capped = rw (e, ==_refl i, o) (omega (arith, h, v.capped));
    cut = rw (e, ==_refl i, o) (λ c. cc);
    shut_down = λ g. absurd (f g);
  }

  pub Step-Inv : {w : ℕ} {s t : Conn P} → Step ops i s t → Inv w s → Inv w t
  Step-Inv {w} {s} (listen r) v = set-Inv w idle s _ v refl refl (rw r refl) (λ g. cc)
  Step-Inv {w} {s} (arrive r) v =
      move-Inv w s _ v refl (omega (arith, v.capped, ap cap r)) (λ g. cc)
  Step-Inv {w} {s} (read_error r) v =
      move-Inv w s _ v refl (omega (arith, v.capped, ap cap r)) (λ g. cc)
  Step-Inv {w} {s} (begin r) v = set-Inv w busy s _ v refl refl (rw r refl) (λ g. cc)
  Step-Inv {w} {s} (turn_error r) v =
      move-Inv w s _ v refl (omega (arith, v.capped, ap cap r)) (λ g. cc)
  Step-Inv {w} {s} (answer r c) v =
      move-Inv w s _ v refl (omega (arith, c, left-le (is_closed (s.store.reads i).status)))
        (λ g. cc)
  Step-Inv {w} {s} (body_error r) v =
      move-Inv w s _ v refl (omega (arith, v.capped, ap cap r)) (λ g. cc)
  Step-Inv {w} {s} (turn_ends r) v =
      move-Inv w s _ v refl (omega (arith, v.capped, ap cap r)) (λ g. cc)
  Step-Inv {w} {s} (take_out r) v =
      move-Inv w s _ v refl (omega (arith, v.capped, ap cap r)) (λ g. cc)
  Step-Inv {w} {s} (shut r) v = close-Inv w s _ v refl (rw r (omega arith))
  Step-Inv (ping r c) v = v
  Step-Inv {w} {s} (ping_error r) v = move-Inv w s _ v refl v.capped (λ g. g)
  Step-Inv {w} {s} (ping_close r) v = close-Inv w s _ v refl (omega arith)
  Step-Inv {w} {s} (ping_drop r) v = move-Inv w s _ v refl v.capped (λ g. g)
  Step-Inv {w} {s} close_elsewhere v = close-Inv w s _ v refl (omega arith)
  Step-Inv {w} (elsewhere s' p' e c) v = record {
    connected = rw e v.connected;
    capped = rw (c, e) v.capped;
    cut = rw (c, e) v.cut;
    shut_down = rw e v.shut_down;
  }

  pub Steps-Inv : {s t : Conn P} (h : IsStart ops i s) → Steps ops i s t → Inv h.ws t
  Steps-Inv h done = record {
    connected = h.connected;
    capped = rw (h.unclosed, h.alive, h.at_head) (omega arith);
    cut = λ c. cc;
    shut_down = λ c. cc;
  }
  Steps-Inv h (then_ st e) = Step-Inv e (Steps-Inv h st)

  -- However the loop of `Start`, its pings and others that close the connection interleave, its
  -- websocket is closed at most three times.
  pub Steps-closes : {s t : Conn P} → IsStart ops i s → Steps ops i s t → closes i t.store ≤ 3
  Steps-closes {s} {t} h st = omega (arith, (Steps-Inv h st).capped, cap-le t.loop)

  -- Once the loop of `Start` has ended, the status is `CLOSED` and the websocket was closed, whatever
  -- the pings and others do, so that no ping succeeds any more.
  pub Steps-ended :
      {s t : Conn P}
      → IsStart ops i s
      → Steps ops i s t
      → t.loop ≡ ended
      → (is_closed (t.store.reads i).status ≡ true) × (1 ≤ closes i t.store)
  Steps-ended h st e = let v = Steps-Inv h st in let c = v.shut_down e in (c, v.cut c)
