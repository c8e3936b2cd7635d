-- ===== src/Common/Reader/Lost.antt =====
-- A websocket that fails while a handler waits for the response: common/writeConnection.go.
use zk_wsp.Prelude.{ℕ, ◌≡◌, ◌∙◌, ◌⊎◌, inl, inr, refl, sym, true}
use zk_wsp.Outcome.{ok}
use zk_wsp.Common.Store.{Store}
use zk_wsp.Common.Pool.{ConnectionPool, IsConnectionPool}
use zk_wsp.Common.Write.{close_without_lock}
use zk_wsp.Common.Write.Laws.{IsSound, close-ok}
use zk_wsp.Common.Reader.{
  reading, leaving, ended, Part, asking, panicked, Conn, Step, Event, Reach, stop, next, arrive,
  read_error, wild, expected, unlock, meet, give, resume, leave, write_ok, write_error,
  send_on_closed, read_response, read_body, part_error, bad_status, put_back, ping_ends, throw_away,
  close_elsewhere, own, take_request, take_ping, elsewhere, absent,
}
use zk_wsp.Common.Write.Uses.{close-IsSound}
use zk_wsp.Common.Write.Uses.{close-closes}
use zk_wsp.Common.Write.Uses.{take-IsFree}
use zk_wsp.Common.Reader.Invariant.{Inv, Reach-Inv, Event-Inv}

module _ {P : Type 0} (ops : ConnectionPool P) (lawful : IsConnectionPool ops) (i : ℕ) where
  -- The goroutine has left its loop, and the handler still asks it for a reader.
  abbrev pub IsLost : Part → Conn P → Type 0
  IsLost k s =
      ((s.reader ≡ leaving)
        ⊎ ((s.reader ≡ ended) × ((s.store.writes i).next_response_closed ≡ true)))
      × (s.handler ≡ asking k)

  -- Some steps of the goroutine and the handler
  pub data Steps : Conn P → Conn P → Type 0 where
    done : {s : Conn P} → Steps s s
    more : {s t u : Conn P} → Step ops i s t → Steps t u → Steps s u

  close-next_response :
      (s s' : Store)
      → IsSound s
      → close_without_lock i s ≡ ok s'
      → (s'.writes i).next_response_closed ≡ true
  close-next_response s s' v c = sym (close-IsSound i s s' v c i) ∙ close-closes i s s' v c

  Step-IsLost :
      (k : Part) {s t : Conn P}
      → Step ops i s t
      → Inv ops lawful i s
      → IsLost k s
      → IsLost k t ⊎ (t.handler ≡ panicked)
  Step-IsLost k (stop r c) v (at, h) = inl (inl refl, h)
  Step-IsLost k (next r o) v (at, h) = elim at [ inl l ↦ cc | inr (l, _) ↦ cc ]
  Step-IsLost k (arrive r) v (at, h) = elim at [ inl l ↦ cc | inr (l, _) ↦ cc ]
  Step-IsLost k (read_error r) v (at, h) = inl (inl refl, h)
  Step-IsLost k (wild r b) v (at, h) = inl (inl refl, h)
  Step-IsLost k (expected r b) v (at, h) = elim at [ inl l ↦ cc | inr (l, _) ↦ cc ]
  Step-IsLost k (unlock r c) v (at, h) = inl (inl refl, h)
  Step-IsLost k (meet r o g) v (at, h) = elim at [ inl l ↦ cc | inr (l, _) ↦ cc ]
  Step-IsLost k (give r g) v (at, h) = cc
  Step-IsLost k (resume r) v (at, h) = elim at [ inl l ↦ cc | inr (l, _) ↦ cc ]
  Step-IsLost k {s} (leave r c) v (at, h) =
      inl (inr (refl, close-next_response s.store _ v.sound c), h)
  Step-IsLost k (write_ok g) v (at, h) = cc
  Step-IsLost k (write_error g) v (at, h) = cc
  Step-IsLost k (send_on_closed g c) v (at, h) = inr refl
  Step-IsLost k (read_response g) v (at, h) = cc
  Step-IsLost k (read_body g) v (at, h) = cc
  Step-IsLost k (part_error g) v (at, h) = cc
  Step-IsLost k (bad_status g) v (at, h) = inr refl
  Step-IsLost k (put_back now g e) v (at, h) = cc
  Step-IsLost k (ping_ends now g e) v (at, h) = cc
  Step-IsLost k (throw_away g c) v (at, h) = cc
  Step-IsLost k {s} (close_elsewhere o c) v (at, h) =
      inl (
        elim at [ inl l ↦ inl l | inr (l, _) ↦ inr (l, close-next_response s.store _ v.sound c) ],
        h,
      )

  Step-panicked : {s t : Conn P} → Step ops i s t → s.handler ≡ panicked → t.handler ≡ panicked
  Step-panicked (stop r c) h = h
  Step-panicked (next r o) h = h
  Step-panicked (arrive r) h = h
  Step-panicked (read_error r) h = h
  Step-panicked (wild r b) h = h
  Step-panicked (expected r b) h = h
  Step-panicked (unlock r c) h = h
  Step-panicked (meet r o g) h = cc
  Step-panicked (give r g) h = cc
  Step-panicked (resume r) h = h
  Step-panicked (leave r c) h = h
  Step-panicked (write_ok g) h = cc
  Step-panicked (write_error g) h = cc
  Step-panicked (send_on_closed g c) h = cc
  Step-panicked (read_response g) h = cc
  Step-panicked (read_body g) h = cc
  Step-panicked (part_error g) h = cc
  Step-panicked (bad_status g) h = cc
  Step-panicked (put_back now g e) h = cc
  Step-panicked (ping_ends now g e) h = cc
  Step-panicked (throw_away g c) h = cc
  Step-panicked (close_elsewhere o c) h = h

  -- The handler still asks, or it has panicked.
  abbrev pub IsDoomed : Part → Conn P → Type 0
  IsDoomed k s = IsLost k s ⊎ (s.handler ≡ panicked)

  IsDoomed-present : (k : Part) (s : Conn P) → IsDoomed k s → s.handler ≡ absent → ⊥
  IsDoomed-present k s (inl (_, h)) e = cc
  IsDoomed-present k s (inr h) e = cc

  Event-IsDoomed :
      (k : Part) {s t : Conn P} → Event ops i s t → Inv ops lawful i s → IsDoomed k s → IsDoomed k t
  Event-IsDoomed k (own st) v (inl l) = Step-IsLost k st v l
  Event-IsDoomed k (own st) v (inr h) = inr (Step-panicked st h)
  Event-IsDoomed k {s} (take_request e) v d =
      let (o, b) = take-IsFree i s.store _ e in absurd (IsDoomed-present k s d (v.unused o b))
  Event-IsDoomed k {s} (take_ping e) v d =
      let (o, b) = take-IsFree i s.store _ e in absurd (IsDoomed-present k s d (v.unused o b))
  Event-IsDoomed k (elsewhere s' p' e w) v (inl (inl l, h)) = inl (inl l, h)
  Event-IsDoomed k (elsewhere s' p' e w) v (inl (inr (l, c), h)) = inl (inr (l, rw e c), h)
  Event-IsDoomed k (elsewhere s' p' e w) v (inr h) = inr h

  -- Whatever happens from `s` on
  pub data Events : Conn P → Conn P → Type 0 where
    now : {s : Conn P} → Events s s
    then_ : {s t u : Conn P} → Events s t → Event ops i t u → Events s u

  Events-Inv : {s t : Conn P} → Events s t → Inv ops lawful i s → Inv ops lawful i t
  Events-Inv now v = v
  Events-Inv (then_ es e) v = Event-Inv ops lawful i e (Events-Inv es v)

  Events-IsDoomed :
      (k : Part) {s t : Conn P} → Events s t → Inv ops lawful i s → IsDoomed k s → IsDoomed k t
  Events-IsDoomed k now v d = d
  Events-IsDoomed k (then_ es e) v d =
      Event-IsDoomed k e (Events-Inv es v) (Events-IsDoomed k es v d)

  IsDoomed-panics :
      (k : Part) (s : Conn P)
      → Inv ops lawful i s
      → IsDoomed k s
      → (t : Conn P) × Steps s t × (t.handler ≡ panicked)
  IsDoomed-panics k s v (inl (inl l, h)) =
      let c = close-ok i s.store v.sound in
      (
        _,
        more (leave l c) (more (send_on_closed h (close-next_response s.store _ v.sound c)) done),
        refl,
      )
  IsDoomed-panics k s v (inl (inr (_, c), h)) = (_, more (send_on_closed h c) done, refl)
  IsDoomed-panics k s v (inr h) = (s, done, h)

  -- If the websocket fails while the goroutine reads it and a handler asks for the response or its
  -- body, then the handler gets no reader: whatever happens next, it still asks or has panicked, and
  -- steps of the goroutine and of the handler are left at whose end it has panicked.
  pub read_error-panics :
      (k : Part) {s u : Conn P}
      → Reach ops i s
      → s.reader ≡ reading
      → s.handler ≡ asking k
      → Events (record s { reader = leaving }) u
      → IsDoomed k u × ((t : Conn P) × Steps u t × (t.handler ≡ panicked))
  read_error-panics k {s} {u} r at h es =
      let v = Event-Inv ops lawful i (own (read_error at)) (Reach-Inv ops lawful i r) in
      let d = Events-IsDoomed k es v (inl (inl refl, h)) in
      (d, IsDoomed-panics k u (Events-Inv es v) d)
