-- ===== src/Common/Reader/Invariant.antt =====
-- What holds whenever the goroutine of `Start` and a handler interleave: common/writeConnection.go.
use zk_wsp.Prelude.{ℕ, ◌≡◌, ◌∙◌, refl, sym, ap, true, false, arith, inl, inr, subst}
use zk_wsp.Outcome.{ok}
use zk_wsp.Common.Types.{is_closed, is_busy}
use zk_wsp.Common.Store.{Store}
use zk_wsp.Common.Pool.{ConnectionPool, IsConnectionPool}
use zk_wsp.Common.Write.{take, release, close_without_lock}
use zk_wsp.Common.Write.Laws.{IsSound, release-cases, freed, freed-Keeps}
use zk_wsp.Common.Write.Uses.{close-IsSound, close-closes, take-IsSound, take-IsBusy, take-IsFree}
use zk_wsp.Common.Reader.{
  ReaderPc, head, reading, arrived, receiving, giving, waiting, notified, leaving, ended, notify,
  response, body, HandlerPc, absent, pinging, writing, asking, awaiting, holding, releasing, failed,
  panicked, Conn, Step, stop, next, arrive, read_error, wild, expected, unlock, meet, give, resume,
  leave, write_ok, write_error, send_on_closed, read_response, read_body, part_error, bad_status,
  put_back, ping_ends, throw_away, close_elsewhere, own, take_request, take_ping, elsewhere,
  started, later, Event, Reach, stop, own, started, next, take_request, later, arrive, take_ping,
  read_error, elsewhere, wild, expected, unlock, meet,
}

-- Where the goroutine serves a handler, and where a handler is served.
abbrev pub serves : ReaderPc → ℕ
serves giving = 1
serves waiting = 2
serves head = 0
serves reading = 0
serves arrived = 0
serves receiving = 0
serves notified = 0
serves leaving = 0
serves ended = 0

abbrev pub served : HandlerPc → ℕ
served (awaiting _) = 1
served (holding _) = 2
served absent = 0
served pinging = 0
served writing = 0
served (asking _) = 0
served releasing = 0
served failed = 0
served panicked = 0

module _ {P : Type 0} (ops : ConnectionPool P) (lawful : IsConnectionPool ops) (i : ℕ) where
  -- A connection that can be taken has no handler; the goroutine offers a reader exactly while a
  -- handler awaits it, and waits exactly while a handler holds it.
  pub record Inv (s : Conn P) : Type 0 where
    pub sound : IsSound s.store
    pub unused :
        is_closed (s.store.writes i).status ≡ false
        → is_busy (s.store.writes i).status ≡ false
        → s.handler ≡ absent
    pub paired : serves s.reader ≡ served s.handler

  reader_moved :
      (s : Conn P) (r : ReaderPc)
      → Inv s
      → serves r ≡ serves s.reader
      → Inv (record s { reader = r })
  reader_moved s r v e = record { sound = v.sound; unused = v.unused; paired = e ∙ v.paired }

  -- A handler that was there moves on.
  handler_moved :
      (s : Conn P) (r : ReaderPc) (h : HandlerPc)
      → Inv s
      → (s.handler ≡ absent → ⊥)
      → serves r ≡ served h
      → Inv (record s { reader = r; handler = h })
  handler_moved s r h v present e = record {
    sound = v.sound;
    unused = λ o b. elim (present (v.unused o b)) [ ];
    paired = e;
  }

  -- The handler leaves a connection that it does not hold.
  handler_left :
      (s : Conn P) (s' : Store) (p' : P)
      → Inv s
      → served s.handler ≡ 0
      → IsSound s'
      → Inv (record s { store = s'; pool = p'; handler = absent })
  handler_left s s' p' v e w = record { sound = w; unused = λ o b. refl; paired = v.paired ∙ e }

  closed-Inv :
      (s : Conn P) (s' : Store) (p' : P) (r : ReaderPc)
      → Inv s
      → serves r ≡ serves s.reader
      → close_without_lock i s.store ≡ ok s'
      → Inv (record s { store = s'; pool = p'; reader = r })
  closed-Inv s s' p' r v e c = record {
    sound = close-IsSound i s.store s' v.sound c;
    unused = λ o b. cc (close-closes i s.store s' v.sound c);
    paired = e ∙ v.paired;
  }

  release-IsSound :
      (now : ℕ) (s : Conn P) (s' : Store) (p' : P)
      → Inv s
      → release ops now i s.store s.pool ≡ ok (s', p')
      → IsSound s'
  release-IsSound now s s' p' v e = elim (release-cases ops lawful now i s.store s.pool) [
    | inl (c, r) ↦ subst IsSound {x = s.store} {y = s'} (ground arith) v.sound
    | inr (inl (o, (q, _, r))) ↦
        subst IsSound {x = freed ops lawful now i s.store} {y = s'} (ground arith)
          (freed-Keeps ops lawful now i s.store o v.sound).sound
    | inr (inr (o, r)) ↦ cc
  ]

  pub serves-waiting : (r : ReaderPc) → serves r ≡ 2 → r ≡ waiting
  serves-waiting waiting e = refl
  serves-waiting giving e = absurd (omega arith)
  serves-waiting head e = absurd (omega arith)
  serves-waiting reading e = absurd (omega arith)
  serves-waiting arrived e = absurd (omega arith)
  serves-waiting receiving e = absurd (omega arith)
  serves-waiting notified e = absurd (omega arith)
  serves-waiting leaving e = absurd (omega arith)
  serves-waiting ended e = absurd (omega arith)

  notify-serves : (r : ReaderPc) → serves r ≡ 2 → serves (notify r) ≡ 0
  notify-serves waiting e = refl
  notify-serves giving e = omega arith
  notify-serves head e = refl
  notify-serves reading e = refl
  notify-serves arrived e = refl
  notify-serves receiving e = refl
  notify-serves notified e = refl
  notify-serves leaving e = refl
  notify-serves ended e = refl

  Step-Inv : {s t : Conn P} → Step ops i s t → Inv s → Inv t
  Step-Inv {s} (stop r c) v = reader_moved s leaving v (ap serves (sym r))
  Step-Inv {s} (next r o) v = reader_moved s reading v (ap serves (sym r))
  Step-Inv {s} (arrive r) v = reader_moved s arrived v (ap serves (sym r))
  Step-Inv {s} (read_error r) v = reader_moved s leaving v (ap serves (sym r))
  Step-Inv {s} (wild r b) v = reader_moved s leaving v (ap serves (sym r))
  Step-Inv {s} (expected r b) v = reader_moved s receiving v (ap serves (sym r))
  Step-Inv {s} (unlock r c) v = reader_moved s leaving v (ap serves (sym r))
  Step-Inv {s} (meet r o h) v = handler_moved s giving (awaiting _) v (λ e. cc) refl
  Step-Inv {s} (give r h) v = handler_moved s waiting (holding _) v (λ e. cc) refl
  Step-Inv {s} (resume r) v = reader_moved s head v (ap serves (sym r))
  Step-Inv {s} (leave r c) v = closed-Inv s _ _ ended v (ap serves (sym r)) c
  Step-Inv {s} (write_ok h) v =
      handler_moved s s.reader (asking response) v (λ e. cc) (v.paired ∙ ap served h)
  Step-Inv {s} (write_error h) v =
      handler_moved s s.reader failed v (λ e. cc) (v.paired ∙ ap served h)
  Step-Inv {s} (send_on_closed h c) v =
      handler_moved s s.reader panicked v (λ e. cc) (v.paired ∙ ap served h)
  Step-Inv {s} (read_response h) v =
      handler_moved s (notify s.reader) (asking body) v (λ e. cc)
        (notify-serves s.reader (v.paired ∙ ap served h))
  Step-Inv {s} (read_body h) v =
      handler_moved s (notify s.reader) releasing v (λ e. cc)
        (notify-serves s.reader (v.paired ∙ ap served h))
  Step-Inv {s} (part_error h) v =
      handler_moved s (notify s.reader) failed v (λ e. cc)
        (notify-serves s.reader (v.paired ∙ ap served h))
  Step-Inv {s} (bad_status h) v =
      handler_moved s (notify s.reader) panicked v (λ e. cc)
        (notify-serves s.reader (v.paired ∙ ap served h))
  Step-Inv {s} (put_back now h e) v =
      handler_left s _ _ v (ap served h) (release-IsSound now s _ _ v e)
  Step-Inv {s} (ping_ends now h e) v =
      handler_left s _ _ v (ap served h) (release-IsSound now s _ _ v e)
  Step-Inv {s} (throw_away h c) v =
      handler_left s _ _ v (ap served h) (close-IsSound i s.store _ v.sound c)
  Step-Inv {s} (close_elsewhere o c) v = closed-Inv s _ s.pool s.reader v refl c

  -- Only a connection that nobody uses is taken.
  taken-Inv :
      (s : Conn P) (s' : Store) (h : HandlerPc)
      → Inv s
      → served h ≡ 0
      → take i s.store ≡ (true, s')
      → Inv (record s { store = s'; handler = h })
  taken-Inv s s' h v z e = record {
    sound = take-IsSound i s.store s' v.sound e;
    unused = λ o b. cc (take-IsBusy i s.store s' e);
    paired = v.paired ∙ ap served (let (o, b) = take-IsFree i s.store s' e in v.unused o b) ∙ sym z;
  }

  pub Event-Inv : {s t : Conn P} → Event ops i s t → Inv s → Inv t
  Event-Inv (own st) v = Step-Inv st v
  Event-Inv {s} (take_request e) v = taken-Inv s _ writing v refl e
  Event-Inv {s} (take_ping e) v = taken-Inv s _ pinging v refl e
  Event-Inv {s} (elsewhere s' p' e w) v = record {
    sound = w;
    unused = λ o b. v.unused (rw (← e) o) (rw (← e) b);
    paired = v.paired;
  }

  pub Reach-Inv : {s : Conn P} → Reach ops i s → Inv s
  Reach-Inv (started w r h) = record {
    sound = w;
    unused = λ o b. h;
    paired = ap serves r ∙ sym (ap served h);
  }
  Reach-Inv (later r e) = Event-Inv e (Reach-Inv r)
