-- ===== src/Host/Drainer/Invariant.antt =====
-- What holds while producers and the drainer run, in any order.
use dots_rust.Prelude.{
  ◌≡◌, refl, ap, ◌∙◌, sym, true, not, ◌||◌, List, [], ◌∷◌, ◌++◌, subst, arith, if◌then◌else◌,
  Bool-cases, inl, inr, append_assoc, append-nil,
}
use dots_rust.Container.Map.{Bytes}
use dots_rust.Host.Writer.{
  GuestWriter, enqueue, close, count_wakeup, take_queue, fail, new, is_empty, concat,
  drain_vectored, Attempt, room, would_block, failing, DrainResult, done, broken, pending,
}
use dots_rust.Host.Drainer.{
  Drainer, Phase, checking, waiting, finished, writing, abandoned, Event, produce, shut, wake,
  check, write, step, run, start, admits, after_write, woken, checked, written,
}
use dots_rust.Host.Drainer.Flow.{concat-append, drain_vectored-lossless}

-- The chunks that the drainer holds.
abbrev pub held : Phase → List Bytes
held (writing chunks) = chunks
held (abandoned chunks) = chunks
held other = []

-- A waiting drainer with something to do has a permit.
abbrev pub Awake : Phase → GuestWriter → Type 0
Awake waiting w = (not (is_empty w.state.queue) || w.state.closed) ≡ true → w.permit ≡ true
Awake other w = Unit

abbrev pub Ended : Phase → GuestWriter → Type 0
Ended finished w = (w.state.queue ≡ []) × (w.state.closed ≡ true)
Ended (abandoned chunks) w = w.state.closed ≡ true
Ended other w = Unit

pub record IsSound (s : Drainer) : Type 0 where
  pub lossless :
      s.socket ++ concat (held s.phase) ++ concat s.writer.state.queue ≡ concat s.accepted
  pub awake : Awake s.phase s.writer
  pub ended : Ended s.phase s.writer

start-IsSound : IsSound start
unfolding start new count_wakeup
start-IsSound = record { lossless = refl; awake = tt; ended = tt }

enqueue-queue :
    (b : Bytes) (w : GuestWriter)
    → (enqueue b w).state.queue ≡ (if admits b w then w.state.queue ++ b ∷ [] else w.state.queue)
unfolding enqueue admits
enqueue-queue b w = ground arith

snoc :
    (p : Bytes) (queue accepted : List Bytes) (b : Bytes)
    → p ++ concat queue ≡ concat accepted
    → p ++ concat (queue ++ b ∷ []) ≡ concat (accepted ++ b ∷ [])
snoc p queue accepted b h =
    ap (λ l. p ++ l) (concat-append queue (b ∷ []))
    ∙ sym (append_assoc p (concat queue) (b ++ []))
    ∙ ap (λ l. l ++ (b ++ [])) h
    ∙ sym (concat-append accepted (b ∷ []))

produce-lossless :
    (b : Bytes) (s : Drainer)
    → IsSound s
    → let t = step (produce b) s in
      t.socket ++ concat (held t.phase) ++ concat t.writer.state.queue ≡ concat t.accepted
unfolding step
produce-lossless b s v = elim (Bool-cases (admits b s.writer)) [
  | inl taken ↦
      rw (enqueue-queue b s.writer, taken)
        (snoc (s.socket ++ concat (held s.phase)) s.writer.state.queue s.accepted b v.lossless)
  | inr refused ↦ rw (enqueue-queue b s.writer, refused) v.lossless
]

enqueue-Awake : (p : Phase) (b : Bytes) (w : GuestWriter) → Awake p w → Awake p (enqueue b w)
unfolding enqueue
enqueue-Awake waiting b w v = ground arith
enqueue-Awake checking b w v = tt
enqueue-Awake finished b w v = tt
enqueue-Awake (writing chunks) b w v = tt
enqueue-Awake (abandoned chunks) b w v = tt

enqueue-Ended : (p : Phase) (b : Bytes) (w : GuestWriter) → Ended p w → Ended p (enqueue b w)
unfolding enqueue
enqueue-Ended finished b w v = ground arith
enqueue-Ended waiting b w v = tt
enqueue-Ended checking b w v = tt
enqueue-Ended (writing chunks) b w v = tt
enqueue-Ended (abandoned chunks) b w v = ground arith

close-Awake : (p : Phase) (w : GuestWriter) → Awake p (close w)
unfolding close
close-Awake waiting w = λ h. refl
close-Awake checking w = tt
close-Awake finished w = tt
close-Awake (writing chunks) w = tt
close-Awake (abandoned chunks) w = tt

close-Ended : (p : Phase) (w : GuestWriter) → Ended p w → Ended p (close w)
unfolding close
close-Ended finished w v = (v.0, refl)
close-Ended waiting w v = tt
close-Ended checking w v = tt
close-Ended (writing chunks) w v = tt
close-Ended (abandoned chunks) w v = refl

-- What `IsSound` tells of the bytes, in a phase that is known.
lossless_at :
    (p : Phase) (s : Drainer)
    → p ≡ s.phase
    → IsSound s
    → s.socket ++ concat (held p) ++ concat s.writer.state.queue ≡ concat s.accepted
lossless_at p s e v =
    ap (λ q. s.socket ++ concat (held q) ++ concat s.writer.state.queue) e ∙ v.lossless

woken-IsSound : (p : Phase) (s : Drainer) → p ≡ s.phase → IsSound s → IsSound (woken p s)
unfolding count_wakeup
woken-IsSound waiting s e v = elim (Bool-cases s.writer.permit) [
  | inl granted ↦
      rw granted (record { lossless = lossless_at waiting s e v; awake = tt; ended = tt })
  | inr none_left ↦ simp none_left v
]
woken-IsSound checking s e v = v
woken-IsSound finished s e v = v
woken-IsSound (writing chunks) s e v = v
woken-IsSound (abandoned chunks) s e v = v

checked-IsSound :
    (p : Phase) (queue : List Bytes) (s : Drainer)
    → p ≡ s.phase
    → queue ≡ s.writer.state.queue
    → IsSound s
    → IsSound (checked p queue s)
unfolding take_queue
checked-IsSound checking [] s e q v = elim (Bool-cases s.writer.state.closed) [
  | inl over ↦
      simp over
        (record { lossless = lossless_at checking s e v; awake = tt; ended = (sym q, over) })
  | inr open_still ↦
      rw open_still
        (record { lossless = lossless_at checking s e v; awake = ground arith; ended = tt })
]
checked-IsSound checking (c ∷ cs) s e q v = record {
  lossless =
      append-nil (s.socket ++ concat (c ∷ cs))
      ∙ ap (λ queue. s.socket ++ concat queue) q
      ∙ ap (λ l. l ++ concat s.writer.state.queue) (sym (append-nil s.socket))
      ∙ lossless_at checking s e v;
  awake = tt;
  ended = tt;
}
checked-IsSound waiting queue s e q v = v
checked-IsSound finished queue s e q v = v
checked-IsSound (writing chunks) queue s e q v = v
checked-IsSound (abandoned chunks) queue s e q v = v

-- The bytes behind a write, when the socket got some of those that were held.
moved :
    (socket sent : Bytes) (left chunks : List Bytes) (behind all : Bytes)
    → sent ++ concat left ≡ concat chunks
    → socket ++ concat chunks ++ behind ≡ all
    → (socket ++ sent) ++ concat left ++ behind ≡ all
moved socket sent left chunks behind all h e =
    ap (λ l. l ++ behind) (append_assoc socket sent (concat left) ∙ ap (λ l. socket ++ l) h) ∙ e

after_write-IsSound :
    (r : DrainResult) (left chunks : List Bytes) (sent : Bytes) (s : Drainer)
    → writing chunks ≡ s.phase
    → sent ++ concat left ≡ concat chunks
    → (r ≡ done → left ≡ [])
    → IsSound s
    → IsSound (after_write (r, left, sent) s)
unfolding fail
after_write-IsSound done left chunks sent s e h gone v =
    let flow : (s.socket ++ sent) ++ concat left ++ concat s.writer.state.queue
        ≡ concat s.accepted =
      moved s.socket sent left chunks (concat s.writer.state.queue) (concat s.accepted) h
        (lossless_at (writing chunks) s e v) in
    record {
      lossless =
          ap (λ l. (s.socket ++ sent) ++ concat l ++ concat s.writer.state.queue) (sym (gone refl))
          ∙ flow;
      awake = tt;
      ended = tt;
    }
after_write-IsSound pending left chunks sent s e h gone v = record {
  lossless =
      moved s.socket sent left chunks (concat s.writer.state.queue) (concat s.accepted) h
        (lossless_at (writing chunks) s e v);
  awake = tt;
  ended = tt;
}
after_write-IsSound broken left chunks sent s e h gone v = record {
  lossless =
      moved s.socket sent left chunks (concat s.writer.state.queue) (concat s.accepted) h
        (lossless_at (writing chunks) s e v);
  awake = tt;
  ended = refl;
}

drain_vectored-left :
    (attempts : List Attempt) (chunks : List Bytes)
    → (drain_vectored attempts chunks).0 ≡ done
    → (drain_vectored attempts chunks).1 ≡ []
unfolding drain_vectored
drain_vectored-left attempts [] h = refl
drain_vectored-left [] (c ∷ cs) h = cc
drain_vectored-left (room r ∷ attempts) (c ∷ cs) h = drain_vectored-left attempts _ h
drain_vectored-left (would_block ∷ attempts) (c ∷ cs) h = drain_vectored-left attempts (c ∷ cs) h
drain_vectored-left (failing ∷ attempts) (c ∷ cs) h = cc

written-IsSound :
    (attempts : List Attempt) (p : Phase) (s : Drainer)
    → p ≡ s.phase
    → IsSound s
    → IsSound (written attempts p s)
written-IsSound attempts (writing chunks) s e v =
    let (r, left, sent) = drain_vectored attempts chunks in
    after_write-IsSound r left chunks sent s e (drain_vectored-lossless attempts chunks)
      (drain_vectored-left attempts chunks) v
written-IsSound attempts checking s e v = v
written-IsSound attempts waiting s e v = v
written-IsSound attempts finished s e v = v
written-IsSound attempts (abandoned chunks) s e v = v

step-IsSound : (e : Event) (s : Drainer) → IsSound s → IsSound (step e s)
unfolding step
step-IsSound (produce b) s v = record {
  lossless = produce-lossless b s v;
  awake = enqueue-Awake s.phase b s.writer v.awake;
  ended = enqueue-Ended s.phase b s.writer v.ended;
}
step-IsSound shut s v = record {
  lossless = unfold close in v.lossless;
  awake = close-Awake s.phase s.writer;
  ended = close-Ended s.phase s.writer v.ended;
}
step-IsSound wake s v = woken-IsSound s.phase s refl v
step-IsSound check s v = checked-IsSound s.phase s.writer.state.queue s refl refl v
step-IsSound (write attempts) s v = written-IsSound attempts s.phase s refl v

run-IsSound : (es : List Event) (s : Drainer) → IsSound s → IsSound (run es s)
unfolding run
run-IsSound [] s v = v
run-IsSound (e ∷ es) s v = run-IsSound es (step e s) (step-IsSound e s v)

-- Whatever the order in which producers and the drainer run, the bytes that the socket got, the
-- chunks that the drainer holds and the queue make up the frames that were taken, in their order.
pub run-lossless :
    (es : List Event)
    → let s = run es start in
      s.socket ++ concat (held s.phase) ++ concat s.writer.state.queue ≡ concat s.accepted
run-lossless es = (run-IsSound es start start-IsSound).lossless

-- A drainer that returned without a failed write has delivered every frame that was taken, and the
-- writer is closed behind it.
pub run-delivered :
    (es : List Event)
    → (run es start).phase ≡ finished
    → ((run es start).socket ≡ concat (run es start).accepted)
      × ((run es start).writer.state.closed ≡ true)
run-delivered es h =
    let s = run es start in
    let v : IsSound s = run-IsSound es start start-IsSound in
    let (emptied, closed) = subst (λ p. Ended p s.writer) h v.ended in
    (
      sym (append-nil s.socket ∙ ap (λ l. l) refl)
          ∙ sym (append-nil (s.socket ++ []))
          ∙ ap (λ queue. (s.socket ++ []) ++ concat queue) (sym emptied)
          ∙ lossless_at finished s (sym h) v,
      closed,
    )

wakes :
    (s : Drainer)
    → s.phase ≡ waiting
    → s.writer.permit ≡ true
    → (not (is_empty s.writer.state.queue) || s.writer.state.closed) ≡ true
    → (run (wake ∷ check ∷ []) s).phase
      ≡ (if is_empty s.writer.state.queue then finished else writing s.writer.state.queue)
unfolding run step count_wakeup take_queue
wakes s h granted busy = ground arith

-- No wakeup is lost: when a drainer waits although a frame is queued or the writer is closed, its
-- wakeup is due, and behind it the drainer takes the whole queue, or returns when it is empty.
pub run-wakes :
    (es : List Event)
    → (run es start).phase ≡ waiting
    → (not (is_empty (run es start).writer.state.queue) || (run es start).writer.state.closed)
      ≡ true
    → (run (wake ∷ check ∷ []) (run es start)).phase ≡ (
        if is_empty (run es start).writer.state.queue
        then finished
        else writing (run es start).writer.state.queue)
run-wakes es h busy =
    let s = run es start in
    let v : IsSound s = run-IsSound es start start-IsSound in
    wakes s h (subst (λ p. Awake p s.writer) h v.awake busy) busy
