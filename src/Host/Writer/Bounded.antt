-- ===== src/Host/Writer/Bounded.antt =====
-- The bound of the outbound queue.
use dots_rust.Prelude.{
  ℕ, ◌+◌, ◌≤◌, leb, not, ◌&&◌, ◌||◌, ◌≡◌, refl, true, List, [], ◌∷◌, ◌++◌, length, ltb, arith,
  if◌then◌else◌,
}
use dots_rust.Container.Map.{Bytes}
use dots_rust.Host.Writer.{
  write_overflow_threshold, WriteState, GuestWriter, enqueue, close, new, saturating_add, overflows,
  take_queue, count_wakeup, fail, record_received, snapshot_stats,
}

pub total : List Bytes → ℕ
total [] = 0
total (b ∷ bs) = length b + total bs

pub total-snoc : (bs : List Bytes) (b : Bytes) → total (bs ++ b ∷ []) ≡ total bs + length b
unfolding total
total-snoc [] b = omega arith
total-snoc (c ∷ bs) b = omega (arith, total-snoc bs b)

-- The counter is exact, the queue is bounded, the mark is not below it, and an overflow closes.
pub record IsBounded (w : GuestWriter) : Type 0 where
  pub exact : w.state.queued_bytes ≡ total w.state.queue
  pub bounded : w.state.queued_bytes ≤ write_overflow_threshold
  pub marked : w.state.queued_bytes ≤ w.state.stats.peak_queued_bytes
  pub shut : w.state.overflow ≡ true → w.state.closed ≡ true

overflows-lt :
    (b : Bytes) (s : WriteState)
    → overflows b s ≡ ltb write_overflow_threshold (s.queued_bytes + length b)
unfolding overflows saturating_add
overflows-lt b s = ground arith

pub new-IsBounded : IsBounded new
unfolding new total
new-IsBounded = record {
  exact = refl;
  bounded = omega arith;
  marked = omega arith;
  shut = λ h. absurd (ground arith);
}

module _ (w : GuestWriter) (v : IsBounded w) where
  pub enqueue-IsBounded : (b : Bytes) → IsBounded (enqueue b w)
  unfolding enqueue
  enqueue-IsBounded b = ground (arith, overflows-lt b w.state, total-snoc w.state.queue b, v.shut)

  pub close-IsBounded : IsBounded (close w)
  unfolding close
  close-IsBounded = ground (arith, v.shut)

  pub take_queue-IsBounded : IsBounded (take_queue w)
  unfolding take_queue total
  take_queue-IsBounded = ground (arith, v.shut)

  pub count_wakeup-IsBounded : IsBounded (count_wakeup w)
  unfolding count_wakeup
  count_wakeup-IsBounded = ground (arith, v.shut)

  pub fail-IsBounded : IsBounded (fail w)
  unfolding fail
  fail-IsBounded = ground arith

  pub record_received-IsBounded : (n : ℕ) → IsBounded (record_received n w)
  unfolding record_received
  record_received-IsBounded n = ground (arith, v.shut)

  pub snapshot_stats-IsBounded : IsBounded (snapshot_stats w).1
  unfolding snapshot_stats
  snapshot_stats-IsBounded = ground (arith, v.shut)

-- What the tasks do to a writer.
pub data Call : Type 0 where
  enqueues : Bytes → Call
  closes takes_queue wakes fails snapshots : Call
  receives : ℕ → Call

pub perform : Call → GuestWriter → GuestWriter
unfolding enqueue close take_queue count_wakeup fail snapshot_stats record_received
perform (enqueues b) w = enqueue b w
perform closes w = close w
perform takes_queue w = take_queue w
perform wakes w = count_wakeup w
perform fails w = fail w
perform snapshots w = (snapshot_stats w).1
perform (receives n) w = record_received n w

pub perform_all : List Call → GuestWriter → GuestWriter
perform_all [] w = w
perform_all (c ∷ cs) w = perform_all cs (perform c w)

perform-IsBounded : (c : Call) (w : GuestWriter) → IsBounded w → IsBounded (perform c w)
unfolding perform
perform-IsBounded (enqueues b) w v = enqueue-IsBounded w v b
perform-IsBounded closes w v = close-IsBounded w v
perform-IsBounded takes_queue w v = take_queue-IsBounded w v
perform-IsBounded wakes w v = count_wakeup-IsBounded w v
perform-IsBounded fails w v = fail-IsBounded w v
perform-IsBounded snapshots w v = snapshot_stats-IsBounded w v
perform-IsBounded (receives n) w v = record_received-IsBounded w v n

pub perform_all-IsBounded :
    (cs : List Call) (w : GuestWriter) → IsBounded w → IsBounded (perform_all cs w)
unfolding perform_all
perform_all-IsBounded [] w v = v
perform_all-IsBounded (c ∷ cs) w v =
    perform_all-IsBounded cs (perform c w) (perform-IsBounded c w v)

-- Whatever the tasks do to a new writer, its byte counter is the sum of the lengths of the queued
-- frames and at most the threshold of 1 MiB, the high-water mark is not below it, and an overflowed
-- writer is closed.
pub new-stays_IsBounded : (cs : List Call) → IsBounded (perform_all cs new)
new-stays_IsBounded cs = perform_all-IsBounded cs new new-IsBounded

-- With the counter exact, a frame is queued behind the others exactly when the writer is open and the
-- frame fits under the threshold; an open writer that it does not fit is marked and closed, and a
-- closed one is left as it is.
enqueue_lem :
    (b : Bytes) (w : GuestWriter)
    → IsBounded w
    → let fits = leb (total w.state.queue + length b) write_overflow_threshold in
      let w' = enqueue b w in
      (w'.state.queue
        ≡ (if not w.state.closed && fits then w.state.queue ++ b ∷ [] else w.state.queue))
      × (w'.state.closed ≡ (w.state.closed || not fits))
      × (w'.state.overflow ≡ (w.state.overflow || not w.state.closed && not fits))
unfolding enqueue
enqueue_lem b w v = ground (arith, overflows-lt b w.state)

-- After a close, and after an overflow, nothing that is enqueued gets into the queue any more, and the
-- writer stays closed, whatever the tasks do.
pub perform_all-closed :
    (cs : List Call) (w : GuestWriter)
    → w.state.closed ≡ true
    → ((perform_all cs w).state.closed ≡ true)
      × ((b : Bytes) → enqueue b (perform_all cs w) ≡ perform_all cs w)
unfolding perform_all perform enqueue
perform_all-closed [] w h = (h, λ b. rw h refl)
perform_all-closed (enqueues b ∷ cs) w h = perform_all-closed cs (enqueue b w) (ground arith)
perform_all-closed (closes ∷ cs) w h = perform_all-closed cs (close w) (unfold close in refl)
perform_all-closed (takes_queue ∷ cs) w h =
    perform_all-closed cs (take_queue w) (unfold take_queue in h)
perform_all-closed (wakes ∷ cs) w h =
    perform_all-closed cs (count_wakeup w) (unfold count_wakeup in h)
perform_all-closed (fails ∷ cs) w h = perform_all-closed cs (fail w) (unfold fail in refl)
perform_all-closed (snapshots ∷ cs) w h =
    perform_all-closed cs (snapshot_stats w).1 (unfold snapshot_stats in h)
perform_all-closed (receives n ∷ cs) w h =
    perform_all-closed cs (record_received n w) (unfold record_received in h)
