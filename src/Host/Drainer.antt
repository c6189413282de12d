-- ===== src/Host/Drainer.antt =====
-- `writer_loop` of crates/dots-rs-transport/src/host.rs as a machine that producers feed.
use dots_rust.Prelude.{Bool, true, false, not, ◌&&◌, List, [], ◌∷◌, ◌++◌, if◌then◌else◌}
use dots_rust.Container.Map.{Bytes}
use dots_rust.Host.Writer.{
  GuestWriter, new, enqueue, overflows, close, count_wakeup, take_queue, fail, Attempt, DrainResult,
  done, broken, pending, drain_vectored,
}
pub mod Flow
pub mod Invariant

-- What a producer's frame does: `enqueue` took it.
unfoldable pub admits : Bytes → GuestWriter → Bool
unfolding overflows
admits frame w = not w.state.closed && not (overflows frame w.state)

-- Where `writer_loop` stands: at the test of the queue, in `write_chunks`, at `notified.await`, or
-- behind its return, with the chunks that a failed write left.
pub data Phase : Type 0 where
  checking waiting finished : Phase
  writing abandoned : List Bytes → Phase

-- The writer and its drainer; with the bytes that the socket got, and the frames that were taken.
pub record Drainer : Type 0 where
  pub writer : GuestWriter
  pub phase : Phase
  pub socket : Bytes
  pub accepted : List Bytes

-- What producers, the guest's reader and the drainer do, in any order.
pub data Event : Type 0 where
  produce : Bytes → Event
  shut wake check : Event
  write : List Attempt → Event

unfoldable pub start : Drainer
unfolding new count_wakeup
start = record { writer = count_wakeup new; phase = checking; socket = []; accepted = [] }

abbrev pub woken : Phase → Drainer → Drainer
woken waiting s =
    if s.writer.permit
    then record s { writer = record (count_wakeup s.writer) { permit = false }; phase = checking }
    else s
woken other s = s

abbrev pub checked : Phase → List Bytes → Drainer → Drainer
checked checking [] s = record s { phase = if s.writer.state.closed then finished else waiting }
checked checking (c ∷ cs) s = record s { writer = take_queue s.writer; phase = writing (c ∷ cs) }
checked other queue s = s

abbrev pub after_write : DrainResult × List Bytes × Bytes → Drainer → Drainer
after_write (done, left, sent) s = record s { phase = checking; socket = s.socket ++ sent }
after_write (pending, left, sent) s = record s { phase = writing left; socket = s.socket ++ sent }
after_write (broken, left, sent) s = record s {
  writer = fail s.writer;
  phase = abandoned left;
  socket = s.socket ++ sent;
}

abbrev pub written : List Attempt → Phase → Drainer → Drainer
written attempts (writing chunks) s = after_write (drain_vectored attempts chunks) s
written attempts other s = s

unfoldable pub step : Event → Drainer → Drainer
unfolding enqueue admits close count_wakeup take_queue fail drain_vectored
step (produce frame) s = record s {
  writer = enqueue frame s.writer;
  accepted = if admits frame s.writer then s.accepted ++ frame ∷ [] else s.accepted;
}
step shut s = record s { writer = close s.writer }
step wake s = woken s.phase s
step check s = checked s.phase s.writer.state.queue s
step (write attempts) s = written attempts s.phase s

unfoldable pub run : List Event → Drainer → Drainer
run [] s = s
run (e ∷ es) s = run es (step e s)
