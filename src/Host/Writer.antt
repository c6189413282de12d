-- ===== src/Host/Writer.antt =====
-- The outbound queue of a guest, of crates/dots-rs-transport/src/host.rs, with its `stats` feature.
-- `GuestWriter` flattens `Notify` to the permit that `notify_one` stores. A `usize` has 64 bits.
use dots_rust.Prelude.{
  ℕ, ◌+◌, ◌-◌, ◌%◌, ◌^◌, Bool, true, false, List, [], ◌∷◌, ◌++◌, length, take, drop, ltb, leb, ◌==◌,
  if◌then◌else◌,
}
use dots_rust.Container.Map.{Bytes}
pub mod Bounded

abbrev pub write_overflow_threshold : ℕ
write_overflow_threshold = 1048576

abbrev pub max_iov : ℕ
max_iov = 1024

pub record WriteStatsRaw : Type 0 where
  pub bytes_sent : ℕ
  pub frames_sent : ℕ
  pub drainer_wakeups : ℕ
  pub peak_queued_bytes : ℕ
  pub peak_queued_frames : ℕ

pub record WriteState : Type 0 where
  pub queue : List Bytes
  pub queued_bytes : ℕ
  pub overflow : Bool
  pub closed : Bool
  pub stats : WriteStatsRaw

pub record ReadStats : Type 0 where
  pub bytes : ℕ
  pub frames : ℕ

pub record GuestWriter : Type 0 where
  pub state : WriteState
  pub permit : Bool
  pub read_stats : ReadStats

pub record GuestStats : Type 0 where
  pub bytes_sent : ℕ
  pub frames_sent : ℕ
  pub bytes_received : ℕ
  pub frames_received : ℕ
  pub drainer_wakeups : ℕ
  pub peak_queued_bytes : ℕ
  pub peak_queued_frames : ℕ
  pub current_queued_bytes : ℕ
  pub overflow_disconnected : Bool

-- `saturating_add` of two 64-bit numbers
unfoldable pub saturating_add : ℕ → ℕ → ℕ
saturating_add a b = if ltb (a + b) (2 ^ 64) then a + b else 2 ^ 64 - 1

abbrev pub at_least : ℕ → ℕ → ℕ
at_least a b = if ltb a b then b else a

abbrev pub no_stats : WriteStatsRaw
no_stats = record {
  bytes_sent = 0;
  frames_sent = 0;
  drainer_wakeups = 0;
  peak_queued_bytes = 0;
  peak_queued_frames = 0;
}

unfoldable pub new : GuestWriter
new = record {
  state = record {
    queue = [];
    queued_bytes = 0;
    overflow = false;
    closed = false;
    stats = no_stats;
  };
  permit = false;
  read_stats = record { bytes = 0; frames = 0 };
}

-- `fetch_add` wraps.
unfoldable pub record_received : ℕ → GuestWriter → GuestWriter
record_received frame_bytes w = record w {
  read_stats = record {
    bytes = (w.read_stats.bytes + frame_bytes) % 2 ^ 64;
    frames = (w.read_stats.frames + 1) % 2 ^ 64;
  };
}

abbrev pub is_empty {ℓ} : {A : Type ℓ} → List A → Bool
is_empty [] = true
is_empty (x ∷ xs) = false

abbrev pub overflowed : WriteState → WriteState
overflowed s = record s { overflow = true; closed = true }

-- The frame goes behind the queue, and the high-water marks follow.
abbrev pub pushed : Bytes → WriteState → WriteState
pushed frame s =
    let bytes = s.queued_bytes + length frame in
    let queue = s.queue ++ frame ∷ [] in
    record s {
      queue = queue;
      queued_bytes = bytes;
      stats = record (s.stats) {
        peak_queued_bytes = at_least s.stats.peak_queued_bytes bytes;
        peak_queued_frames = at_least s.stats.peak_queued_frames (length queue % 2 ^ 32);
      };
    }

-- `queued_bytes.saturating_add(frame.len()) > WRITE_OVERFLOW_THRESHOLD`
unfoldable pub overflows : Bytes → WriteState → Bool
unfolding saturating_add
overflows frame s = ltb write_overflow_threshold (saturating_add s.queued_bytes (length frame))

unfoldable pub enqueue : Bytes → GuestWriter → GuestWriter
unfolding overflows
enqueue frame w =
    if w.state.closed
    then w
    else if overflows frame w.state
    then record w { state = overflowed w.state; permit = true }
    else record w {
      state = pushed frame w.state;
      permit = if is_empty w.state.queue then true else w.permit;
    }

unfoldable pub close : GuestWriter → GuestWriter
close w = record w { state = record (w.state) { closed = true }; permit = true }

unfoldable pub is_overflowed : GuestWriter → Bool
is_overflowed w = w.state.overflow

-- The answer, and the writer with its high-water marks reset.
unfoldable pub snapshot_stats : GuestWriter → GuestStats × GuestWriter
snapshot_stats w =
    let s = w.state in
    (
      record {
        bytes_sent = s.stats.bytes_sent;
        frames_sent = s.stats.frames_sent;
        bytes_received = w.read_stats.bytes;
        frames_received = w.read_stats.frames;
        drainer_wakeups = s.stats.drainer_wakeups;
        peak_queued_bytes = s.stats.peak_queued_bytes;
        peak_queued_frames = s.stats.peak_queued_frames;
        current_queued_bytes = s.queued_bytes;
        overflow_disconnected = s.overflow;
      },
      record w {
        state = record s {
          stats = record (s.stats) {
            peak_queued_bytes = s.queued_bytes;
            peak_queued_frames = length s.queue % 2 ^ 32;
          };
        };
      },
    )

-- The loop stops at `n == 0`, also in front of an empty frame.
unfoldable pub advance_chunks : List Bytes → ℕ → List Bytes
advance_chunks [] n = []
advance_chunks (front ∷ rest) n =
    let popped = advance_chunks rest (n - length front) in
    if n == 0 then front ∷ rest else if leb (length front) n then popped else drop n front ∷ rest

unfoldable pub ioslices_for : List Bytes → List Bytes
ioslices_for chunks = take max_iov chunks

abbrev pub concat : List Bytes → Bytes
concat [] = []
concat (b ∷ bs) = b ++ concat bs

-- What the socket answers: room for a number of bytes, of which it takes what it is offered;
-- `WouldBlock`, and then a `writable()` that succeeds; or an error.
pub data Attempt : Type 0 where
  room : ℕ → Attempt
  would_block failing : Attempt

pub data DrainResult : Type 0 where
  done broken pending : DrainResult

abbrev pub at_most : ℕ → ℕ → ℕ
at_most a b = if ltb b a then b else a

-- The result, the chunks that are left, and the bytes that went to the socket. When the answers run
-- out the task is suspended: `pending`.
unfoldable pub drain_vectored : List Attempt → List Bytes → DrainResult × List Bytes × Bytes
unfolding advance_chunks ioslices_for
drain_vectored attempts [] = (done, [], [])
drain_vectored [] (c ∷ cs) = (pending, c ∷ cs, [])
drain_vectored (room r ∷ attempts) (c ∷ cs) =
    let offered = concat (ioslices_for (c ∷ cs)) in
    let n = at_most r (length offered) in
    let (result, left, sent) = drain_vectored attempts (advance_chunks (c ∷ cs) n) in
    (result, left, take n offered ++ sent)
drain_vectored (would_block ∷ attempts) (c ∷ cs) = drain_vectored attempts (c ∷ cs)
drain_vectored (failing ∷ attempts) (c ∷ cs) = (broken, c ∷ cs, [])

-- The drainer takes the whole queue, and is credited with it.
unfoldable pub take_queue : GuestWriter → GuestWriter
unfolding saturating_add
take_queue w =
    let s = w.state in
    record w {
      state = record s {
        queue = [];
        queued_bytes = 0;
        stats = record (s.stats) {
          bytes_sent = saturating_add s.stats.bytes_sent s.queued_bytes;
          frames_sent = saturating_add s.stats.frames_sent (length s.queue);
        };
      };
    }

-- One wakeup of the drainer is counted.
unfoldable pub count_wakeup : GuestWriter → GuestWriter
unfolding saturating_add
count_wakeup w =
    let s = w.state in
    record w {
      state = record s {
        stats = record (s.stats) { drainer_wakeups = saturating_add s.stats.drainer_wakeups 1 };
      };
    }

-- The drainer's write failed.
unfoldable pub fail : GuestWriter → GuestWriter
fail w = record w { state = overflowed w.state }
