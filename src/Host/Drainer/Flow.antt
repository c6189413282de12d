-- ===== src/Host/Drainer/Flow.antt =====
-- Frames reach the socket whole and in order.
use dots_rust.Prelude.{
  ℕ, suc, zero, ◌+◌, ◌-◌, ◌≤◌, ◌<◌, ◌≡◌, refl, ap, ◌∙◌, sym, List, [], ◌∷◌, ◌++◌, length, take,
  drop, leb, ◌==◌, arith, Bool-cases, inl, inr, length-append, length-drop, All, drop-append,
  take_append_drop, append_assoc,
}
use dots_rust.Container.Map.{Bytes}
use dots_rust.Host.Writer.{
  advance_chunks, concat, ioslices_for, max_iov, drain_vectored, Attempt, room, would_block,
  failing, at_most, done,
}

drop-all :
    (xs : Bytes) (ys : Bytes) (n : ℕ) → length xs ≤ n → drop n (xs ++ ys) ≡ drop (n - length xs) ys
drop-all xs ys n h =
    ap (λ m. drop m (xs ++ ys)) (let e : n ≡ length xs + (n - length xs) = omega arith in e)
    ∙ drop-append xs ys (n - length xs)

drop-head : (xs ys : Bytes) (n : ℕ) → n ≤ length xs → drop n (xs ++ ys) ≡ drop n xs ++ ys
drop-head xs ys zero h = refl
drop-head [] ys (suc n) h = absurd (omega arith)
drop-head (x ∷ xs) ys (suc n) h = drop-head xs ys n (omega arith)

take-head : (xs ys : Bytes) (n : ℕ) → n ≤ length xs → take n (xs ++ ys) ≡ take n xs
take-head xs ys zero h = refl
take-head [] ys (suc n) h = absurd (omega arith)
take-head (x ∷ xs) ys (suc n) h = ap (λ l. x ∷ l) (take-head xs ys n (omega arith))

pub concat-append : (xs ys : List Bytes) → concat (xs ++ ys) ≡ concat xs ++ concat ys
concat-append [] ys = refl
concat-append (x ∷ xs) ys =
    ap (λ l. x ++ l) (concat-append xs ys) ∙ sym (append_assoc x (concat xs) (concat ys))

-- The chunks that are left hold the bytes behind those that were written.
concat-advance_chunks :
    (chunks : List Bytes) (n : ℕ) → concat (advance_chunks chunks n) ≡ drop n (concat chunks)
unfolding advance_chunks
concat-advance_chunks [] zero = refl
concat-advance_chunks [] (suc n) = refl
concat-advance_chunks (c ∷ cs) n = elim (Bool-cases (n == 0)) [
  | inl none_written ↦
      rw none_written (let e : n ≡ 0 = ground arith in ap (λ m. drop m (c ++ concat cs)) (sym e))
  | inr some_written ↦ elim (Bool-cases (leb (length c) n)) [
    | inl popped ↦
        rw (some_written, popped)
          (concat-advance_chunks cs (n - length c) ∙ sym (drop-all c (concat cs) n (ground arith)))
    | inr cut ↦ rw (some_written, cut) (sym (drop-head c (concat cs) n (ground arith)))
  ]
]

-- What one answer of the socket takes, and what is left, are the chunks.
took :
    (chunks : List Bytes) (n k : ℕ)
    → n ≤ length (concat (take k chunks))
    → take n (concat (take k chunks)) ++ concat (advance_chunks chunks n) ≡ concat chunks
took chunks n k h =
    let whole : concat (take k chunks) ++ concat (drop k chunks) ≡ concat chunks =
      sym (concat-append (take k chunks) (drop k chunks)) ∙ ap concat (take_append_drop k chunks) in
    let head : take n (concat (take k chunks)) ≡ take n (concat chunks) =
      sym (take-head (concat (take k chunks)) (concat (drop k chunks)) n h) ∙ ap (take n) whole in
    ap (λ l. l ++ concat (advance_chunks chunks n)) head
    ∙ ap (λ l. take n (concat chunks) ++ l) (concat-advance_chunks chunks n)
    ∙ take_append_drop n (concat chunks)

-- Nothing is lost and nothing is reordered, whatever the socket answers.
pub drain_vectored-lossless :
    (attempts : List Attempt) (chunks : List Bytes)
    → let (result, left, sent) = drain_vectored attempts chunks in
      sent ++ concat left ≡ concat chunks
unfolding drain_vectored ioslices_for
drain_vectored-lossless attempts [] = refl
drain_vectored-lossless [] (c ∷ cs) = refl
drain_vectored-lossless (room r ∷ attempts) (c ∷ cs) =
    let offered : Bytes = concat (take max_iov (c ∷ cs)) in
    let n : ℕ = at_most r (length offered) in
    let left : List Bytes = advance_chunks (c ∷ cs) n in
    append_assoc (take n offered) (drain_vectored attempts left).2
      (concat (drain_vectored attempts left).1)
    ∙ ap (λ l. take n offered ++ l) (drain_vectored-lossless attempts left)
    ∙ took (c ∷ cs) n max_iov (ground arith)
drain_vectored-lossless (would_block ∷ attempts) (c ∷ cs) =
    drain_vectored-lossless attempts (c ∷ cs)
drain_vectored-lossless (failing ∷ attempts) (c ∷ cs) = refl

abbrev pub Takes : Attempt → Type 0
Takes (room r) = 0 < r
Takes other = ⊥

abbrev pub HasBytes : Bytes → Type 0
HasBytes b = 0 < length b

advance_chunks-HasBytes :
    (chunks : List Bytes) (n : ℕ) → All HasBytes chunks → All HasBytes (advance_chunks chunks n)
unfolding advance_chunks
advance_chunks-HasBytes [] n h = tt
advance_chunks-HasBytes (c ∷ cs) n h = elim (Bool-cases (n == 0)) [
  | inl none_written ↦ rw none_written h
  | inr some_written ↦ elim (Bool-cases (leb (length c) n)) [
    | inl popped ↦ rw (some_written, popped) (advance_chunks-HasBytes cs (n - length c) h.1)
    | inr cut ↦ rw (some_written, cut) (ground (arith, length-drop n c), h.1)
  ]
]

-- When each answer of the socket has room and no frame is empty, one answer for each byte is enough
-- to write all chunks.
pub drain_vectored-ends :
    (attempts : List Attempt) (chunks : List Bytes)
    → All Takes attempts
    → All HasBytes chunks
    → length (concat chunks) ≤ length attempts
    → ((drain_vectored attempts chunks).0 ≡ done) × ((drain_vectored attempts chunks).1 ≡ [])
unfolding drain_vectored ioslices_for
drain_vectored-ends attempts [] t h enough = (refl, refl)
drain_vectored-ends [] (c ∷ cs) t h enough = absurd (omega (arith, length-append {0} c (concat cs)))
drain_vectored-ends (room r ∷ attempts) (c ∷ cs) t h enough =
    let offered : Bytes = concat (take max_iov (c ∷ cs)) in
    let n : ℕ = at_most r (length offered) in
    let left : List Bytes = advance_chunks (c ∷ cs) n in
    let shrunk : length (concat left) ≡ length (c ++ concat cs) - n =
      ap length (concat-advance_chunks (c ∷ cs) n) ∙ length-drop n (c ++ concat cs) in
    let first : length offered ≡ length c + length (concat (take 1023 cs)) =
      length-append c (concat (take 1023 cs)) in
    drain_vectored-ends attempts left t.1 (advance_chunks-HasBytes (c ∷ cs) n h)
      (ground (arith, shrunk, first, length-append c (concat cs)))
drain_vectored-ends (would_block ∷ attempts) (c ∷ cs) t h enough = elim (t.0) [ ]
drain_vectored-ends (failing ∷ attempts) (c ∷ cs) t h enough = elim (t.0) [ ]
