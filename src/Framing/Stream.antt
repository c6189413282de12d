-- ===== src/Framing/Stream.antt =====
-- Buffers: frames that are still coming in, what any decoded frame took, and streams of frames.
use mathlib.Core.Path.{subst}
use dots_rust.Prelude.{
  ℕ, zero, suc, ◌+◌, ◌-◌, ◌≤◌, ◌<◌, ◌≡◌, refl, sym, ap, ◌∙◌, List, [], ◌∷◌, ◌++◌, length,
  length-drop, take, drop, take-append, take_append_drop, length-take_le, arith, ltb, Option, none,
  some, Bool-cases, inl, inr, true, false,
}
use dots_rust.Framing.{
  Result, ok, err, HeaderCodec, parse_size_prefix, encode_frame_with_header, max_body_size,
  FramingError, body_too_large, need_more_data, invalid_size_prefix, decode,
  header_missing_type_name, unknown_type, RawTransmission, decode_raw, decode_next, decode_sized,
  decode_body, split_frame, lift_raw, to_be_bytes,
}
use dots_rust.Framing.Bytes.{prefix, parse-prefix, frame, body_of, encode_frame_with_header-lem}
use dots_rust.Framing.Frames.{length-frame}

module _ {Header DecodeError : Type 0} (codec : HeaderCodec Header DecodeError) where
  abbrev waiting :
      List ℕ → Result (FramingError DecodeError) (Option (RawTransmission Header)) × List ℕ
  waiting src = (ok none, src)

  -- A prefix that is not complete.
  short-waits :
      (n : ℕ) (size : ℕ) (body : List ℕ)
      → n < 5
      → decode_next codec (take n (prefix size ++ body)) ≡ waiting (take n (prefix size ++ body))
  unfolding decode_next parse_size_prefix prefix to_be_bytes
  short-waits zero size body h = refl
  short-waits (suc zero) size body h = refl
  short-waits (suc (suc zero)) size body h = refl
  short-waits (suc (suc (suc zero))) size body h = refl
  short-waits (suc (suc (suc (suc zero)))) size body h = refl
  short-waits (suc (suc (suc (suc (suc n))))) size body h = absurd (omega arith)

  -- A body that is not complete.
  body-waits :
      (body : List ℕ) (size : ℕ)
      → size ≤ max_body_size
      → length body < size
      → decode_next codec (prefix size ++ body) ≡ waiting (prefix size ++ body)
  unfolding decode_next
  body-waits body size h less =
      let src = prefix size ++ body in
      let short : ltb (length src) (5 + size) ≡ true =
        unfold prefix in unfold to_be_bytes in ground arith in
      ap (split_frame codec src) (parse-prefix {E = DecodeError} size body h) ∙ rw short refl

  fits : (n : ℕ) → ltb n 5 ≡ false → n ≡ 5 + (n - 5)
  fits n h = ground arith

  take-frame :
      (header : Header) (payload : List ℕ) (m : ℕ)
      → take (5 + m) (frame codec header payload)
        ≡ prefix (length (body_of codec header payload)) ++ take m (body_of codec header payload)
  unfolding frame prefix to_be_bytes
  take-frame header payload m =
      let n = length (body_of codec header payload) in
      take-append (prefix n) (body_of codec header payload) m

  frame-waits :
      (header : Header) (payload : List ℕ) (n : ℕ)
      → length (body_of codec header payload) ≤ max_body_size
      → n < length (frame codec header payload)
      → decode_next codec (take n (frame codec header payload))
        ≡ waiting (take n (frame codec header payload))
  frame-waits header payload n h less = elim (Bool-cases (ltb n 5)) [
    | inl short ↦
        unfold frame in
        short-waits n (length (body_of codec header payload)) (body_of codec header payload)
          (ground arith)
    | inr long ↦
        let body = body_of codec header payload in
        let m = n - 5 in
        let less' : m < length body =
          omega (arith, length-frame codec header payload, fits n long) in
        let cut : take n (frame codec header payload) ≡ prefix (length body) ++ take m body =
          ap (λ k. take k (frame codec header payload)) (fits n long)
          ∙ take-frame header payload m in
        rw cut (
          body-waits (take m body) (length body) h
            (omega (arith, length-take_le m body (omega arith))))
  ]

  -- While a frame whose body is within the limit has not come in whole, nothing is decoded, and nothing
  -- is taken from the buffer.
  pub decode_next-partial :
      (header : Header) (payload : List ℕ) (n : ℕ)
      → length (body_of codec header payload) ≤ max_body_size
      → n < length (encode_frame_with_header codec header payload [])
      → let src = take n (encode_frame_with_header codec header payload []) in
        decode_next codec src ≡ (ok none, src)
  decode_next-partial header payload n h less =
      let e = encode_frame_with_header-lem codec header payload [] (omega arith) in
      rw e (frame-waits header payload n h (subst (λ f. n < length f) e less))

  parse-bound :
      (bytes : List ℕ) (n : ℕ)
      → parse_size_prefix {DecodeError = DecodeError} bytes ≡ ok n
      → n ≤ max_body_size
  unfolding parse_size_prefix
  parse-bound [] n e = absurd (ground arith)
  parse-bound (a ∷ []) n e = absurd (ground arith)
  parse-bound (a ∷ b ∷ []) n e = absurd (ground arith)
  parse-bound (a ∷ b ∷ c ∷ []) n e = absurd (ground arith)
  parse-bound (a ∷ b ∷ c ∷ d ∷ []) n e = absurd (ground arith)
  parse-bound (m ∷ a ∷ b ∷ c ∷ d ∷ rest) n e = ground arith

  parse-take :
      (bytes : List ℕ) (k : ℕ)
      → parse_size_prefix {DecodeError = DecodeError} (take (suc (suc (suc (suc (suc k))))) bytes)
        ≡ parse_size_prefix bytes
  unfolding parse_size_prefix
  parse-take [] k = refl
  parse-take (a ∷ []) k = refl
  parse-take (a ∷ b ∷ []) k = refl
  parse-take (a ∷ b ∷ c ∷ []) k = refl
  parse-take (a ∷ b ∷ c ∷ d ∷ []) k = refl
  parse-take (m ∷ a ∷ b ∷ c ∷ d ∷ rest) k = refl

  five_add : (n : ℕ) → 5 + n ≡ suc (suc (suc (suc (suc n))))
  five_add n = omega arith

  ok-injective : {E A : Type 0} {a b : A} → ◌≡◌ {A = Result E A} (ok a) (ok b) → a ≡ b
  ok-injective h = ground arith

  err-not_ok : {E A : Type 0} {e : E} {a : A} → ◌≡◌ {A = Result E A} (err e) (ok a) → ⊥
  err-not_ok h = ground arith

  decode_body-bytes :
      (total : ℕ) (f : List ℕ) (m : Result DecodeError (Header × ℕ)) (raw : RawTransmission Header)
      → decode_body codec total f m ≡ ok raw
      → raw.frame_bytes ≡ total
  decode_body-bytes total f (err e) raw h = absurd (ground arith)
  decode_body-bytes total f (ok (header, position)) raw h =
      ap (λ (r : RawTransmission Header). r.frame_bytes) (sym (ok-injective h))

  decode_sized-bytes :
      (f : List ℕ) (m : Result (FramingError DecodeError) ℕ) (n : ℕ) (raw : RawTransmission Header)
      → m ≡ ok n
      → decode_sized codec f m ≡ ok raw
      → raw.frame_bytes ≡ 5 + n
  decode_sized-bytes f (err x) n raw is h = absurd (ground arith)
  decode_sized-bytes f (ok k) n raw is h = elim (Bool-cases (ltb (length f) (5 + k))) [
    | inl short ↦ absurd (err-not_ok (rw short at h))
    | inr enough ↦
        decode_body-bytes (5 + k) f (codec.decode (drop 5 (take (5 + k) f))) raw (rw enough at h)
        ∙ ap (λ m. 5 + m) (ok-injective is)
  ]

  lift_raw-ok :
      (m : Result (FramingError DecodeError) (RawTransmission Header))
      (raw : RawTransmission Header)
      → lift_raw codec m ≡ ok (some raw)
      → m ≡ ok raw
  lift_raw-ok (ok r) raw h = ground arith
  lift_raw-ok (err e) raw h = absurd (ground arith)

  -- What a decoded frame took.
  split_frame-took :
      (src : List ℕ) (m : Result (FramingError DecodeError) ℕ) (raw : RawTransmission Header)
      (rest : List ℕ)
      → split_frame codec src m ≡ (ok (some raw), rest)
      → (n : ℕ) × (m ≡ ok n)
        × (5 + n ≤ length src)
        × (decode_raw codec (take (5 + n) src) ≡ ok raw)
        × (rest ≡ drop (5 + n) src)
  split_frame-took src (err (need_more_data a b)) raw rest h = absurd (ground arith)
  split_frame-took src (err (invalid_size_prefix a)) raw rest h = absurd (ground arith)
  split_frame-took src (err (body_too_large a)) raw rest h = absurd (ground arith)
  split_frame-took src (err (decode e)) raw rest h = absurd (ground arith)
  split_frame-took src (err header_missing_type_name) raw rest h = absurd (ground arith)
  split_frame-took src (err (unknown_type n)) raw rest h = absurd (ground arith)
  split_frame-took src (ok n) raw rest h = elim (Bool-cases (ltb (length src) (5 + n))) [
    | inl short ↦ absurd (ground (arith, rw short at h))
    | inr enough ↦
        let h' = rw enough at h in
        (
          n,
          refl,
          ground arith,
          lift_raw-ok (decode_raw codec (take (5 + n) src)) raw (ap (λ r. r.0) h'),
          sym (ap (λ r. r.1) h'),
        )
  ]

  -- A decoded frame is the head of the buffer: its length was there, is within the limit, and is what
  -- was taken; the decoder never loses or repeats a byte.
  pub decode_next-takes :
      (src rest : List ℕ) (raw : RawTransmission Header)
      → decode_next codec src ≡ (ok (some raw), rest)
      → (src ≡ take raw.frame_bytes src ++ rest)
        × (length src ≡ raw.frame_bytes + length rest)
        × (5 ≤ raw.frame_bytes)
        × (raw.frame_bytes ≤ 5 + max_body_size)
  unfolding decode_next decode_raw
  decode_next-takes src rest raw h =
      let (n, parsed, fits, decoded, left) =
        split_frame-took src (parse_size_prefix src) raw rest h in
      let parsed' : parse_size_prefix {DecodeError = DecodeError} (take (5 + n) src) ≡ ok n =
        rw (five_add n) (parse-take src n ∙ parsed) in
      let bytes : raw.frame_bytes ≡ 5 + n =
        decode_sized-bytes (take (5 + n) src) (parse_size_prefix (take (5 + n) src)) n raw parsed'
          decoded in
      let bound = parse-bound src n parsed in
      (
        rw (bytes, left) (sym (take_append_drop (5 + n) src)),
        rw (bytes, left) (omega (arith, length-drop (5 + n) src)),
        omega (arith, bytes),
        omega (arith, bytes, bound),
      )
