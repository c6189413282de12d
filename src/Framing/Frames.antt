-- ===== src/Framing/Frames.antt =====
-- What the receiving codec makes of what the encoder wrote, and of any other bytes.
use dots_rust.Prelude.{
  ℕ, ◌+◌, ◌^◌, ◌≤◌, ◌<◌, ◌≡◌, refl, sym, ap, ◌∙◌, List, [], ◌++◌, append_assoc, append-nil, length,
  length-append, take, drop, drop-append, take-length_append, drop-length_append, arith, ltb, some,
  false,
}
use dots_rust.Framing.{
  ok, err, HeaderCodec, parse_size_prefix, encode_frame_with_header, max_body_size, body_too_large,
  RawTransmission, decode_raw, decode_next, decode_sized, decode_body, split_frame, lift_raw,
  to_be_bytes,
}
use dots_rust.Framing.Bytes.{
  prefix, length-prefix, parse-prefix, parse-prefix_large, frame, body_of,
  encode_frame_with_header-lem,
}

-- The decoder reads back what the encoder wrote, whatever follows, and stops behind it.
abbrev pub RoundTrips : {Header DecodeError : Type 0} → HeaderCodec Header DecodeError → Type 0
RoundTrips {Header} codec =
    (header : Header) (rest : List ℕ)
    → codec.decode (codec.encode header ++ rest) ≡ ok (header, length (codec.encode header))

module _ {Header DecodeError : Type 0} (codec : HeaderCodec Header DecodeError) where
  abbrev pub sent : Header → List ℕ → RawTransmission Header
  sent header payload = record {
    header = header;
    payload = payload;
    frame_bytes = 5 + length (body_of codec header payload);
  }

  pub length-frame :
      (header : Header) (payload : List ℕ)
      → length (frame codec header payload) ≡ 5 + length (body_of codec header payload)
  unfolding frame
  length-frame header payload =
      length-prefix (length (body_of codec header payload)) (body_of codec header payload)

  decode_sized-exact :
      (f : List ℕ) (n : ℕ)
      → length f ≡ 5 + n
      → decode_sized codec f (ok n) ≡ decode_body codec (5 + n) f (codec.decode (drop 5 f))
  decode_sized-exact f n e =
      let all : take (5 + n) f ≡ f =
        ap (λ m. take m f) (sym e)
        ∙ ap (take (length f)) (sym (append-nil f))
        ∙ take-length_append f [] in
      let enough : ltb (length f) (5 + n) ≡ false = ground arith in rw (enough, all) refl

  split_frame-exact :
      (f rest : List ℕ) (n : ℕ)
      → length f ≡ 5 + n
      → split_frame codec (f ++ rest) (ok n) ≡ (lift_raw codec (decode_raw codec f), rest)
  split_frame-exact f rest n e =
      let enough : ltb (length (f ++ rest)) (5 + n) ≡ false =
        ground (arith, length-append f rest) in
      let head : take (5 + n) (f ++ rest) ≡ f =
        ap (λ m. take m (f ++ rest)) (sym e) ∙ take-length_append f rest in
      let tail : drop (5 + n) (f ++ rest) ≡ rest =
        ap (λ m. drop m (f ++ rest)) (sym e) ∙ drop-length_append f rest in
      rw (enough, head, tail) refl

  drop-frame :
      (header : Header) (payload : List ℕ) (n : ℕ)
      → drop (5 + n) (frame codec header payload) ≡ drop n (body_of codec header payload)
  unfolding frame prefix to_be_bytes
  drop-frame header payload n =
      drop-append (prefix (length (body_of codec header payload))) (body_of codec header payload) n

  decode_body-sent :
      (header : Header) (payload : List ℕ)
      → decode_body codec
          (5 + length (body_of codec header payload))
          (frame codec header payload)
          (ok (header, length (codec.encode header)))
        ≡ ok (sent header payload)
  decode_body-sent header payload =
      let n = length (body_of codec header payload) in
      let f = frame codec header payload in
      let all : take (5 + n) f ≡ f =
        ap (λ m. take m f) (sym (length-frame header payload))
        ∙ ap (take (length f)) (sym (append-nil f))
        ∙ take-length_append f [] in
      rw
        (
          all,
          drop-frame header payload (length (codec.encode header)),
          drop-length_append (codec.encode header) payload,
        )
        refl

  pub parse-frame :
      (header : Header) (payload rest : List ℕ)
      → length (body_of codec header payload) ≤ max_body_size
      → parse_size_prefix {DecodeError = DecodeError} (frame codec header payload ++ rest)
        ≡ ok (length (body_of codec header payload))
  unfolding frame
  parse-frame header payload rest h =
      let n = length (body_of codec header payload) in
      rw (append_assoc (prefix n) (body_of codec header payload) rest)
        (parse-prefix {E = DecodeError} n (body_of codec header payload ++ rest) h)

  parse-large :
      (header : Header) (payload rest : List ℕ)
      → max_body_size < length (body_of codec header payload)
      → length (body_of codec header payload) < 2 ^ 32
      → parse_size_prefix {DecodeError = DecodeError} (frame codec header payload ++ rest)
        ≡ err (body_too_large (length (body_of codec header payload)))
  unfolding frame
  parse-large header payload rest h w =
      let n = length (body_of codec header payload) in
      rw (append_assoc (prefix n) (body_of codec header payload) rest)
        (parse-prefix_large {E = DecodeError} n (body_of codec header payload ++ rest) h w)

  decode_raw-frame :
      (header : Header) (payload : List ℕ)
      → RoundTrips codec
      → length (body_of codec header payload) ≤ max_body_size
      → decode_raw codec (frame codec header payload) ≡ ok (sent header payload)
  unfolding decode_raw
  decode_raw-frame header payload trips h =
      let n = length (body_of codec header payload) in
      let f = frame codec header payload in
      ap (decode_sized codec f)
        (ap (λ m. parse_size_prefix m) (sym (append-nil f)) ∙ parse-frame header payload [] h)
      ∙ decode_sized-exact f n (length-frame header payload)
      ∙ ap (λ m. decode_body codec (5 + n) f (codec.decode m)) (drop-frame header payload 0)
      ∙ ap (decode_body codec (5 + n) f) (trips header payload)
      ∙ decode_body-sent header payload

  pub frame-decodes :
      (header : Header) (payload rest : List ℕ)
      → RoundTrips codec
      → length (body_of codec header payload) ≤ max_body_size
      → decode_next codec (frame codec header payload ++ rest)
        ≡ (ok (some (sent header payload)), rest)
  unfolding decode_next
  frame-decodes header payload rest trips h =
      let n = length (body_of codec header payload) in
      let f = frame codec header payload in
      ap (split_frame codec (f ++ rest)) (parse-frame header payload rest h)
      ∙ split_frame-exact f rest n (length-frame header payload)
      ∙ ap (λ m. (lift_raw codec m, rest)) (decode_raw-frame header payload trips h)

  -- A frame that the encoder wrote is the next thing decoded, with its header, its payload bytes and
  -- its length, and the decoder leaves exactly what followed it, if the body is within the limit and
  -- the header codec reads back what it writes.
  pub decode_next-encode_frame :
      (header : Header) (payload rest : List ℕ)
      → RoundTrips codec
      → length (body_of codec header payload) ≤ max_body_size
      → decode_next codec (encode_frame_with_header codec header payload [] ++ rest)
        ≡ (ok (some (sent header payload)), rest)
  decode_next-encode_frame header payload rest trips h =
      ap (λ f. decode_next codec (f ++ rest))
        (encode_frame_with_header-lem codec header payload [] (omega arith))
      ∙ frame-decodes header payload rest trips h

  -- A frame whose body is over the limit and below 2^32 bytes is refused as too large, before its body is looked at, and
  -- nothing is taken from the buffer.
  pub decode_next-large_frame :
      (header : Header) (payload rest : List ℕ)
      → max_body_size < length (body_of codec header payload)
      → length (body_of codec header payload) < 2 ^ 32
      → let src = encode_frame_with_header codec header payload [] ++ rest in
        decode_next codec src ≡ (err (body_too_large (length (body_of codec header payload))), src)
  unfolding decode_next
  decode_next-large_frame header payload rest h w =
      let src = encode_frame_with_header codec header payload [] ++ rest in
      let e : parse_size_prefix {DecodeError = DecodeError} src
          ≡ err (body_too_large (length (body_of codec header payload))) =
        ap (λ f. parse_size_prefix (f ++ rest))
          (encode_frame_with_header-lem codec header payload [] w)
        ∙ parse-large header payload rest h w in
      ap (split_frame codec src) e
