-- ===== src/Framing/Batch.antt =====
-- A buffer that several frames were written to, one after the other, and the receiver's calls on it.
use dots_rust.Prelude.{
  ℕ, ◌≤◌, ◌<◌, ◌≡◌, sym, ap, ◌∙◌, List, [], ◌∷◌, ◌++◌, append_assoc, append-nil, length, arith,
  none, some, All, map, take,
}
use dots_rust.Framing.{
  ok, HeaderCodec, encode_frame_with_header, max_body_size, RawTransmission, decode_next,
}
use dots_rust.Framing.Bytes.{frame, body_of, encode_frame_with_header-lem}
use dots_rust.Framing.Frames.{RoundTrips, sent, frame-decodes}
use dots_rust.Framing.Stream.{decode_next-partial}

module _ {Header DecodeError : Type 0} (codec : HeaderCodec Header DecodeError) where
  -- The receiver calls the decoder until it waits: what it got, and what is left in the buffer.
  pub data Yields : List ℕ → List (RawTransmission Header) → List ℕ → Type 0 where
    waits : (src : List ℕ) → decode_next codec src ≡ (ok none, src) → Yields src [] src
    yields :
        (src next rest : List ℕ) (raw : RawTransmission Header)
        (raws : List (RawTransmission Header))
        → decode_next codec src ≡ (ok (some raw), next)
        → Yields next raws rest
        → Yields src (raw ∷ raws) rest

  -- The frames of the items appended to `out`, with the encoder that appends one.
  unfoldable pub encode_batch : List (Header × List ℕ) → List ℕ → List ℕ
  encode_batch [] out = out
  encode_batch ((header, payload) ∷ items) out =
      encode_batch items (encode_frame_with_header codec header payload out)

  abbrev pub sent_item : Header × List ℕ → RawTransmission Header
  sent_item item = sent codec item.0 item.1

  abbrev pub Fits : Header × List ℕ → Type 0
  Fits item = length (body_of codec item.0 item.1) ≤ max_body_size

  frames : List (Header × List ℕ) → List ℕ
  frames [] = []
  frames (item ∷ items) = frame codec item.0 item.1 ++ frames items

  encode_batch-frames :
      (items : List (Header × List ℕ)) (out : List ℕ)
      → All Fits items
      → encode_batch items out ≡ out ++ frames items
  unfolding encode_batch frames
  encode_batch-frames [] out h = sym (append-nil out)
  encode_batch-frames ((header, payload) ∷ items) out (fits, h) =
      ap (λ o. encode_batch items o)
        (encode_frame_with_header-lem codec header payload out (omega arith))
      ∙ encode_batch-frames items (out ++ frame codec header payload) h
      ∙ append_assoc out (frame codec header payload) (frames items)

  frames-Yields :
      (items : List (Header × List ℕ)) (tail : List ℕ)
      → RoundTrips codec
      → All Fits items
      → decode_next codec tail ≡ (ok none, tail)
      → Yields (frames items ++ tail) (map sent_item items) tail
  unfolding frames
  frames-Yields [] tail trips h e = waits tail e
  frames-Yields ((header, payload) ∷ items) tail trips (fits, h) e =
      let rest = frames items ++ tail in
      yields ((frame codec header payload ++ frames items) ++ tail) rest tail
        (sent codec header payload) (map sent_item items)
        (ap (decode_next codec) (append_assoc (frame codec header payload) (frames items) tail)
          ∙ frame-decodes codec header payload rest trips fits)
        (frames-Yields items tail trips h e)

  -- However many frames are in the buffer, with a part of another one behind them, the receiver gets
  -- them all, whole and in the order in which they were written, and then waits with that part in the
  -- buffer, if every body is within the limit and the header codec reads back what it writes.
  pub encode_batch-Yields :
      (items : List (Header × List ℕ)) (header : Header) (payload : List ℕ) (n : ℕ)
      → RoundTrips codec
      → All Fits items
      → length (body_of codec header payload) ≤ max_body_size
      → n < length (encode_frame_with_header codec header payload [])
      → let tail = take n (encode_frame_with_header codec header payload []) in
        Yields (encode_batch items [] ++ tail) (map sent_item items) tail
  encode_batch-Yields items header payload n trips h fits less =
      let tail = take n (encode_frame_with_header codec header payload []) in
      rw (encode_batch-frames items [] h)
        (frames-Yields items tail trips h (decode_next-partial codec header payload n fits less))
