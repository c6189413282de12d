-- ===== src/Framing.antt =====
-- The frames of crates/dots-rs-model/src/framing.rs and the receiving codec of
-- crates/dots-rs-transport/src/codec.rs. Bytes are numbers below 256; a buffer is a list. The CBOR
-- encoding of the header is an interface, `HeaderCodec`.
use dots_rust.Prelude.{
  ℕ, ◌+◌, ◌-◌, ◌*◌, ◌/◌, ◌%◌, ◌^◌, String, List, [], ◌∷◌, ◌++◌, length, take, drop, Option, none,
  some, ltb, ◌==◌, if◌then◌else◌,
}
use dots_rust.PropertySet.{PropertySet}
pub mod Bytes
pub mod Frames
pub mod Stream
pub mod Batch
mod Examples

abbrev pub size_prefix_len : ℕ
size_prefix_len = 5

abbrev pub max_body_size : ℕ
max_body_size = 10485760

-- `0x1A`
abbrev pub size_prefix_marker : ℕ
size_prefix_marker = 26

pub data FramingError (DecodeError : Type 0) : Type 0 where
  need_more_data : ℕ → ℕ → FramingError DecodeError
  invalid_size_prefix body_too_large : ℕ → FramingError DecodeError
  decode : DecodeError → FramingError DecodeError
  header_missing_type_name : FramingError DecodeError
  unknown_type : String → FramingError DecodeError

pub data Result (E A : Type 0) : Type 0 where
  ok : A → Result E A
  err : E → Result E A

-- `encode_into_vec` of a header, and `decode_typed_from_decoder`, which also tells the decoder's position.
pub record HeaderCodec (Header DecodeError : Type 0) : Type 0 where
  pub encode : Header → List ℕ
  pub decode : List ℕ → Result DecodeError (Header × ℕ)

unfoldable pub to_be_bytes : ℕ → List ℕ
to_be_bytes n = n / 2 ^ 24 % 256 ∷ n / 2 ^ 16 % 256 ∷ n / 2 ^ 8 % 256 ∷ n % 256 ∷ []

unfoldable pub from_be_bytes : ℕ → ℕ → ℕ → ℕ → ℕ
from_be_bytes a b c d = ((a * 256 + b) * 256 + c) * 256 + d

-- The four bytes behind the marker are overwritten.
unfoldable pub patch_size_prefix : List ℕ → ℕ → List ℕ
unfolding to_be_bytes
patch_size_prefix buf frame_start =
    let body_size = (length buf - frame_start - size_prefix_len) % 2 ^ 32 in
    take (frame_start + 1) buf
    ++ (to_be_bytes body_size ++ drop (frame_start + size_prefix_len) buf)

module _ {DecodeError : Type 0} where
  abbrev pub checked_size : ℕ → Result (FramingError DecodeError) ℕ
  checked_size size = if ltb max_body_size size then err (body_too_large size) else ok size

  unfoldable pub parse_size_prefix : List ℕ → Result (FramingError DecodeError) ℕ
  unfolding from_be_bytes
  parse_size_prefix (marker ∷ a ∷ b ∷ c ∷ d ∷ rest) =
      if marker == size_prefix_marker
      then checked_size (from_be_bytes a b c d)
      else err (invalid_size_prefix marker)
  parse_size_prefix bytes = err (need_more_data (length bytes) size_prefix_len)

module _ {Header DecodeError : Type 0} (codec : HeaderCodec Header DecodeError) where
  unfoldable pub encode_frame_with_header : Header → List ℕ → List ℕ → List ℕ
  unfolding patch_size_prefix
  encode_frame_with_header header payload_bytes out =
      patch_size_prefix
        (out
          ++ ((size_prefix_marker ∷ 0 ∷ 0 ∷ 0 ∷ 0 ∷ []) ++ (codec.encode header ++ payload_bytes)))
        (length out)

  -- `payload` is `encode_into` of the transmittable value, which takes the mask.
  unfoldable pub encode_transmission_with_mask_into :
      Header → (PropertySet → List ℕ) → PropertySet → List ℕ → List ℕ
  unfolding patch_size_prefix
  encode_transmission_with_mask_into header payload mask out =
      patch_size_prefix
        (out
          ++ ((size_prefix_marker ∷ 0 ∷ 0 ∷ 0 ∷ 0 ∷ []) ++ (codec.encode header ++ payload mask)))
        (length out)

pub record RawTransmission (Header : Type 0) : Type 0 where
  pub header : Header
  pub payload : List ℕ
  pub frame_bytes : ℕ

module _ {Header DecodeError : Type 0} (codec : HeaderCodec Header DecodeError) where
  -- The body is the bytes of the frame behind the prefix.
  abbrev pub decode_body :
      ℕ
      → List ℕ
      → Result DecodeError (Header × ℕ)
      → Result (FramingError DecodeError) (RawTransmission Header)
  decode_body total frame (err e) = err (decode e)
  decode_body total frame (ok (header, position)) = ok (record {
    header = header;
    payload = drop (size_prefix_len + position) (take total frame);
    frame_bytes = total;
  })

  abbrev pub decode_sized :
      List ℕ
      → Result (FramingError DecodeError) ℕ
      → Result (FramingError DecodeError) (RawTransmission Header)
  decode_sized frame (err e) = err e
  decode_sized frame (ok body_size) =
      let total = size_prefix_len + body_size in
      if ltb (length frame) total
      then err (need_more_data (length frame) total)
      else decode_body total frame (codec.decode (drop size_prefix_len (take total frame)))

  -- `RawTransmission::decode`
  unfoldable pub decode_raw : List ℕ → Result (FramingError DecodeError) (RawTransmission Header)
  unfolding parse_size_prefix
  decode_raw frame = decode_sized frame (parse_size_prefix frame)

  abbrev pub lift_raw :
      Result (FramingError DecodeError) (RawTransmission Header)
      → Result (FramingError DecodeError) (Option (RawTransmission Header))
  lift_raw (ok raw) = ok (some raw)
  lift_raw (err e) = err e

  abbrev pub split_frame :
      List ℕ
      → Result (FramingError DecodeError) ℕ
      → Result (FramingError DecodeError) (Option (RawTransmission Header)) × List ℕ
  split_frame src (err (need_more_data have need)) = (ok none, src)
  split_frame src (err other) = (err other, src)
  split_frame src (ok body_size) =
      let total = size_prefix_len + body_size in
      if ltb (length src) total
      then (ok none, src)
      else (lift_raw (decode_raw (take total src)), drop total src)

  -- `RawTransmissionCodec::decode`, with what it leaves in the buffer.
  unfoldable pub decode_next :
      List ℕ → Result (FramingError DecodeError) (Option (RawTransmission Header)) × List ℕ
  decode_next src = split_frame src (parse_size_prefix src)
