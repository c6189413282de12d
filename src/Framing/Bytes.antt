-- ===== src/Framing/Bytes.antt =====
-- The size prefix: what is written, and how it reads back.
use dots_rust.Prelude.{
  ℕ, ◌+◌, ◌-◌, ◌/◌, ◌%◌, ◌^◌, ◌≤◌, ◌<◌, ◌≡◌, List, [], ◌∷◌, ◌++◌, append_assoc, length,
  length-append, take-append, drop-append, arith,
}
use dots_rust.Framing.{
  ok, err, HeaderCodec, to_be_bytes, from_be_bytes, patch_size_prefix, parse_size_prefix,
  encode_frame_with_header, size_prefix_marker, max_body_size, body_too_large,
}

from_be_bytes-to_be_bytes :
    (n : ℕ)
    → n < 2 ^ 32
    → from_be_bytes (n / 2 ^ 24 % 256) (n / 2 ^ 16 % 256) (n / 2 ^ 8 % 256) (n % 256) ≡ n
unfolding from_be_bytes
from_be_bytes-to_be_bytes n h = omega arith

-- The prefix of a body.
unfoldable pub prefix : ℕ → List ℕ
prefix size = size_prefix_marker ∷ to_be_bytes size

patch_size_prefix-lem :
    (out body : List ℕ) (a b c d : ℕ)
    → length body < 2 ^ 32
    → patch_size_prefix (out ++ ((size_prefix_marker ∷ a ∷ b ∷ c ∷ d ∷ []) ++ body)) (length out)
      ≡ out ++ (prefix (length body) ++ body)
unfolding patch_size_prefix prefix
patch_size_prefix-lem out body a b c d h =
    let rest : List ℕ = size_prefix_marker ∷ a ∷ b ∷ c ∷ d ∷ body in
    let size : (length (out ++ rest) - length out - 5) % 2 ^ 32 ≡ length body =
      omega (arith, length-append out rest) in
    rw (size, take-append out rest 1, drop-append out rest 5)
      (append_assoc out (size_prefix_marker ∷ []) (to_be_bytes (length body) ++ body))

pub length-prefix : (n : ℕ) (body : List ℕ) → length (prefix n ++ body) ≡ 5 + length body
unfolding prefix to_be_bytes
length-prefix n body = omega arith

pub parse-prefix :
    {E : Type 0} (n : ℕ) (body : List ℕ)
    → n ≤ max_body_size
    → parse_size_prefix {DecodeError = E} (prefix n ++ body) ≡ ok n
unfolding parse_size_prefix prefix to_be_bytes
parse-prefix n body h = rw (from_be_bytes-to_be_bytes n (omega arith)) (ground arith)

pub parse-prefix_large :
    {E : Type 0} (n : ℕ) (body : List ℕ)
    → max_body_size < n
    → n < 2 ^ 32
    → parse_size_prefix {DecodeError = E} (prefix n ++ body) ≡ err (body_too_large n)
unfolding parse_size_prefix prefix to_be_bytes
parse-prefix_large n body h w = rw (from_be_bytes-to_be_bytes n w) (ground arith)

module _ {Header DecodeError : Type 0} (codec : HeaderCodec Header DecodeError) where
  abbrev pub body_of : Header → List ℕ → List ℕ
  body_of header payload = codec.encode header ++ payload

  -- A frame on its own.
  unfoldable pub frame : Header → List ℕ → List ℕ
  frame header payload = prefix (length (body_of header payload)) ++ body_of header payload

  pub encode_frame_with_header-lem :
      (header : Header) (payload out : List ℕ)
      → length (body_of header payload) < 2 ^ 32
      → encode_frame_with_header codec header payload out ≡ out ++ frame header payload
  unfolding encode_frame_with_header frame
  encode_frame_with_header-lem header payload out h =
      patch_size_prefix-lem out (body_of header payload) 0 0 0 0 h
