-- ===== src/Framing/Examples.antt =====
-- The theorems on frames at concrete inputs, and runs.
use dots_rust.Prelude.{
  ℕ, zero, suc, ◌+◌, ◌≤◌, ◌<◌, ◌≡◌, refl, List, [], ◌∷◌, ◌++◌, length, take, map, arith, some,
}
use dots_rust.Framing.{
  Result, ok, err, HeaderCodec, encode_frame_with_header, patch_size_prefix, to_be_bytes,
  max_body_size, body_too_large, decode_next, decode_raw, parse_size_prefix, from_be_bytes,
}
use dots_rust.Framing.Bytes.{body_of}
use dots_rust.Framing.Frames.{RoundTrips, sent, decode_next-encode_frame, decode_next-large_frame}
use dots_rust.Framing.Stream.{decode_next-takes}
use dots_rust.Framing.Batch.{Yields, encode_batch, sent_item, encode_batch-Yields}

abbrev read_byte : List ℕ → Result (Unit {0}) (ℕ × ℕ)
read_byte [] = err tt
read_byte (b ∷ bytes) = ok (b, 1)

-- Headers that are a byte.
abbrev one_byte : HeaderCodec ℕ (Unit {0})
one_byte = record { encode = λ h. h ∷ []; decode = read_byte }

one_byte-RoundTrips : RoundTrips one_byte
one_byte-RoundTrips header rest = refl

abbrev ping : List ℕ
ping = 26 ∷ 0 ∷ 0 ∷ 0 ∷ 3 ∷ 9 ∷ 70 ∷ 71 ∷ []

encoded : encode_frame_with_header one_byte 9 (70 ∷ 71 ∷ []) [] ≡ ping
unfolding encode_frame_with_header patch_size_prefix to_be_bytes
encoded = refl

decoded :
    decode_next one_byte (ping ++ 26 ∷ []) ≡ (ok (some (sent one_byte 9 (70 ∷ 71 ∷ []))), 26 ∷ [])
unfolding decode_next decode_raw parse_size_prefix from_be_bytes
decoded = refl

decode_next-encode_frame_example :
    decode_next one_byte (encode_frame_with_header one_byte 9 (70 ∷ 71 ∷ []) [] ++ 26 ∷ [])
    ≡ (ok (some (sent one_byte 9 (70 ∷ 71 ∷ []))), 26 ∷ [])
decode_next-encode_frame_example =
    decode_next-encode_frame one_byte 9 (70 ∷ 71 ∷ []) (26 ∷ []) one_byte-RoundTrips (omega arith)

zeros : ℕ → List ℕ
zeros zero = []
zeros (suc n) = 0 ∷ zeros n

length-zeros : (n : ℕ) → length (zeros n) ≡ n
unfolding zeros
length-zeros zero = refl
length-zeros (suc n) = omega (arith, length-zeros n)

decode_next-large_frame_example :
    let payload = zeros 10485760 in
    let src = encode_frame_with_header one_byte 9 payload [] ++ [] in
    decode_next one_byte src ≡ (err (body_too_large (length (body_of one_byte 9 payload))), src)
decode_next-large_frame_example =
    decode_next-large_frame one_byte 9 (zeros 10485760) [] (omega (arith, length-zeros 10485760))
      (omega (arith, length-zeros 10485760))

ping_is_longer : 6 < length (encode_frame_with_header one_byte 9 (70 ∷ 71 ∷ []) [])
unfolding encode_frame_with_header patch_size_prefix to_be_bytes
ping_is_longer = omega arith

decode_next-takes_example :
    (ping ++ 26 ∷ [] ≡ take 8 (ping ++ 26 ∷ []) ++ 26 ∷ [])
    × (length (ping ++ 26 ∷ []) ≡ 8 + length {A = ℕ} (26 ∷ []))
    × (5 ≤ 8)
    × (8 ≤ 5 + max_body_size)
decode_next-takes_example =
    decode_next-takes one_byte (ping ++ 26 ∷ []) (26 ∷ []) (sent one_byte 9 (70 ∷ 71 ∷ [])) decoded

encode_batch-Yields_example :
    let tail = take 6 (encode_frame_with_header one_byte 9 (70 ∷ 71 ∷ []) []) in
    Yields one_byte
      (encode_batch one_byte ((1, 5 ∷ []) ∷ (2, []) ∷ []) [] ++ tail)
      (map (sent_item one_byte) ((1, 5 ∷ []) ∷ (2, []) ∷ []))
      tail
encode_batch-Yields_example =
    encode_batch-Yields one_byte ((1, 5 ∷ []) ∷ (2, []) ∷ []) 9 (70 ∷ 71 ∷ []) 6 one_byte-RoundTrips
      (omega arith, (omega arith, tt)) (omega arith) ping_is_longer
