-- ===== src/Protocol/Framing/Roundtrip.antt =====
-- Encoding and decoding frames (crates/protocol/src/framing.rs) undo each other, and decoding a
-- stream does not depend on how its bytes arrive.
use pg_steward.Base.{
  ℕ, ◌+◌, ◌-◌, ◌/◌, ◌%◌, ◌≤◌, ◌<◌, ◌≡◌, refl, sym, ap, ◌∙◌, subst, false, none, some, List, [], ◌∷◌,
  ◌++◌, ltb, arith, length, length-append, ok, to_be_bytes, from_be_bytes,
  from_be_bytes-to_be_bytes, to_be_bytes-from_be_bytes, take, drop, take-append, drop-append,
  take-more, drop-more, take-drop, length-take, Bool-cases, Result-cases, inl, inr, All,
}
use pg_steward.Protocol.Framing.{
  Frame, length_field, length_field_len, encode_frame, body_len_from_header, decode_frame,
}

header_lem :
    (len min_len max_len : ℕ)
    → len < 2147483648
    → min_len ≤ len
    → len ≤ max_len
    → body_len_from_header len min_len max_len ≡ ok (len - length_field_len)
unfolding body_len_from_header
header_lem len min_len max_len a b c = ground arith

-- The bytes of a frame, header first.
abbrev wire : ℕ → List ℕ → List ℕ
wire tag body = tag ∷ to_be_bytes (length body + 4) ++ body

length_field_lem : (n : ℕ) → n + 4 < 2147483648 → length_field n ≡ some (n + 4)
length_field_lem n h = ground arith

encode_frame-wire :
    (tag : ℕ) (body out : List ℕ)
    → length body + 4 < 2147483648
    → encode_frame tag body out ≡ some (out ++ wire tag body)
unfolding encode_frame
encode_frame-wire tag body out h =
    ap (λ x. elim x [ none ↦ none | some len ↦ some (out ++ (tag ∷ to_be_bytes len ++ body)) ])
      (length_field_lem (length body) h)

-- A frame whose bytes are all there.
decode_frame_whole :
    (tag a b c d : ℕ) (after : List ℕ) (n max_len : ℕ)
    → body_len_from_header (from_be_bytes a b c d) length_field_len max_len ≡ ok n
    → n ≤ length after
    → decode_frame (tag ∷ a ∷ b ∷ c ∷ d ∷ after) max_len
      ≡ (drop n after, ok (some record { tag = tag; body = take n after }))
unfolding decode_frame
decode_frame_whole tag a b c d after n max_len e h =
    let fits : ltb (length after) n ≡ false = ground arith in rw (e, fits, decode_frame) refl

header-wire :
    (n min_len max_len : ℕ)
    → n < 2147483648
    → min_len ≤ n
    → n ≤ max_len
    → body_len_from_header
        (from_be_bytes (n / 16777216 % 256) (n / 65536 % 256) (n / 256 % 256) (n % 256))
        min_len
        max_len
      ≡ ok (n - length_field_len)
header-wire n min_len max_len h l m =
    subst (λ w. body_len_from_header w min_len max_len ≡ ok (n - length_field_len))
      (sym (from_be_bytes-to_be_bytes n (omega arith))) (header_lem n min_len max_len h l m)

decode_frame-wire :
    (tag : ℕ) (body rest : List ℕ) (max_len : ℕ)
    → length body + 4 < 2147483648
    → length body + 4 ≤ max_len
    → decode_frame (wire tag body ++ rest) max_len
      ≡ (rest, ok (some record { tag = tag; body = body }))
decode_frame-wire tag body rest max_len h m =
    let n = length body + 4 in
    let len : n - 4 ≡ length body = omega arith in
    decode_frame_whole tag (n / 16777216 % 256) (n / 65536 % 256) (n / 256 % 256) (n % 256)
      (body ++ rest) (length body) max_len (header-wire n 4 max_len h (omega arith) m ∙ ap ok len)
      (omega (arith, length-append body rest))
    ∙ rw (take-append body rest, drop-append body rest) refl

-- Any frame whose length field fits an `i32` and the limit is encoded, and decoding its bytes with
-- any others after them answers that frame and leaves exactly those others.
pub decode_frame-encode_frame :
    (tag : ℕ) (body rest : List ℕ) (max_len : ℕ)
    → length body + 4 < 2147483648
    → length body + 4 ≤ max_len
    → (bytes : List ℕ) × (encode_frame tag body [] ≡ some bytes)
      × (decode_frame (bytes ++ rest) max_len ≡ (rest, ok (some record { tag = tag; body = body })))
decode_frame-encode_frame tag body rest max_len h m =
    (wire tag body, encode_frame-wire tag body [] h, decode_frame-wire tag body rest max_len h m)

-- A frame decoded from a buffer is decoded from it with more bytes behind it too, and those bytes
-- stay behind what is left.
pub decode_frame-append :
    (buf more left : List ℕ) (max_len : ℕ) (f : Frame)
    → decode_frame buf max_len ≡ (left, ok (some f))
    → decode_frame (buf ++ more) max_len ≡ (left ++ more, ok (some f))
unfolding decode_frame
decode_frame-append (tag ∷ a ∷ b ∷ c ∷ d ∷ after) more left max_len f e =
    elim (Result-cases (body_len_from_header (from_be_bytes a b c d) length_field_len max_len)) [
      | inl (x, h) ↦ ground arith
      | inr (n, h) ↦ elim (Bool-cases (ltb (length after) n)) [
        | inl few ↦ ground arith
        | inr enough ↦
            let fits : n ≤ length after = ground arith in
            decode_frame_whole tag a b c d (after ++ more) n max_len h
              (omega (arith, length-append after more))
            ∙ ground (arith, drop-more n after more fits, take-more n after more fits)
      ]
    ]
decode_frame-append [] more left max_len f e = ground arith
decode_frame-append (_ ∷ []) more left max_len f e = ground arith
decode_frame-append (_ ∷ _ ∷ []) more left max_len f e = ground arith
decode_frame-append (_ ∷ _ ∷ _ ∷ []) more left max_len f e = ground arith
decode_frame-append (_ ∷ _ ∷ _ ∷ _ ∷ []) more left max_len f e = ground arith

body_len_from_header_lem :
    (len min_len max_len n : ℕ)
    → body_len_from_header len min_len max_len ≡ ok n
    → (len < 2147483648) × (min_len ≤ len) × (len ≤ max_len) × (n ≡ len - 4)
unfolding body_len_from_header
body_len_from_header_lem len min_len max_len n e = ground arith

-- The bytes of a header and the body after it are the wire form of the frame.
wire-take :
    (tag a b c d : ℕ) (after : List ℕ) (n max_len : ℕ)
    → a < 256
    → b < 256
    → c < 256
    → d < 256
    → body_len_from_header (from_be_bytes a b c d) length_field_len max_len ≡ ok n
    → n ≤ length after
    → (n + 4 < 2147483648) × (wire tag (take n after) ++ drop n after ≡ tag ∷ a ∷ b ∷ c ∷ d ∷ after)
wire-take tag a b c d after n max_len ha hb hc hd h fits =
    let (small, low, high, size) = body_len_from_header_lem (from_be_bytes a b c d) 4 max_len n h in
    let (ea, eb, ec, ed) = to_be_bytes-from_be_bytes a b c d ha hb hc hd in
    let len : length (take n after) + 4 ≡ from_be_bytes a b c d =
      omega (arith, length-take n after fits) in
    (omega arith, rw (len, ea, eb, ec, ed, take-drop n after) refl)

-- Decoding a buffer of bytes takes from its front the very bytes that encode the frame it answers.
pub encode_frame-decode_frame :
    (buf left : List ℕ) (max_len : ℕ) (f : Frame)
    → All (λ b. b < 256) buf
    → decode_frame buf max_len ≡ (left, ok (some f))
    → (bytes : List ℕ) × (encode_frame f.tag f.body [] ≡ some bytes) × (bytes ++ left ≡ buf)
unfolding decode_frame
encode_frame-decode_frame (tag ∷ a ∷ b ∷ c ∷ d ∷ after) left max_len f
      (_, (ha, (hb, (hc, (hd, _))))) e =
    elim (Result-cases (body_len_from_header (from_be_bytes a b c d) length_field_len max_len)) [
      | inl (x, h) ↦ ground arith
      | inr (n, h) ↦ elim (Bool-cases (ltb (length after) n)) [
        | inl few ↦ ground arith
        | inr enough ↦
            let fits : n ≤ length after = ground arith in
            let (small, whole) = wire-take tag a b c d after n max_len ha hb hc hd h fits in
            let got : (f.tag ≡ tag) × (f.body ≡ take n after) × (left ≡ drop n after) =
              ground arith in
            (
              wire f.tag f.body,
              encode_frame-wire f.tag f.body [] (ground (arith, length-take n after fits)),
              rw (got.0, got.1, got.2, whole) refl,
            )
      ]
    ]
encode_frame-decode_frame [] left max_len f _ e = ground arith
encode_frame-decode_frame (_ ∷ []) left max_len f _ e = ground arith
encode_frame-decode_frame (_ ∷ _ ∷ []) left max_len f _ e = ground arith
encode_frame-decode_frame (_ ∷ _ ∷ _ ∷ []) left max_len f _ e = ground arith
encode_frame-decode_frame (_ ∷ _ ∷ _ ∷ _ ∷ []) left max_len f _ e = ground arith
