-- ===== src/Protocol/Framing.antt =====
-- crates/protocol/src/framing.rs: frames of the protocol. A buffer is the list of its bytes; a
-- function that takes from it answers what is left with its result. The field `len` of an error
-- is the 32 bits of the `i32`. `encode_*` is `none` where `length_field` panics.
pub mod Roundtrip
use pg_steward.Base.{
  ℕ, zero, suc, ◌+◌, ◌-◌, ◌≤◌, ◌<◌, Bool, true, false, Option, none, some, List, [], ◌∷◌, ◌++◌,
  if◌then◌else◌, ltb, leb, length, Result, err, ok, to_be_bytes, from_be_bytes, take, drop,
}

abbrev pub header_len : ℕ
header_len = 5

abbrev pub length_field_len : ℕ
length_field_len = 4

abbrev pub startup_code_len : ℕ
startup_code_len = 4

pub record Frame : Type 0 where
  pub tag : ℕ
  pub body : List ℕ

pub data FrameError : Type 0 where
  invalid_length : ℕ → FrameError
  too_large : ℕ → ℕ → FrameError

abbrev pub length_field : ℕ → Option ℕ
length_field body_len =
    if ltb (body_len + length_field_len) 2147483648
    then some (body_len + length_field_len)
    else none

unfoldable pub encode_frame : ℕ → List ℕ → List ℕ → Option (List ℕ)
encode_frame tag body out = elim (length_field (length body)) [
  | none ↦ none
  | some len ↦ some (out ++ (tag ∷ to_be_bytes len ++ body))
]

unfoldable pub encode_startup_frame : List ℕ → List ℕ → Option (List ℕ)
encode_startup_frame body out = elim (length_field (length body)) [
  | none ↦ none
  | some len ↦ some (out ++ (to_be_bytes len ++ body))
]

-- A word of 2 ^ 31 or more is a negative `i32`, which `usize::try_from` refuses.
unfoldable pub body_len_from_header : ℕ → ℕ → ℕ → Result FrameError ℕ
body_len_from_header len min_len max_len =
    if leb 2147483648 len
    then err (invalid_length len)
    else if ltb len min_len
    then err (invalid_length len)
    else if ltb max_len len
    then err (too_large len max_len)
    else ok (len - length_field_len)

abbrev pub FrameResult : Type 0
FrameResult = List ℕ × Result FrameError (Option Frame)

unfoldable pub decode_frame : List ℕ → ℕ → FrameResult
decode_frame (tag ∷ a ∷ b ∷ c ∷ d ∷ after) max_len =
    elim (body_len_from_header (from_be_bytes a b c d) length_field_len max_len) [
      | err e ↦ (tag ∷ a ∷ b ∷ c ∷ d ∷ after, err e)
      | ok body_len ↦
          if ltb (length after) body_len
          then (tag ∷ a ∷ b ∷ c ∷ d ∷ after, ok none)
          else (drop body_len after, ok (some record { tag = tag; body = take body_len after }))
    ]
decode_frame buf max_len = (buf, ok none)

abbrev pub BodyResult : Type 0
BodyResult = List ℕ × Result FrameError (Option (List ℕ))

unfoldable pub decode_startup_frame : List ℕ → ℕ → BodyResult
decode_startup_frame (a ∷ b ∷ c ∷ d ∷ after) max_len =
    elim (body_len_from_header (from_be_bytes a b c d) (length_field_len + startup_code_len)
      max_len) [
        | err e ↦ (a ∷ b ∷ c ∷ d ∷ after, err e)
        | ok body_len ↦
            if ltb (length after) body_len
            then (a ∷ b ∷ c ∷ d ∷ after, ok none)
            else (drop body_len after, ok (some (take body_len after)))
      ]
decode_startup_frame buf max_len = (buf, ok none)
