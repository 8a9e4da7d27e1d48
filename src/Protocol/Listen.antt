-- ===== src/Protocol/Listen.antt =====
-- crates/protocol/src/listen.rs: whether a text of SQL registers a listener. A cursor into the text is
-- the bytes before it, the nearest first, and the bytes from it on; the functions that find the end of
-- something count the bytes up to there.
pub mod Scan
pub mod Tokens
pub mod Statements
use pg_steward.Base.{
  ℕ, zero, suc, ◌+◌, ◌-◌, ◌≤◌, Bool, true, false, not, ◌&&◌, ◌||◌, Option, none, some, List, [],
  ◌∷◌, ◌++◌, map, if◌then◌else◌, ltb, leb, ◌==◌, length, get_elem?, take, drop, get_or,
}

abbrev pub is_upper : ℕ → Bool
is_upper b = leb 65 b && leb b 90

abbrev pub is_letter : ℕ → Bool
is_letter b = is_upper b || leb 97 b && leb b 122

abbrev pub is_digit : ℕ → Bool
is_digit b = leb 48 b && leb b 57

abbrev pub is_space : ℕ → Bool
is_space b = b == 32 || b == 9 || b == 10 || b == 12 || b == 13

abbrev pub is_word : ℕ → Bool
is_word b = is_letter b || is_digit b || b == 95 || b == 36 || leb 128 b

abbrev pub is_tag : ℕ → Bool → Bool
is_tag b first = b == 95 || leb 128 b || is_letter b || not first && is_digit b

-- `eq_ignore_ascii_case`.
abbrev pub to_lower : ℕ → ℕ
to_lower b = if is_upper b then b + 32 else b

abbrev pub equal_bytes : List ℕ → List ℕ → Bool
equal_bytes [] [] = true
equal_bytes [] (_ ∷ _) = false
equal_bytes (_ ∷ _) [] = false
equal_bytes (a ∷ as_) (b ∷ bs) = a == b && equal_bytes as_ bs

abbrev pub listen : List ℕ
listen = 108 ∷ 105 ∷ 115 ∷ 116 ∷ 101 ∷ 110 ∷ []

abbrev pub is_listen : List ℕ → Bool
is_listen word = equal_bytes (map to_lower word) listen

unfoldable pub word_len : List ℕ → ℕ
word_len [] = 0
word_len (b ∷ bs) = if is_word b then 1 + word_len bs else 0

unfoldable pub line_comment_len : List ℕ → ℕ
line_comment_len [] = 0
line_comment_len (b ∷ bs) = if b == 10 then 1 else 1 + line_comment_len bs

unfoldable pub block_comment_len : ℕ → List ℕ → ℕ
block_comment_len depth [] = 0
block_comment_len depth (a ∷ []) = 1
block_comment_len depth (a ∷ b ∷ bs) =
    if a == 47 && b == 42
    then 2 + block_comment_len (depth + 1) bs
    else if a == 42 && b == 47
    then if depth - 1 == 0 then 2 else 2 + block_comment_len (depth - 1) bs
    else 1 + block_comment_len depth (b ∷ bs)

-- From behind the quote that opens on.
unfoldable pub quoted_len : ℕ → Bool → List ℕ → ℕ
quoted_len quote escapes [] = 0
quoted_len quote escapes (a ∷ []) = 1
quoted_len quote escapes (a ∷ b ∷ bs) =
    if escapes && a == 92
    then 2 + quoted_len quote escapes bs
    else if not (a == quote)
    then 1 + quoted_len quote escapes (b ∷ bs)
    else if b == quote
    then 2 + quoted_len quote escapes bs
    else 1

abbrev pub escapes_backslashes : List ℕ → Bool
escapes_backslashes [] = false
escapes_backslashes (e ∷ []) = e == 101 || e == 69
escapes_backslashes (e ∷ before ∷ _) = (e == 101 || e == 69) && not (is_word before)

unfoldable pub tag_len : Bool → List ℕ → ℕ
tag_len first [] = 0
tag_len first (b ∷ bs) = if is_tag b first then 1 + tag_len false bs else 0

abbrev pub starts_with : List ℕ → List ℕ → Bool
starts_with [] bs = true
starts_with (t ∷ tag) [] = false
starts_with (t ∷ tag) (b ∷ bs) = t == b && starts_with tag bs

unfoldable pub find : List ℕ → List ℕ → Option ℕ
find tag [] = none
find tag (b ∷ bs) =
    let rest = find tag bs in
    if starts_with tag (b ∷ bs) then some 0 else elim rest [ none ↦ none | some n ↦ some (suc n) ]

abbrev pub followed_by : ℕ → List ℕ → Bool
followed_by c [] = false
followed_by c (b ∷ bs) = b == c

-- The end of the quoted text whose tag has the given length, both `$` included.
abbrev pub tagged_len : ℕ → List ℕ → ℕ
tagged_len size bytes = elim (find (take size bytes) (drop size bytes)) [
  | none ↦ length bytes
  | some offset ↦ size + offset + size
]

abbrev pub dollar_quoted_len : List ℕ → Option ℕ
dollar_quoted_len bytes =
    let end = 1 + tag_len true (drop 1 bytes) in
    if followed_by 36 bytes && followed_by 36 (drop end bytes)
    then some (tagged_len (end + 1) bytes)
    else none

-- What a turn of the loop answers: a listener, or how far the cursor moves and the new `head`.
pub data Turn : Type 0 where
  found : Turn
  ahead : ℕ → Bool → Turn

unfoldable pub turn : List ℕ → ℕ → List ℕ → Bool → Turn
turn before b bs head =
    if b == 45 && followed_by 45 bs
    then ahead (line_comment_len (b ∷ bs)) head
    else if b == 47 && followed_by 42 bs
    then ahead (block_comment_len 0 (b ∷ bs)) head
    else if b == 59
    then ahead 1 true
    else if is_space b
    then ahead 1 head
    else if b == 39
    then ahead (1 + quoted_len b (escapes_backslashes before) bs) false
    else if b == 34
    then ahead (1 + quoted_len b false bs) false
    else (elim (dollar_quoted_len (b ∷ bs)) [
      | some end ↦ ahead end false
      | none ↦
          if is_word b
          then (if head && is_listen (take (word_len (b ∷ bs)) (b ∷ bs))
              then found
              else ahead (word_len (b ∷ bs)) false)
          else ahead 1 false
    ])

-- The bytes before a cursor that moves ahead.
abbrev pub passed : ℕ → List ℕ → List ℕ → List ℕ
passed zero before bs = before
passed (suc n) before [] = before
passed (suc n) before (b ∷ bs) = passed n (b ∷ before) bs

-- The loop, on fuel; `none` means that the fuel ran out before the end of the text.
unfoldable pub scan : ℕ → List ℕ → List ℕ → Bool → Option Bool
scan zero before [] head = some false
scan zero before (b ∷ bs) head = none
scan (suc fuel) before [] head = some false
scan (suc fuel) before (b ∷ bs) head = elim (turn before b bs head) [
  | found ↦ some true
  | ahead n head' ↦ scan fuel (passed n before (b ∷ bs)) (drop n (b ∷ bs)) head'
]

-- The loop on as much fuel as there are bytes.
unfoldable pub has_listen : List ℕ → Bool
has_listen sql = get_or false (scan (length sql) [] sql true)
