-- ===== src/Protocol/Listen/Tokens.antt =====
-- What `has_listen` of crates/protocol/src/listen.rs finds in a text that is written as tokens.
use pg_steward.Base.{
  ℕ, zero, suc, ◌+◌, ◌≤◌, ◌≡◌, refl, ap, ◌∙◌, inl, inr, ◌⊎◌, arith, Bool, true, false, Option, some,
  ◌&&◌, ◌||◌, List, [], ◌∷◌, ◌++◌, if◌then◌else◌, ◌==◌, length, drop, take-append, Bool-cases, All,
}
use pg_steward.Protocol.Listen.{
  found, ahead, turn, scan, passed, word_len, line_comment_len, quoted_len, is_word, is_space,
  is_listen, followed_by,
}
use pg_steward.Protocol.Listen.Scan.{scan_same, length-drop}

pub data Token : Type 0 where
  gap : ℕ → Token
  comment : List ℕ → Token
  semicolon : Token
  word : ℕ → List ℕ → Token
  quoted : ℕ → List ℕ → Token

abbrev pub doubled : ℕ → List ℕ → List ℕ
doubled quote [] = []
doubled quote (b ∷ body) = if b == quote then b ∷ b ∷ doubled quote body else b ∷ doubled quote body

abbrev pub written : Token → List ℕ
written (gap b) = b ∷ []
written (comment body) = 45 ∷ 45 ∷ body ++ (10 ∷ [])
written semicolon = 59 ∷ []
written (word b bs) = b ∷ bs
written (quoted quote body) = quote ∷ doubled quote body ++ (quote ∷ [])

abbrev pub text_of : List Token → List ℕ
text_of [] = []
text_of (t ∷ ts) = written t ++ text_of ts

abbrev pub is_dense : Token → Bool
is_dense (word _ _) = true
is_dense (quoted _ _) = true
is_dense _ = false

abbrev pub starts_dense : List Token → Bool
starts_dense [] = false
starts_dense (t ∷ ts) = is_dense t

abbrev pub IsToken : Token → Type 0
IsToken (gap b) = is_space b ≡ true
IsToken (comment body) = All (λ b. (b == 10) ≡ false) body
IsToken semicolon = Unit
IsToken (word b bs) = ((b == 36) ≡ false) × All (λ b. is_word b ≡ true) (b ∷ bs)
IsToken (quoted quote body) = (quote ≡ 39) ⊎ (quote ≡ 34)

-- Every token is well formed, and nothing dense follows a word or a quoted text at once.
abbrev pub AreTokens : List Token → Type 0
AreTokens [] = Unit
AreTokens (t ∷ ts) = IsToken t × ((is_dense t && starts_dense ts) ≡ false) × AreTokens ts

-- Whether the first word of a statement is LISTEN.
abbrev pub listens : Bool → List Token → Bool
listens head [] = false
listens head (gap _ ∷ ts) = listens head ts
listens head (comment _ ∷ ts) = listens head ts
listens head (semicolon ∷ ts) = listens true ts
listens head (word b bs ∷ ts) = head && is_listen (b ∷ bs) || listens false ts
listens head (quoted _ _ ∷ ts) = listens false ts

pub scan-turn :
    (fuel n : ℕ) (before : List ℕ) (b : ℕ) (bs : List ℕ) (head head' : Bool)
    → length (b ∷ bs) ≤ fuel
    → 1 ≤ n
    → turn before b bs head ≡ ahead n head'
    → scan fuel before (b ∷ bs) head ≡ scan fuel (passed n before (b ∷ bs)) (drop n (b ∷ bs)) head'
unfolding scan
scan-turn zero n before b bs head head' h m e = absurd (omega (arith, h))
scan-turn (suc fuel) n before b bs head head' h m e =
    ap
      (λ t. elim t as (λ x. Option Bool) [
        | found ↦ some true
        | ahead n head' ↦ scan fuel (passed n before (b ∷ bs)) (drop n (b ∷ bs)) head'
      ])
      e
    ∙ scan_same fuel (suc fuel) (passed n before (b ∷ bs)) (drop n (b ∷ bs)) head'
        (omega (arith, m, h, length-drop n (b ∷ bs))) (omega (arith, m, h, length-drop n (b ∷ bs)))

pub scan-found :
    (fuel : ℕ) (before : List ℕ) (b : ℕ) (bs : List ℕ) (head : Bool)
    → length (b ∷ bs) ≤ fuel
    → turn before b bs head ≡ found
    → scan fuel before (b ∷ bs) head ≡ some true
unfolding scan
scan-found zero before b bs head h e = absurd (omega (arith, h))
scan-found (suc fuel) before b bs head h e =
    ap
      (λ t. elim t as (λ x. Option Bool) [
        | found ↦ some true
        | ahead n head' ↦ scan fuel (passed n before (b ∷ bs)) (drop n (b ∷ bs)) head'
      ])
      e

pub gap_turn :
    (before bs : List ℕ) (b : ℕ) (head : Bool)
    → is_space b ≡ true
    → turn before b bs head ≡ ahead 1 head
unfolding turn
gap_turn before bs b head h = ground (arith, h)

-- What stands behind a token that is not dense.
abbrev pub Parted : List ℕ → Type 0
Parted [] = Unit
Parted (b ∷ bs) = (is_word b ≡ false) × ((b == 39) ≡ false) × ((b == 34) ≡ false)

pub text_of-Parted :
    (ts : List Token) → AreTokens ts → starts_dense ts ≡ false → Parted (text_of ts)
text_of-Parted [] a e = tt
text_of-Parted (gap b ∷ ts) (h, _, _) e = (ground (arith, h), ground (arith, h), ground (arith, h))
text_of-Parted (comment body ∷ ts) a e = (refl, refl, refl)
text_of-Parted (semicolon ∷ ts) a e = (refl, refl, refl)
text_of-Parted (word b bs ∷ ts) a e = absurd (cc)
text_of-Parted (quoted q body ∷ ts) a e = absurd (cc)

word_len-append :
    (w rest : List ℕ)
    → All (λ b. is_word b ≡ true) w
    → Parted rest
    → word_len (w ++ rest) ≡ length w
unfolding word_len
word_len-append [] [] h p = refl
word_len-append [] (b ∷ rest) h (p, _, _) = rw p refl
word_len-append (b ∷ w) rest (h, hs) p = rw h (omega (arith, word_len-append w rest hs p))

pub word_turn :
    (before : List ℕ) (b : ℕ) (bs rest : List ℕ) (head : Bool)
    → IsToken (word b bs)
    → Parted rest
    → turn before b (bs ++ rest) head
      ≡ (if head && is_listen (b ∷ bs) then found else ahead (length (b ∷ bs)) false)
unfolding turn
word_turn before b bs rest head (d, hs) p =
    let len = word_len-append (b ∷ bs) rest hs p in
    let text = take-append (b ∷ bs) rest in ground (arith, hs.0, d, len, text)

quoted_len-step :
    (quote b : ℕ) (bs : List ℕ)
    → (b == quote) ≡ false
    → quoted_len quote false (b ∷ bs) ≡ 1 + quoted_len quote false bs
unfolding quoted_len
quoted_len-step quote b [] e = refl
quoted_len-step quote b (c ∷ bs) e = rw e refl

pub quoted_len-doubled :
    (quote : ℕ) (body rest : List ℕ)
    → (followed_by quote rest ≡ false)
    → quoted_len quote false (doubled quote body ++ (quote ∷ []) ++ rest)
      ≡ length (doubled quote body) + 1
unfolding quoted_len
quoted_len-doubled quote [] [] p = refl
quoted_len-doubled quote [] (b ∷ rest) p = ground (arith, p)
quoted_len-doubled quote (b ∷ body) rest p = elim (Bool-cases (b == quote)) [
  | inl e ↦ rw e (ground (arith, e, quoted_len-doubled quote body rest p))
  | inr e ↦
      let ahead_ = quoted_len-step quote b (doubled quote body ++ (quote ∷ []) ++ rest) e in
      rw e (omega (arith, ahead_, quoted_len-doubled quote body rest p))
]

pub line_comment_len-append :
    (body rest : List ℕ)
    → All (λ b. (b == 10) ≡ false) body
    → line_comment_len (body ++ (10 ∷ []) ++ rest) ≡ length body + 1
unfolding line_comment_len
line_comment_len-append [] rest h = refl
line_comment_len-append (b ∷ body) rest (h, hs) =
    rw h (omega (arith, line_comment_len-append body rest hs))
