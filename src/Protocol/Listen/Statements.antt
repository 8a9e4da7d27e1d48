-- ===== src/Protocol/Listen/Statements.antt =====
-- That `has_listen` of crates/protocol/src/listen.rs finds the statements that a text is made of.
use pg_steward.Base.{
  ℕ, zero, suc, ◌+◌, ◌≤◌, ◌≡◌, refl, ap, ◌∙◌, inl, inr, ◌⊎◌, arith, Bool, true, false, ◌&&◌, some,
  get_or, List, [], ◌∷◌, ◌++◌, ◌==◌, length, length-append, drop-append, Bool-cases,
}
use pg_steward.Protocol.Listen.{
  ahead, turn, scan, has_listen, passed, line_comment_len, quoted_len, is_listen, followed_by,
  escapes_backslashes,
}
use pg_steward.Protocol.Listen.Tokens.{
  Token, gap, comment, semicolon, word, quoted, doubled, written, text_of, starts_dense, AreTokens,
  listens, scan-turn, scan-found, gap_turn, text_of-Parted, Parted, word_turn, quoted_len-doubled,
  line_comment_len-append,
}

scan_empty : (fuel : ℕ) (before : List ℕ) (head : Bool) → scan fuel before [] head ≡ some false
unfolding scan
scan_empty zero before head = refl
scan_empty (suc fuel) before head = refl

semicolon_turn : (before bs : List ℕ) (head : Bool) → turn before 59 bs head ≡ ahead 1 true
unfolding turn
semicolon_turn before bs head = refl

comment_turn :
    (before bs : List ℕ) (head : Bool)
    → turn before 45 (45 ∷ bs) head ≡ ahead (line_comment_len bs + 2) head
unfolding turn line_comment_len
comment_turn before bs head = ap (λ n. ahead n head) (omega arith)

quoted_turn :
    (before : List ℕ) (quote : ℕ) (bs : List ℕ) (head : Bool)
    → (quote ≡ 39) ⊎ (quote ≡ 34)
    → escapes_backslashes before ≡ false
    → turn before quote bs head ≡ ahead (1 + quoted_len quote false bs) false
unfolding turn
quoted_turn before quote bs head h e = ground (arith, h, e)

plain_before :
    (b : ℕ) (before : List ℕ)
    → ((b == 101) ≡ false)
    → ((b == 69) ≡ false)
    → escapes_backslashes (b ∷ before) ≡ false
plain_before b [] h k = rw (h, k) refl
plain_before b (a ∷ before) h k = rw (h, k) refl

passed-end :
    (before xs : List ℕ) (rest : List ℕ)
    → escapes_backslashes (passed (length (xs ++ (10 ∷ []))) before (xs ++ (10 ∷ []) ++ rest))
      ≡ false
passed-end before [] rest = plain_before 10 before refl refl
passed-end before (x ∷ xs) rest = passed-end (x ∷ before) xs rest

and_false : (a b : Bool) → b ≡ false → (a && b) ≡ false
and_false a b h = ground (arith, h)

Parted-followed :
    (quote : ℕ) (rest : List ℕ)
    → (quote ≡ 39) ⊎ (quote ≡ 34)
    → Parted rest
    → followed_by quote rest ≡ false
Parted-followed quote [] h p = refl
Parted-followed quote (b ∷ rest) (inl e) (_, p, q) = rw e p
Parted-followed quote (b ∷ rest) (inr e) (_, p, q) = rw e q

-- Over a text, from any cursor that does not stand behind the `E` of an escaped literal.
scan_tokens :
    (fuel : ℕ) (before : List ℕ) (ts : List Token) (head : Bool)
    → AreTokens ts
    → (starts_dense ts && escapes_backslashes before) ≡ false
    → length (text_of ts) ≤ fuel
    → scan fuel before (text_of ts) head ≡ some (listens head ts)
scan_tokens fuel before [] head a e h = scan_empty fuel before head
scan_tokens fuel before (gap b ∷ ts) head (space, _, a) e h =
    scan-turn fuel 1 before b (text_of ts) head head h (omega arith)
      (gap_turn before (text_of ts) b head space)
    ∙ scan_tokens fuel (b ∷ before) ts head a
        (and_false (starts_dense ts) _
          (plain_before b before (ground (arith, space)) (ground (arith, space))))
        (omega (arith, h))
scan_tokens fuel before (semicolon ∷ ts) head (_, _, a) e h =
    scan-turn fuel 1 before 59 (text_of ts) head true h (omega arith)
      (semicolon_turn before (text_of ts) head)
    ∙ scan_tokens fuel (59 ∷ before) ts true a
        (and_false (starts_dense ts) _ (plain_before 59 before refl refl)) (omega (arith, h))
scan_tokens fuel before (comment body ∷ ts) head (plain, _, a) e h =
    let w = written (comment body) in
    let rest = text_of ts in
    let size : line_comment_len (body ++ (10 ∷ []) ++ rest) + 2 ≡ length w =
      omega (arith, line_comment_len-append body rest plain, length-append body (10 ∷ [])) in
    scan-turn fuel (length w) before 45 (45 ∷ body ++ (10 ∷ []) ++ rest) head head h (omega arith)
      (comment_turn before (body ++ (10 ∷ []) ++ rest) head ∙ ap (λ n. ahead n head) size)
    ∙ ap (λ r. scan fuel (passed (length w) before (w ++ rest)) r head) (drop-append w rest)
    ∙ scan_tokens fuel (passed (length w) before (w ++ rest)) ts head a
        (and_false (starts_dense ts) _ (passed-end before (45 ∷ 45 ∷ body) rest))
        (omega (arith, h, length-append w rest))
scan_tokens fuel before (word b bs ∷ ts) head (token, apart, a) e h =
    let w = b ∷ bs in
    let rest = text_of ts in
    let turns = word_turn before b bs rest head token (text_of-Parted ts a apart) in
    elim (Bool-cases (head && is_listen w)) [
      | inl hit ↦ scan-found fuel before b (bs ++ rest) head h (turns ∙ rw hit refl) ∙ rw hit refl
      | inr miss ↦
          scan-turn fuel (length w) before b (bs ++ rest) head false h (omega arith)
            (turns ∙ rw miss refl)
          ∙ ap (λ r. scan fuel (passed (length w) before (w ++ rest)) r false) (drop-append w rest)
          ∙ scan_tokens fuel (passed (length w) before (w ++ rest)) ts false a
              (ground (arith, apart)) (omega (arith, h, length-append w rest))
          ∙ rw miss refl
    ]
scan_tokens fuel before (quoted quote body ∷ ts) head (token, apart, a) e h =
    let w = written (quoted quote body) in
    let rest = text_of ts in
    let inner = doubled quote body ++ (quote ∷ []) in
    let parted = Parted-followed quote rest token (text_of-Parted ts a apart) in
    let size : 1 + quoted_len quote false (inner ++ rest) ≡ length w = omega (
      arith,
      quoted_len-doubled quote body rest parted,
      length-append (doubled quote body) (quote ∷ []),
    ) in
    scan-turn fuel (length w) before quote (inner ++ rest) head false h (omega arith) (
      quoted_turn before quote (inner ++ rest) head token (ground (arith, e))
      ∙ ap (λ n. ahead n false) size)
    ∙ ap (λ r. scan fuel (passed (length w) before (w ++ rest)) r false) (drop-append w rest)
    ∙ scan_tokens fuel (passed (length w) before (w ++ rest)) ts false a (ground (arith, apart))
        (omega (arith, h, length-append w rest))

-- For a text of tokens, which are single white spaces, line comments, semicolons, words not led by
-- `$`, and quoted texts with their quotes doubled inside, where no word and no quoted text directly
-- follows another: `has_listen` holds exactly if some statement begins, its white space and comments
-- aside, with the word LISTEN in any case, whatever stands in comments and quotes.
pub has_listen_lem : (ts : List Token) → AreTokens ts → has_listen (text_of ts) ≡ listens true ts
unfolding has_listen
has_listen_lem ts a = ap (get_or false) (
    scan_tokens (length (text_of ts)) [] ts true a (and_false (starts_dense ts) false refl)
      (omega arith))
