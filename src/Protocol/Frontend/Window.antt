-- ===== src/Protocol/Frontend/Window.antt =====
-- After a refusal by crates/protocol/src/prepared.rs: what becomes of the messages up to the Sync.
use pg_steward.Base.Order.{Text, text_ord}
use pg_steward.Base.Map.{Map, lookup}
use pg_steward.Base.{
  ℕ, ◌≡◌, refl, sym, ap, ◌∙◌, Bool, true, false, none, List, [], ◌∷◌, ◌++◌, All, Result, ok,
  Result-cases, Option-cases, inl, inr, arith,
}
use pg_steward.Protocol.Message.{FrontendTag, bind, sync}
use pg_steward.Protocol.Frontend.{
  FrontendError, PreparedStatements, Verdict, forward, skip, reject, discard_until_sync,
  decode_bind, on_bind, judge,
}

abbrev pub is_sync : FrontendTag → Bool
is_sync tag = elim tag [ sync ↦ true | _ ↦ false ]

abbrev pub FrontendMessage : Type 0
FrontendMessage = FrontendTag × List ℕ

abbrev pub Verdicts : Type 0
Verdicts = List (Result FrontendError Verdict)

-- Every message is skipped, and the Sync behind them is forwarded.
abbrev pub skips : List FrontendMessage → Verdicts
skips [] = ok forward ∷ []
skips (_ ∷ messages) = ok skip ∷ skips messages

module _ (is_utf8 : List ℕ → Bool) where
  unfoldable pub judge_all :
      PreparedStatements → List FrontendMessage → PreparedStatements × Verdicts
  judge_all p [] = (p, [])
  judge_all p ((tag, body) ∷ messages) =
      let (p', verdict) = judge is_utf8 p tag body in
      let (left, verdicts) = judge_all p' messages in (left, verdict ∷ verdicts)

  judge-refused :
      (parsed : Map {0, 0} Text Unit) (tag : FrontendTag) (body : List ℕ)
      → is_sync tag ≡ false
      → let p : PreparedStatements = record { parsed = parsed; refused = true } in
        judge is_utf8 p tag body ≡ (p, ok skip)
  unfolding judge
  judge-refused parsed sync body h = ground arith
  judge-refused parsed tag body h = refl

  judge_all-refused :
      (parsed : Map {0, 0} Text Unit) (messages : List FrontendMessage) (body : List ℕ)
      → All (λ m. is_sync m.0 ≡ false) messages
      → judge_all (record { parsed = parsed; refused = true }) (messages ++ (sync, body) ∷ [])
        ≡ (record { parsed = parsed; refused = false }, skips messages)
  unfolding judge_all judge
  judge_all-refused parsed [] body h = refl
  judge_all-refused parsed ((tag, bytes) ∷ messages) body (h, hs) =
      rw (judge-refused parsed tag bytes h, judge_all-refused parsed messages body hs) refl

  rejected_lem :
      (p p' : PreparedStatements) (body : List ℕ) (name : Text)
      → p.refused ≡ false
      → judge is_utf8 p bind body ≡ (p', ok (reject name))
      → (decode_bind is_utf8 body ≡ ok name)
        × (lookup name p.parsed ≡ none)
        × (p' ≡ discard_until_sync p)
  unfolding judge on_bind
  rejected_lem p p' body name open_window e = elim (Result-cases (decode_bind is_utf8 body)) [
    | inl (x, bad) ↦ ground arith
    | inr (asked, decoded) ↦ elim (Option-cases (lookup asked p.parsed)) [
      | inl missing ↦ (ground arith, ground arith, ground arith)
      | inr (u, found) ↦ ground arith
    ]
  ]

  -- A Bind that is rejected outside a refused window names a statement that is not prepared; then
  -- all messages up to the next Sync are skipped, whatever they hold, that Sync is forwarded, and
  -- the statements are again as they were before the Bind.
  pub judge_all-reject :
      (p p' : PreparedStatements) (body : List ℕ) (name : Text) (messages : List FrontendMessage)
      (sync_body : List ℕ)
      → p.refused ≡ false
      → judge is_utf8 p bind body ≡ (p', ok (reject name))
      → All (λ m. is_sync m.0 ≡ false) messages
      → (decode_bind is_utf8 body ≡ ok name)
        × (lookup name p.parsed ≡ none)
        × (judge_all p' (messages ++ (sync, sync_body) ∷ []) ≡ (p, skips messages))
  judge_all-reject p p' body name messages sync_body open_window e h =
      let (decoded, missing, same) = rejected_lem p p' body name open_window e in
      let again : record p { refused = false } ≡ p =
        ap (λ b. record p { refused = b }) (sym open_window) in
      (
        decoded,
        missing,
        ap (λ q. judge_all q (messages ++ (sync, sync_body) ∷ [])) same
            ∙ judge_all-refused p.parsed messages sync_body h
            ∙ ap (λ q. (q, skips messages)) again,
      )
