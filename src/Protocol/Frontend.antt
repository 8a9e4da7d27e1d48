-- ===== src/Protocol/Frontend.antt =====
-- crates/protocol/src/frontend.rs and prepared.rs: the bodies of a client's messages, and what a
-- client may ask of the statements it prepared. Whether bytes are UTF-8 is the parameter `is_utf8`. A
-- set of names is a map to nothing. The reason in an error is left out.
pub mod Window
use pg_steward.Protocol.Listen.{has_listen}
use pg_steward.Base.Order.{Text, text_ord}
use pg_steward.Base.Map.{Map, lookup, insert, remove}
use pg_steward.Base.{
  ℕ, Bool, true, false, Option, none, some, List, [], ◌∷◌, if◌then◌else◌, ◌==◌, leb, length, Result,
  err, ok, and_then, from_be_bytes,
}
use pg_steward.Protocol.Message.{FrontendTag, bind, close, parse, password, query, sync}
use pg_steward.Protocol.Startup.{cut_zero}

pub data FrontendError : Type 0 where
  malformed_frontend : FrontendTag → FrontendError

pub record SaslInitialResponse : Type 0 where
  pub mechanism : Text
  pub data_bytes : List ℕ

pub data CloseTarget : Type 0 where
  statement : Text → CloseTarget
  portal : Text → CloseTarget

pub record Parse : Type 0 where
  pub statement_name : Text
  pub query_text : Text

abbrev pub malformed_password : {A : Type 0} → Result FrontendError A
malformed_password = err (malformed_frontend password)

-- The length that is declared, -1 for no data, and the data behind it.
unfoldable pub sasl_data : Text → List ℕ → Result FrontendError SaslInitialResponse
sasl_data mechanism (a ∷ b ∷ c ∷ d ∷ bytes) =
    let declared = from_be_bytes a b c d in
    if declared == 4294967295
    then (if length bytes == 0
        then ok record { mechanism = mechanism; data_bytes = [] }
        else malformed_password)
    else if leb 2147483648 declared
    then malformed_password
    else if declared == length bytes
    then ok record { mechanism = mechanism; data_bytes = bytes }
    else malformed_password
sasl_data mechanism _ = malformed_password

pub record PreparedStatements : Type 0 where
  pub parsed : Map {0, 0} Text Unit
  pub refused : Bool

pub data Verdict : Type 0 where
  forward skip reject_listen : Verdict
  reject : Text → Verdict

abbrev pub new_statements : PreparedStatements
new_statements = record { parsed = []; refused = false }

abbrev pub discard_until_sync : PreparedStatements → PreparedStatements
discard_until_sync p = record p { refused = true }

module _ (is_utf8 : List ℕ → Bool) where
  unfoldable pub cstr : List ℕ → FrontendTag → Result FrontendError (Text × List ℕ)
  cstr body tag = elim (cut_zero body) [
    | none ↦ err (malformed_frontend tag)
    | some (text, rest) ↦ if is_utf8 text then ok (text, rest) else err (malformed_frontend tag)
  ]

  unfoldable pub decode_sasl_initial_response : List ℕ → Result FrontendError SaslInitialResponse
  decode_sasl_initial_response body =
      and_then (cstr body password) (λ taken. sasl_data taken.0 taken.1)

  unfoldable pub decode_query : List ℕ → Result FrontendError Text
  decode_query body = and_then (cstr body query) (λ taken. ok taken.0)

  unfoldable pub decode_parse : List ℕ → Result FrontendError Parse
  decode_parse body = and_then (cstr body parse) (λ name.
      and_then (cstr name.1 parse)
        (λ text. ok record { statement_name = name.0; query_text = text.0 }))

  unfoldable pub decode_bind : List ℕ → Result FrontendError Text
  decode_bind body =
      and_then (cstr body bind)
        (λ portal_name. and_then (cstr portal_name.1 bind) (λ name. ok name.0))

  unfoldable pub decode_close : List ℕ → Result FrontendError CloseTarget
  decode_close [] = err (malformed_frontend close)
  decode_close (kind ∷ rest) = and_then (cstr rest close) (λ name.
      if kind == 83
      then ok (statement name.0)
      else if kind == 80
      then ok (portal name.0)
      else err (malformed_frontend close))

  abbrev pub Answer : Type 0
  Answer = PreparedStatements × Result FrontendError Verdict

  unfoldable pub on_query : PreparedStatements → List ℕ → Answer
  on_query p body = elim (decode_query body) [
    | err e ↦ (p, err e)
    | ok text ↦ if has_listen text then (p, ok reject_listen) else (p, ok forward)
  ]

  unfoldable pub on_parse : PreparedStatements → List ℕ → Answer
  on_parse p body = elim (decode_parse body) [
    | err e ↦ (p, err e)
    | ok asked ↦
        if has_listen asked.query_text
        then (p, ok reject_listen)
        else (record p { parsed = insert asked.statement_name tt p.parsed }, ok forward)
  ]

  unfoldable pub on_bind : PreparedStatements → List ℕ → Answer
  on_bind p body = elim (decode_bind body) [
    | err e ↦ (p, err e)
    | ok name ↦ elim (lookup name p.parsed) [
      | none ↦ (discard_until_sync p, ok (reject name))
      | some _ ↦ (p, ok forward)
    ]
  ]

  unfoldable pub on_close : PreparedStatements → List ℕ → Answer
  on_close p body = elim (decode_close body) [
    | err e ↦ (p, err e)
    | ok asked ↦ elim asked [
      | statement name ↦ (record p { parsed = remove name p.parsed }, ok forward)
      | portal _ ↦ (p, ok forward)
    ]
  ]

  -- The method `on_frontend` of `PreparedStatements`.
  unfoldable pub judge : PreparedStatements → FrontendTag → List ℕ → Answer
  judge p tag body =
      if p.refused
      then elim tag [ sync ↦ (record p { refused = false }, ok forward) | _ ↦ (p, ok skip) ]
      else elim tag [
        | query ↦ on_query p body
        | parse ↦ on_parse p body
        | bind ↦ on_bind p body
        | close ↦ on_close p body
        | _ ↦ (p, ok forward)
      ]
