-- ===== src/Protocol/Startup.antt =====
-- crates/protocol/src/startup.rs: what a client sends first. A text is the list of its bytes, and
-- whether bytes are UTF-8 (`str::from_utf8`) is the parameter `is_utf8`. An `i32` is its 32 bits.
pub mod Roundtrip
use pg_steward.Base.Order.{Text, text_ord, ◌≟◌}
use pg_steward.Base.{
  ℕ, zero, suc, ◌+◌, ◌*◌, ◌/◌, ◌%◌, Bool, true, false, Option, none, some, List, [], ◌∷◌, ◌++◌,
  if◌then◌else◌, ◌==◌, length, Result, err, ok, and_then, to_be_bytes, from_be_bytes, get_or,
}
use pg_steward.Protocol.Framing.{encode_startup_frame}

abbrev pub ssl_request_code : ℕ
ssl_request_code = 80877103

abbrev pub gssenc_request_code : ℕ
gssenc_request_code = 80877104

abbrev pub cancel_request_code : ℕ
cancel_request_code = 80877102

abbrev pub special_request_major : ℕ
special_request_major = 1234

abbrev pub supported_major : ℕ
supported_major = 3

pub record ProtocolVersion : Type 0 where
  pub major : ℕ
  pub minor : ℕ

abbrev pub from_code : ℕ → ℕ → ℕ → ℕ → ProtocolVersion
from_code a b c d = record { major = a * 256 + b; minor = c * 256 + d }

abbrev pub to_code : ProtocolVersion → List ℕ
to_code v = v.major / 256 % 256 ∷ v.major % 256 ∷ v.minor / 256 % 256 ∷ v.minor % 256 ∷ []

pub record CancelKey : Type 0 where
  pub process_id : ℕ
  pub secret_key : ℕ

pub record StartupMessage : Type 0 where
  pub version : ProtocolVersion
  pub parameters : List (Text × Text)

pub data StartupRequest : Type 0 where
  ssl gss_enc : StartupRequest
  cancel : CancelKey → StartupRequest
  startup : StartupMessage → StartupRequest

-- The reasons of `StartupError::Malformed`.
pub data Reason : Type 0 where
  short ssl_trailing gss_trailing key_length not_terminated after_terminator name_open
        value_missing :
      Reason

pub data StartupError : Type 0 where
  unknown_request_code : ℕ → StartupError
  unsupported_protocol_version : ProtocolVersion → StartupError
  malformed : Reason → StartupError
  invalid_utf8 : StartupError

abbrev find_parameter : List (Text × Text) → Text → Option Text
find_parameter [] name = none
find_parameter ((key, value) ∷ rest) name =
    if key ≟ name then some value else find_parameter rest name

abbrev pub parameter : StartupMessage → Text → Option Text
parameter m name = find_parameter m.parameters name

abbrev pub filled : Option Text → Option Text
filled none = none
filled (some []) = none
filled (some (b ∷ bs)) = some (b ∷ bs)

-- The names `user` and `database`.
abbrev pub user_name : Text
user_name = 117 ∷ 115 ∷ 101 ∷ 114 ∷ []

abbrev pub database_name : Text
database_name = 100 ∷ 97 ∷ 116 ∷ 97 ∷ 98 ∷ 97 ∷ 115 ∷ 101 ∷ []

unfoldable pub user : StartupMessage → Option Text
user m = filled (parameter m user_name)

unfoldable pub database : StartupMessage → Option Text
database m = elim (user m) [
  | none ↦ none
  | some u ↦ some (get_or u (filled (parameter m database_name)))
]

-- The bytes before the first 0 and those after it.
unfoldable pub cut_zero : List ℕ → Option (Text × List ℕ)
cut_zero [] = none
cut_zero (zero ∷ bytes) = some ([], bytes)
cut_zero (suc b ∷ bytes) = elim (cut_zero bytes) [
  | none ↦ none
  | some (text, after) ↦ some (suc b ∷ text, after)
]

abbrev pub put_cstring : Text → List ℕ → List ℕ
put_cstring text out = text ++ 0 ∷ out

abbrev pub fixed_request : List ℕ → StartupRequest → Reason → Result StartupError StartupRequest
fixed_request [] request trailing = ok request
fixed_request (_ ∷ _) request trailing = err (malformed trailing)

unfoldable pub decode_cancel_key : List ℕ → Result StartupError CancelKey
decode_cancel_key (a ∷ b ∷ c ∷ d ∷ e ∷ f ∷ g ∷ h ∷ []) =
    ok record { process_id = from_be_bytes a b c d; secret_key = from_be_bytes e f g h }
decode_cancel_key _ = err (malformed key_length)

module _ (is_utf8 : List ℕ → Bool) where
  unfoldable pub take_cstring : List ℕ → Reason → Result StartupError (Text × List ℕ)
  take_cstring bytes unterminated = elim (cut_zero bytes) [
    | none ↦ err (malformed unterminated)
    | some (text, after) ↦ if is_utf8 text then ok (text, after) else err invalid_utf8
  ]

  -- A name, and its value behind it.
  unfoldable pub take_parameter : List ℕ → Result StartupError ((Text × Text) × List ℕ)
  take_parameter rest = and_then (take_cstring rest name_open) (λ name.
      and_then (take_cstring name.1 value_missing) (λ value. ok ((name.0, value.0), value.1)))

  abbrev pub Parameters : Type 0
  Parameters = Result StartupError (List (Text × Text))

  -- The loop of `decode_parameters`, on fuel: each turn takes bytes off, so that as much fuel as
  -- there are bytes ends at no byte, where the loop answers as it does without fuel.
  unfoldable pub decode_from : ℕ → List ℕ → Parameters
  decode_from _ [] = err (malformed not_terminated)
  decode_from _ (zero ∷ []) = ok []
  decode_from _ (zero ∷ _ ∷ _) = err (malformed after_terminator)
  decode_from zero (suc b ∷ rest) = err (malformed not_terminated)
  decode_from (suc fuel) (suc b ∷ rest) =
      and_then (take_parameter (suc b ∷ rest))
        (λ taken. and_then (decode_from fuel taken.1) (λ parameters. ok (taken.0 ∷ parameters)))

  abbrev pub decode_parameters : List ℕ → Parameters
  decode_parameters rest = decode_from (length rest) rest

  unfoldable pub decode_version : ℕ → ProtocolVersion → List ℕ → Result StartupError StartupRequest
  decode_version code version rest =
      if version.major == special_request_major
      then err (unknown_request_code code)
      else if version.major == supported_major
      then and_then (decode_parameters rest)
          (λ parameters. ok (startup record { version = version; parameters = parameters }))
      else err (unsupported_protocol_version version)

  unfoldable pub decode_startup : List ℕ → Result StartupError StartupRequest
  decode_startup (a ∷ b ∷ c ∷ d ∷ rest) =
      let code = from_be_bytes a b c d in
      if code == ssl_request_code
      then fixed_request rest ssl ssl_trailing
      else if code == gssenc_request_code
      then fixed_request rest gss_enc gss_trailing
      else if code == cancel_request_code
      then and_then (decode_cancel_key rest) (λ key. ok (cancel key))
      else decode_version code (from_code a b c d) rest
  decode_startup _ = err (malformed short)

unfoldable pub put_parameters : List (Text × Text) → List ℕ
put_parameters [] = 0 ∷ []
put_parameters ((name, value) ∷ rest) = put_cstring name (put_cstring value (put_parameters rest))

unfoldable pub startup_body : StartupRequest → List ℕ
startup_body ssl = to_be_bytes ssl_request_code
startup_body gss_enc = to_be_bytes gssenc_request_code
startup_body (cancel key) =
    to_be_bytes cancel_request_code ++ (to_be_bytes key.process_id ++ to_be_bytes key.secret_key)
startup_body (startup m) = to_code m.version ++ put_parameters m.parameters

unfoldable pub encode_startup : StartupRequest → List ℕ → Option (List ℕ)
encode_startup request out = encode_startup_frame (startup_body request) out
