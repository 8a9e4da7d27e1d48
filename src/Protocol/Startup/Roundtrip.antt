-- ===== src/Protocol/Startup/Roundtrip.antt =====
-- A request that crates/protocol/src/startup.rs writes is the request it reads.
use pg_steward.Base.Order.{Text}
use pg_steward.Base.{
  ℕ, zero, suc, ◌+◌, ◌*◌, ◌/◌, ◌%◌, ◌≤◌, ◌<◌, ◌≡◌, refl, ap, ◌∙◌, Bool, true, false, some, List, [],
  ◌∷◌, ◌++◌, ◌==◌, length, length-append, arith, All, ok, to_be_bytes, from_be_bytes,
  from_be_bytes-to_be_bytes,
}
use pg_steward.Protocol.Startup.{
  ProtocolVersion, CancelKey, StartupRequest, ssl, gss_enc, cancel, startup, Reason, name_open,
  value_missing, cut_zero, put_cstring, decode_cancel_key, take_cstring, take_parameter,
  decode_from, decode_parameters, decode_version, decode_startup, put_parameters, startup_body,
  from_code,
}

cut_zero-put_cstring :
    (text out : List ℕ) → All (λ b. 0 < b) text → cut_zero (put_cstring text out) ≡ some (text, out)
unfolding cut_zero
cut_zero-put_cstring [] out h = refl
cut_zero-put_cstring (zero ∷ text) out (h, _) = ground arith
cut_zero-put_cstring (suc b ∷ text) out (_, h) = rw (cut_zero-put_cstring text out h, cut_zero) refl

module _ (is_utf8 : List ℕ → Bool) where
  -- A text that C strings carry.
  abbrev pub IsText : Text → Type 0
  IsText text = All (λ b. 0 < b) text × (is_utf8 text ≡ true)

  abbrev pub IsParameter : Text × Text → Type 0
  IsParameter p = (0 < length p.0) × IsText p.0 × IsText p.1

  abbrev pub IsWritable : StartupRequest → Type 0
  IsWritable ssl = Unit
  IsWritable gss_enc = Unit
  IsWritable (cancel key) = (key.process_id < 4294967296) × (key.secret_key < 4294967296)
  IsWritable (startup m) =
      (m.version.major ≡ 3) × (m.version.minor < 65536) × All IsParameter m.parameters

  take_cstring-put_cstring :
      (text out : List ℕ) (r : Reason)
      → IsText text
      → take_cstring is_utf8 (put_cstring text out) r ≡ ok (text, out)
  unfolding take_cstring
  take_cstring-put_cstring text out r (h, u) =
      rw (cut_zero-put_cstring text out h, u, take_cstring) refl

  take_parameter_lem :
      (name value out : List ℕ)
      → IsText name
      → IsText value
      → take_parameter is_utf8 (put_cstring name (put_cstring value out)) ≡ ok ((name, value), out)
  unfolding take_parameter
  take_parameter_lem name value out n v =
      rw
        (
          take_cstring-put_cstring name (put_cstring value out) name_open n,
          take_cstring-put_cstring value out value_missing v,
          take_parameter,
        )
        refl

  decode_from-put_parameters :
      (fuel : ℕ) (ps : List (Text × Text))
      → length ps ≤ fuel
      → All IsParameter ps
      → decode_from is_utf8 fuel (put_parameters ps) ≡ ok ps
  unfolding decode_from put_parameters
  decode_from-put_parameters zero [] h a = refl
  decode_from-put_parameters (suc fuel) [] h a = refl
  decode_from-put_parameters zero (p ∷ ps) h a = ground arith
  decode_from-put_parameters (suc fuel) (([], value) ∷ ps) h ((f, _, _), _) = ground arith
  decode_from-put_parameters (suc fuel) ((zero ∷ name, value) ∷ ps) h ((f, (g, _), _), _) =
      ground arith
  decode_from-put_parameters (suc fuel) ((suc b ∷ name, value) ∷ ps) h ((f, n, v), a) =
      rw
        (
          take_parameter_lem (suc b ∷ name) value (put_parameters ps) n v,
          decode_from-put_parameters fuel ps (omega arith) a,
          decode_from,
        )
        refl

length-put_parameters : (ps : List (Text × Text)) → length ps ≤ length (put_parameters ps)
unfolding put_parameters
length-put_parameters [] = omega arith
length-put_parameters ((name, value) ∷ ps) = omega (
  arith,
  length-put_parameters ps,
  length-append name (0 ∷ put_cstring value (put_parameters ps)),
  length-append value (0 ∷ put_parameters ps),
)

decode_cancel_key_lem :
    (key : CancelKey)
    → key.process_id < 4294967296
    → key.secret_key < 4294967296
    → decode_cancel_key (to_be_bytes key.process_id ++ to_be_bytes key.secret_key) ≡ ok key
unfolding decode_cancel_key
decode_cancel_key_lem key p s =
    rw (from_be_bytes-to_be_bytes key.process_id p, from_be_bytes-to_be_bytes key.secret_key s) refl

from_code-to_code :
    (v : ProtocolVersion)
    → v.major < 65536
    → v.minor < 65536
    → from_code (v.major / 256 % 256) (v.major % 256) (v.minor / 256 % 256) (v.minor % 256) ≡ v
from_code-to_code v a b =
    let major : v.major / 256 % 256 * 256 + v.major % 256 ≡ v.major = omega arith in
    let minor : v.minor / 256 % 256 * 256 + v.minor % 256 ≡ v.minor = omega arith in
    rw (major, minor) refl

-- No message of the supported version has the code of another request.
decode_startup_lem :
    (is_utf8 : List ℕ → Bool) (a b c d : ℕ) (rest : List ℕ)
    → a * 256 + b ≡ 3
    → c < 256
    → d < 256
    → decode_startup is_utf8 (a ∷ b ∷ c ∷ d ∷ rest)
      ≡ decode_version is_utf8 (from_be_bytes a b c d) (from_code a b c d) rest
unfolding decode_startup
decode_startup_lem is_utf8 a b c d rest v hc hd =
    let none_ssl : (from_be_bytes a b c d == 80877103) ≡ false = ground arith in
    let none_gss : (from_be_bytes a b c d == 80877104) ≡ false = ground arith in
    let none_cancel : (from_be_bytes a b c d == 80877102) ≡ false = ground arith in
    rw (none_ssl, none_gss, none_cancel) refl

decode_version_lem :
    (is_utf8 : List ℕ → Bool) (code : ℕ) (version : ProtocolVersion) (rest : List ℕ)
    (ps : List (Text × Text))
    → version.major ≡ 3
    → decode_parameters is_utf8 rest ≡ ok ps
    → decode_version is_utf8 code version rest
      ≡ ok (startup record { version = version; parameters = ps })
unfolding decode_version
decode_version_lem is_utf8 code version rest ps v e =
    let special : (version.major == 1234) ≡ false = ground arith in
    let supported : (version.major == 3) ≡ true = ground arith in rw (special, supported, e) refl

-- Any request that can be written is read back as it was: an SSL or GSS request, a key of two
-- `i32`, or a message of major version 3 whose texts are UTF-8 without the byte 0 and whose
-- parameter names are not empty.
pub decode_startup-startup_body :
    (is_utf8 : List ℕ → Bool) (request : StartupRequest)
    → IsWritable is_utf8 request
    → decode_startup is_utf8 (startup_body request) ≡ ok request
unfolding decode_startup startup_body
decode_startup-startup_body is_utf8 ssl w = refl
decode_startup-startup_body is_utf8 gss_enc w = refl
decode_startup-startup_body is_utf8 (cancel key) (p, s) = rw (decode_cancel_key_lem key p s) refl
decode_startup-startup_body is_utf8 (startup m) (v, n, ps) =
    let major : m.version.major / 256 % 256 * 256 + m.version.major % 256 ≡ 3 = omega arith in
    decode_startup_lem is_utf8 (m.version.major / 256 % 256) (m.version.major % 256)
      (m.version.minor / 256 % 256) (m.version.minor % 256) (put_parameters m.parameters) major
      (omega arith) (omega arith)
    ∙ decode_version_lem is_utf8 _ _ (put_parameters m.parameters) m.parameters major
        (decode_from-put_parameters is_utf8 _ m.parameters (length-put_parameters m.parameters) ps)
    ∙ ap (λ v. ok (startup record { version = v; parameters = m.parameters }))
        (from_code-to_code m.version (omega arith) n)
