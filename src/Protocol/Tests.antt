-- ===== src/Protocol/Tests.antt =====
-- The theorems on the protocol applied to concrete bytes and conversations.
use pg_steward.Base.{inl, Bool, true, All}
use pg_steward.Base.{ℕ, ◌≡◌, refl, false, not, ◌&&◌, ◌==◌, List, [], ◌∷◌, ◌++◌, some, ok, arith}
use pg_steward.Protocol.Message.{
  parse_ready_for_query, ready_for_query, query, parse, sync, idle, transaction_status,
}
use pg_steward.Protocol.Listen.{has_listen, scan}
use pg_steward.Protocol.Listen.Scan.{scan-fuel}
use pg_steward.Protocol.Listen.Tokens.{
  Token, gap, comment, semicolon, word, quoted, text_of, listens,
}
use pg_steward.Protocol.Listen.Statements.{has_listen_lem}
use pg_steward.Protocol.Framing.{Frame, encode_frame, decode_frame, body_len_from_header}
use pg_steward.Protocol.Framing.Roundtrip.{decode_frame-encode_frame, encode_frame-decode_frame}
use pg_steward.Base.Order.{text_ord}
use pg_steward.Base.Map.{lookup}
use pg_steward.Base.{none}
use pg_steward.Protocol.Message.{bind}
use pg_steward.Protocol.Startup.{cut_zero}
use pg_steward.Protocol.Frontend.{
  new_statements, discard_until_sync, reject, decode_bind, cstr, on_bind, judge,
}
use pg_steward.Protocol.Frontend.Window.{judge_all, skips, judge_all-reject}
use pg_steward.Protocol.Startup.{startup, StartupMessage, decode_startup, startup_body}
use pg_steward.Protocol.Startup.Roundtrip.{decode_startup-startup_body, IsParameter}
use pg_steward.Protocol.Ready.{
  new_tracker, may_release, is_idle, on_frontend, on_backend, ReadyTracker,
}
use pg_steward.Protocol.Ready.Trace.{
  Event, sent, received, run, requests, answers, ends, open_after, status_after, may_release-run,
}

-- ReadyForQuery with the status `I`, and the first byte of another message.
abbrev ready_bytes : List ℕ
ready_bytes = 90 ∷ 0 ∷ 0 ∷ 0 ∷ 5 ∷ 73 ∷ []

abbrev stream : List ℕ
stream = ready_bytes ++ 67 ∷ []

abbrev ready_frame : Frame
ready_frame = record { tag = 90; body = 73 ∷ [] }

stream_frame : decode_frame stream 64 ≡ (67 ∷ [], ok (some ready_frame))
unfolding decode_frame body_len_from_header
stream_frame = refl

decode_frame-encode_frame_example :
    (bytes : List ℕ) × (encode_frame 90 (73 ∷ []) [] ≡ some bytes)
    × (decode_frame (bytes ++ 67 ∷ []) 64
        ≡ (67 ∷ [], ok (some record { tag = 90; body = 73 ∷ [] })))
decode_frame-encode_frame_example =
    decode_frame-encode_frame 90 (73 ∷ []) (67 ∷ []) 64 (omega arith) (omega arith)

encode_frame-decode_frame_example :
    (bytes : List ℕ) × (encode_frame ready_frame.tag ready_frame.body [] ≡ some bytes)
    × (bytes ++ 67 ∷ [] ≡ stream)
encode_frame-decode_frame_example =
    encode_frame-decode_frame stream (67 ∷ []) 64 ready_frame (omega arith) stream_frame

abbrev conversation : List Event
conversation = sent parse ∷ sent sync ∷ received ready_for_query (73 ∷ []) ∷ []

abbrev settled : ReadyTracker
settled = record { outstanding = 0; extended_open = false; status = idle; terminated = false }

run-conversation : run new_tracker conversation ≡ ok settled
unfolding run on_frontend on_backend parse_ready_for_query transaction_status
run-conversation = refl

may_release-run_example : may_release settled ≡ (
    not (ends conversation)
    && requests conversation == answers conversation
    && not (open_after false conversation)
    && is_idle (status_after idle conversation))
may_release-run_example = may_release-run conversation settled (omega arith) run-conversation

-- Version 3.0 with the user `u` of the database `d`, every byte string being text.
abbrev pub hello : StartupMessage
hello = record {
  version = record { major = 3; minor = 0 };
  parameters =
      (117 ∷ 115 ∷ 101 ∷ 114 ∷ [], 117 ∷ [])
      ∷ (100 ∷ 97 ∷ 116 ∷ 97 ∷ 98 ∷ 97 ∷ 115 ∷ 101 ∷ [], 100 ∷ [])
      ∷ [];
}

abbrev any_bytes : List ℕ → Bool
any_bytes _ = true

hello_texts : All (IsParameter any_bytes) hello.parameters
hello_texts =
    ((
      (omega arith, (omega arith, refl), (omega arith, refl)),
      ((omega arith, (omega arith, refl), (omega arith, refl)), tt),
    ))

decode_startup-startup_body_example :
    decode_startup any_bytes (startup_body (startup hello)) ≡ ok (startup hello)
decode_startup-startup_body_example =
    decode_startup-startup_body any_bytes (startup hello) (refl, omega arith, hello_texts)

-- A Bind of the unnamed portal to the statement `s`.
abbrev bind_s : List ℕ
bind_s = 0 ∷ 115 ∷ 0 ∷ []

bind_refused :
    judge any_bytes new_statements bind bind_s
    ≡ (discard_until_sync new_statements, ok (reject (115 ∷ [])))
unfolding judge on_bind decode_bind cstr cut_zero lookup
bind_refused = refl

judge_all-reject_example :
    (decode_bind any_bytes bind_s ≡ ok (115 ∷ []))
    × (lookup (115 ∷ []) new_statements.parsed ≡ none)
    × (judge_all any_bytes (discard_until_sync new_statements) ((query, []) ∷ (sync, []) ∷ [])
        ≡ (new_statements, skips ((query, []) ∷ [])))
judge_all-reject_example =
    judge_all-reject any_bytes new_statements (discard_until_sync new_statements) bind_s (115 ∷ [])
      ((query, []) ∷ []) [] refl bind_refused (refl, tt)

-- A quote in quotes, a comment that says `listen`, and then LISTEN as the second statement.
abbrev two_statements : List Token
two_statements =
    quoted 39 (39 ∷ [])
    ∷ semicolon
    ∷ comment (108 ∷ 105 ∷ 115 ∷ 116 ∷ 101 ∷ 110 ∷ [])
    ∷ gap 32
    ∷ word 76 (105 ∷ 83 ∷ 116 ∷ 101 ∷ 110 ∷ [])
    ∷ []

has_listen_lem_example : has_listen (text_of two_statements) ≡ listens true two_statements
has_listen_lem_example = has_listen_lem two_statements (
  inl refl,
  refl,
  (
    tt,
    refl,
    (
      (refl, (refl, (refl, (refl, (refl, (refl, tt)))))),
      refl,
      (refl, refl, ((refl, (refl, (refl, (refl, (refl, (refl, (refl, tt))))))), refl, tt)),
    ),
  ),
)

finds : listens true two_statements ≡ true
finds = refl

scan-fuel_example :
    (answer : Bool) × (scan 30 [] (text_of two_statements) true ≡ some answer)
    × (scan 50 [] (text_of two_statements) true ≡ some answer)
scan-fuel_example = scan-fuel 30 50 [] (text_of two_statements) true (omega arith) (omega arith)
