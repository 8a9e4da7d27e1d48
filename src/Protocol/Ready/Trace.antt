-- ===== src/Protocol/Ready/Trace.antt =====
-- The tracker of crates/protocol/src/ready.rs over a whole conversation.
use pg_steward.Base.{
  ℕ, ◌+◌, ◌<◌, ◌≡◌, refl, Bool, true, false, not, ◌&&◌, ◌||◌, Option, List, [], ◌∷◌, if◌then◌else◌,
  ◌==◌, Result, err, ok, Result-cases, Bool-cases, inl, inr, arith,
}
use pg_steward.Protocol.Message.{
  BackendTag, FrontendTag, TransactionStatus, parse_ready_for_query, query, function_call, sync,
  parse, bind, describe, execute, close, flush, terminate, idle,
}
use pg_steward.Protocol.Ready.{
  ReadyTracker, TrackerError, new_tracker, on_frontend, on_backend, is_ready_for_query, may_release,
  is_idle,
}

pub data Event : Type 0 where
  sent : FrontendTag → Event
  received : BackendTag → List ℕ → Event

-- What the proxy does with the tracker: it stops at the first error.
unfoldable pub run : ReadyTracker → List Event → Result TrackerError ReadyTracker
run t [] = ok t
run t (sent tag ∷ es) = run (on_frontend t tag) es
run t (received tag body ∷ es) = elim (on_backend t tag body) [
  | err e ↦ err e
  | ok (t', _) ↦ run t' es
]

abbrev asks : FrontendTag → ℕ
asks tag = elim tag [ query ↦ 1 | function_call ↦ 1 | sync ↦ 1 | _ ↦ 0 ]

-- The requests of a conversation that the server answers with ReadyForQuery, and those answers.
abbrev pub requests : List Event → ℕ
requests [] = 0
requests (sent tag ∷ es) = asks tag + requests es
requests (received tag body ∷ es) = requests es

abbrev pub answers : List Event → ℕ
answers [] = 0
answers (sent tag ∷ es) = answers es
answers (received tag body ∷ es) = if is_ready_for_query tag then 1 + answers es else answers es

abbrev is_terminate : FrontendTag → Bool
is_terminate tag = elim tag [ terminate ↦ true | _ ↦ false ]

abbrev pub ends : List Event → Bool
ends [] = false
ends (sent tag ∷ es) = is_terminate tag || ends es
ends (received tag body ∷ es) = ends es

-- Whether an extended query is open at the end, after the last Sync.
abbrev extends : FrontendTag → Bool → Bool
extends tag before = elim tag [
  | parse ↦ true
  | bind ↦ true
  | describe ↦ true
  | execute ↦ true
  | close ↦ true
  | flush ↦ true
  | sync ↦ false
  | _ ↦ before
]

abbrev pub open_after : Bool → List Event → Bool
open_after before [] = before
open_after before (sent tag ∷ es) = open_after (extends tag before) es
open_after before (received tag body ∷ es) = open_after before es

-- The status in the last ReadyForQuery.
abbrev status_in : TransactionStatus → List ℕ → TransactionStatus
status_in before body = elim (parse_ready_for_query body) [ err _ ↦ before | ok status ↦ status ]

abbrev pub status_after : TransactionStatus → List Event → TransactionStatus
status_after before [] = before
status_after before (sent tag ∷ es) = status_after before es
status_after before (received tag body ∷ es) =
    status_after (if is_ready_for_query tag then status_in before body else before) es

abbrev Tracks : ReadyTracker → List Event → ReadyTracker → Type 0
Tracks t es t' =
    (t'.outstanding + answers es ≡ t.outstanding + requests es)
    × (t'.terminated ≡ t.terminated || ends es)
    × (t'.extended_open ≡ open_after t.extended_open es)
    × (t'.status ≡ status_after t.status es)

on_frontend_lem :
    (t : ReadyTracker) (tag : FrontendTag)
    → t.outstanding + asks tag < 4294967296
    → ((on_frontend t tag).outstanding ≡ t.outstanding + asks tag)
      × ((on_frontend t tag).terminated ≡ t.terminated || is_terminate tag)
      × ((on_frontend t tag).extended_open ≡ extends tag t.extended_open)
      × ((on_frontend t tag).status ≡ t.status)
unfolding on_frontend
on_frontend_lem t tag h = elim tag [ terminate ↦ ground arith | _ ↦ ground arith ]

on_backend_lem :
    (t t' : ReadyTracker) (tag : BackendTag) (body : List ℕ) (answer : Option TransactionStatus)
    → on_backend t tag body ≡ ok (t', answer)
    → (t'.outstanding + (if is_ready_for_query tag then 1 else 0) ≡ t.outstanding)
      × (t'.terminated ≡ t.terminated)
      × (t'.extended_open ≡ t.extended_open)
      × (t'.status ≡ (if is_ready_for_query tag then status_in t.status body else t.status))
unfolding on_backend
on_backend_lem t t' tag body answer e = elim (Bool-cases (is_ready_for_query tag)) [
  | inr other ↦ ground arith
  | inl ready ↦ elim (Result-cases (parse_ready_for_query body)) [
    | inl (x, h) ↦ ground arith
    | inr (x, h) ↦ ground arith
  ]
]

or_assoc : (a b c : Bool) → (a || b) || c ≡ a || (b || c)
or_assoc true b c = refl
or_assoc false b c = refl

-- Whatever the tracker has seen before.
run-Tracks :
    (es : List Event) (t t' : ReadyTracker)
    → t.outstanding + requests es < 4294967296
    → run t es ≡ ok t'
    → Tracks t es t'
unfolding run
run-Tracks [] t t' h e = ground arith
run-Tracks (sent tag ∷ es) t t' h e =
    let (asked, ended, opened, status) = on_frontend_lem t tag (omega arith) in
    let (a, b, c, d) = run-Tracks es (on_frontend t tag) t' (omega arith) e in
    ground (arith, or_assoc t.terminated (is_terminate tag) (ends es))
run-Tracks (received tag body ∷ es) t t' h e = elim (Result-cases (on_backend t tag body)) [
  | inl (x, h) ↦ ground arith
  | inr ((t1, answer), b) ↦
      let (left, ended, opened, status) = on_backend_lem t t1 tag body answer b in
      let rest : run t1 es ≡ ok t' = ground arith in
      let (c, d, f, g) = run-Tracks es t1 t' (ground arith) rest in
      (ground arith, ground arith, ground arith, ground arith)
]

-- For a new tracker and a conversation that it follows without an error, with fewer than 2 ^ 32
-- requests: a release is allowed exactly when the client has not ended, every request has its
-- ReadyForQuery, no extended query is open after the last Sync, and the last status is idle.
pub may_release-run :
    (es : List Event) (t : ReadyTracker)
    → requests es < 4294967296
    → run new_tracker es ≡ ok t
    → may_release t ≡ (
        not (ends es)
        && requests es == answers es
        && not (open_after false es)
        && is_idle (status_after idle es))
unfolding may_release
may_release-run es t h e =
    let (a, b, c, d) = run-Tracks es new_tracker t (omega arith) e in
    let counts : (t.outstanding == 0) ≡ (requests es == answers es) = ground arith in
    rw (counts, b, c, d) refl
