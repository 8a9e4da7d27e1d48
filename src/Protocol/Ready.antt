-- ===== src/Protocol/Ready.antt =====
-- crates/protocol/src/ready.rs: the tracker that says when a server connection may be released.
-- `outstanding` is a `u32` and wraps at 2 ^ 32.
pub mod Trace
use pg_steward.Base.{
  ℕ, ◌+◌, ◌-◌, ◌%◌, Bool, true, false, not, ◌&&◌, Option, none, some, List, if◌then◌else◌, ◌==◌,
  Result, err, ok,
}
use pg_steward.Protocol.Message.{
  BackendTag, FrontendTag, TransactionStatus, MessageError, parse_ready_for_query, query,
  function_call, sync, parse, bind, describe, execute, close, flush, terminate, copy_data_in,
  copy_done_in, copy_fail, password, ready_for_query, idle, in_transaction, failed, backend_byte,
}

pub data TrackerError : Type 0 where
  unexpected_ready_for_query : TrackerError
  message : MessageError → TrackerError

pub record ReadyTracker : Type 0 where
  pub outstanding : ℕ
  pub extended_open : Bool
  pub status : TransactionStatus
  pub terminated : Bool

abbrev pub new_tracker : ReadyTracker
new_tracker = record { outstanding = 0; extended_open = false; status = idle; terminated = false }

abbrev asked : ReadyTracker → ReadyTracker
asked t = record t { outstanding = (t.outstanding + 1) % 4294967296 }

abbrev extended : ReadyTracker → ReadyTracker
extended t = record t { extended_open = true }

unfoldable pub on_frontend : ReadyTracker → FrontendTag → ReadyTracker
on_frontend t query = asked t
on_frontend t function_call = asked t
on_frontend t sync = record (asked t) { extended_open = false }
on_frontend t parse = extended t
on_frontend t bind = extended t
on_frontend t describe = extended t
on_frontend t execute = extended t
on_frontend t close = extended t
on_frontend t flush = extended t
on_frontend t terminate = record t { terminated = true }
on_frontend t copy_data_in = t
on_frontend t copy_done_in = t
on_frontend t copy_fail = t
on_frontend t password = t

abbrev pub is_ready_for_query : BackendTag → Bool
is_ready_for_query tag = backend_byte tag == backend_byte ready_for_query

abbrev pub BackendResult : Type 0
BackendResult = Result TrackerError (ReadyTracker × Option TransactionStatus)

unfoldable pub on_backend : ReadyTracker → BackendTag → List ℕ → BackendResult
on_backend t tag body =
    if not (is_ready_for_query tag)
    then ok (t, none)
    else if t.outstanding == 0
    then err unexpected_ready_for_query
    else elim (parse_ready_for_query body) [
      | err e ↦ err (message e)
      | ok status ↦ ok (record t { outstanding = t.outstanding - 1; status = status }, some status)
    ]

abbrev pub is_idle : TransactionStatus → Bool
is_idle idle = true
is_idle in_transaction = false
is_idle failed = false

unfoldable pub may_release : ReadyTracker → Bool
may_release t = not t.terminated && t.outstanding == 0 && not t.extended_open && is_idle t.status
