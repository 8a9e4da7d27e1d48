-- ===== src/Protocol/Message/Tags.antt =====
-- Tags and bytes (crates/protocol/src/message.rs) convert into each other.
use pg_steward.Base.{ℕ, ◌≡◌, refl, sym, ap, subst, ◌↔◌, List, [], ◌∷◌, ok, arith}
use pg_steward.Protocol.Message.{
  authentication, backend_key_data, bind_complete, close_complete, command_complete, copy_data,
  copy_done, copy_in_response, copy_out_response, copy_both_response, data_row,
  empty_query_response, error_response, function_call_response, negotiate_protocol_version, no_data,
  notice_response, notification_response, parameter_description, parameter_status, parse_complete,
  portal_suspended, ready_for_query, row_description, bind, close, copy_data_in, copy_done_in,
  copy_fail, describe, execute, flush, function_call, parse, password, query, sync, terminate,
  BackendTag, FrontendTag, TransactionStatus, MessageError, idle, in_transaction, failed,
  backend_byte, frontend_byte, all_backend, all_frontend, first_with, backend_tag, frontend_tag,
  status_byte, transaction_status, parse_ready_for_query, unknown_backend_tag, unknown_frontend_tag,
}

first_with-ok :
    {T : Type 0} (byte : T → ℕ) (ts : List T) (b : ℕ) (e : MessageError) (t : T)
    → first_with byte ts b e ≡ ok t
    → byte t ≡ b
first_with-ok byte [] b e t h = ground arith
first_with-ok byte (x ∷ ts) b e t h = ground (arith, first_with-ok byte ts b e t)

backend_tag-all : (t : BackendTag) → backend_tag (backend_byte t) ≡ ok t
unfolding backend_tag
backend_tag-all authentication = refl
backend_tag-all backend_key_data = refl
backend_tag-all bind_complete = refl
backend_tag-all close_complete = refl
backend_tag-all command_complete = refl
backend_tag-all copy_data = refl
backend_tag-all copy_done = refl
backend_tag-all copy_in_response = refl
backend_tag-all copy_out_response = refl
backend_tag-all copy_both_response = refl
backend_tag-all data_row = refl
backend_tag-all empty_query_response = refl
backend_tag-all error_response = refl
backend_tag-all function_call_response = refl
backend_tag-all negotiate_protocol_version = refl
backend_tag-all no_data = refl
backend_tag-all notice_response = refl
backend_tag-all notification_response = refl
backend_tag-all parameter_description = refl
backend_tag-all parameter_status = refl
backend_tag-all parse_complete = refl
backend_tag-all portal_suspended = refl
backend_tag-all ready_for_query = refl
backend_tag-all row_description = refl

frontend_tag-all : (t : FrontendTag) → frontend_tag (frontend_byte t) ≡ ok t
unfolding frontend_tag
frontend_tag-all bind = refl
frontend_tag-all close = refl
frontend_tag-all copy_data_in = refl
frontend_tag-all copy_done_in = refl
frontend_tag-all copy_fail = refl
frontend_tag-all describe = refl
frontend_tag-all execute = refl
frontend_tag-all flush = refl
frontend_tag-all function_call = refl
frontend_tag-all parse = refl
frontend_tag-all password = refl
frontend_tag-all query = refl
frontend_tag-all sync = refl
frontend_tag-all terminate = refl

-- A byte converts to a backend tag exactly when it is the byte of that tag.
pub backend_tag-backend_byte : (b : ℕ) (t : BackendTag) → backend_tag b ≡ ok t ↔ backend_byte t ≡ b
unfolding backend_tag
backend_tag-backend_byte b t = (
  first_with-ok backend_byte all_backend b (unknown_backend_tag b) t,
  λ e. subst (λ x. backend_tag x ≡ ok t) e (backend_tag-all t),
)

-- A byte converts to a frontend tag exactly when it is the byte of that tag.
pub frontend_tag-frontend_byte :
    (b : ℕ) (t : FrontendTag) → frontend_tag b ≡ ok t ↔ frontend_byte t ≡ b
unfolding frontend_tag
frontend_tag-frontend_byte b t = (
  first_with-ok frontend_byte all_frontend b (unknown_frontend_tag b) t,
  λ e. subst (λ x. frontend_tag x ≡ ok t) e (frontend_tag-all t),
)

status-all : (t : TransactionStatus) → transaction_status (status_byte t) ≡ ok t
unfolding transaction_status
status-all idle = refl
status-all in_transaction = refl
status-all failed = refl

status-only : (b : ℕ) (t : TransactionStatus) → transaction_status b ≡ ok t → status_byte t ≡ b
unfolding transaction_status
status-only b idle h = ground arith
status-only b in_transaction h = ground arith
status-only b failed h = ground arith

cons_head : {x y : ℕ} → x ∷ [] ≡ y ∷ [] → x ≡ y
cons_head e = cc

-- A body of ReadyForQuery is read as a transaction status exactly when it is the one byte of it.
pub parse_ready_for_query-status_byte :
    (body : List ℕ) (t : TransactionStatus)
    → parse_ready_for_query body ≡ ok t ↔ body ≡ status_byte t ∷ []
unfolding parse_ready_for_query
parse_ready_for_query-status_byte (b ∷ []) t = (
  λ e. ap (λ x. x ∷ []) (sym (status-only b t e)),
  λ e. subst (λ x. transaction_status x ≡ ok t) (sym (cons_head e)) (status-all t),
)
parse_ready_for_query-status_byte [] t = (λ e. ground arith, λ e. ground arith)
parse_ready_for_query-status_byte (_ ∷ _ ∷ _) t = (λ e. ground arith, λ e. ground arith)
