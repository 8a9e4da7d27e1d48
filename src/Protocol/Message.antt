-- ===== src/Protocol/Message.antt =====
-- crates/protocol/src/message.rs: the tags of messages and the status in ReadyForQuery. A byte in
-- a table below is the code of its character in the source.
pub mod Tags
use pg_steward.Base.{
  ℕ, zero, suc, ◌≡◌, refl, Bool, true, false, Option, none, some, List, [], ◌∷◌, if◌then◌else◌,
  ◌==◌, Result, err, ok, arith,
}

pub data BackendTag : Type 0 where
  authentication backend_key_data bind_complete close_complete command_complete copy_data copy_done
        copy_in_response copy_out_response copy_both_response data_row empty_query_response
        error_response function_call_response negotiate_protocol_version no_data notice_response
        notification_response parameter_description parameter_status parse_complete portal_suspended
        ready_for_query row_description :
      BackendTag

pub data FrontendTag : Type 0 where
  bind close copy_data_in copy_done_in copy_fail describe execute flush function_call parse password
        query sync terminate :
      FrontendTag

pub data TransactionStatus : Type 0 where
  idle in_transaction failed : TransactionStatus

pub data MessageError : Type 0 where
  unknown_backend_tag : ℕ → MessageError
  unknown_frontend_tag : ℕ → MessageError
  unknown_transaction_status : ℕ → MessageError
  malformed_body : BackendTag → MessageError

abbrev pub backend_byte : BackendTag → ℕ
backend_byte authentication = 82
backend_byte backend_key_data = 75
backend_byte bind_complete = 50
backend_byte close_complete = 51
backend_byte command_complete = 67
backend_byte copy_data = 100
backend_byte copy_done = 99
backend_byte copy_in_response = 71
backend_byte copy_out_response = 72
backend_byte copy_both_response = 87
backend_byte data_row = 68
backend_byte empty_query_response = 73
backend_byte error_response = 69
backend_byte function_call_response = 86
backend_byte negotiate_protocol_version = 118
backend_byte no_data = 110
backend_byte notice_response = 78
backend_byte notification_response = 65
backend_byte parameter_description = 116
backend_byte parameter_status = 83
backend_byte parse_complete = 49
backend_byte portal_suspended = 115
backend_byte ready_for_query = 90
backend_byte row_description = 84

abbrev pub frontend_byte : FrontendTag → ℕ
frontend_byte bind = 66
frontend_byte close = 67
frontend_byte copy_data_in = 100
frontend_byte copy_done_in = 99
frontend_byte copy_fail = 102
frontend_byte describe = 68
frontend_byte execute = 69
frontend_byte flush = 72
frontend_byte function_call = 70
frontend_byte parse = 80
frontend_byte password = 112
frontend_byte query = 81
frontend_byte sync = 83
frontend_byte terminate = 88

abbrev pub all_backend : List BackendTag
all_backend =
    authentication ∷ backend_key_data ∷ bind_complete ∷ close_complete ∷ command_complete
    ∷ copy_data ∷ copy_done ∷ copy_in_response ∷ copy_out_response ∷ copy_both_response ∷ data_row
    ∷ empty_query_response ∷ error_response ∷ function_call_response ∷ negotiate_protocol_version
    ∷ no_data ∷ notice_response ∷ notification_response ∷ parameter_description ∷ parameter_status
    ∷ parse_complete ∷ portal_suspended ∷ ready_for_query ∷ row_description ∷ []

abbrev pub all_frontend : List FrontendTag
all_frontend =
    bind ∷ close ∷ copy_data_in ∷ copy_done_in ∷ copy_fail ∷ describe ∷ execute ∷ flush
    ∷ function_call ∷ parse ∷ password ∷ query ∷ sync ∷ terminate ∷ []

-- The arms of a `match` on a byte, in their order.
module _ {T : Type 0} where
  abbrev pub first_with : (T → ℕ) → List T → ℕ → MessageError → Result MessageError T
  first_with byte [] b e = err e
  first_with byte (t ∷ ts) b e = if byte t == b then ok t else first_with byte ts b e

unfoldable pub backend_tag : ℕ → Result MessageError BackendTag
backend_tag b = first_with backend_byte all_backend b (unknown_backend_tag b)

unfoldable pub frontend_tag : ℕ → Result MessageError FrontendTag
frontend_tag b = first_with frontend_byte all_frontend b (unknown_frontend_tag b)

abbrev pub status_byte : TransactionStatus → ℕ
status_byte idle = 73
status_byte in_transaction = 84
status_byte failed = 69

unfoldable pub transaction_status : ℕ → Result MessageError TransactionStatus
transaction_status b =
    if b == 73
    then ok idle
    else if b == 84
    then ok in_transaction
    else if b == 69
    then ok failed
    else err (unknown_transaction_status b)

unfoldable pub parse_ready_for_query : List ℕ → Result MessageError TransactionStatus
parse_ready_for_query (status ∷ []) = transaction_status status
parse_ready_for_query _ = err (malformed_body ready_for_query)
