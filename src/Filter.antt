-- ===== src/Filter.antt =====
-- src/shared/http/api-exception.filter.ts: what the API answers to an exception. The texts of
-- messages are left out; where a message comes from is kept.
pub mod Answers
use geek_interview.Base.{
  ℕ, Bool, true, false, ◌&&◌, Option, none, some, List, leb, ◌==◌, if◌then◌else◌,
}
use geek_interview.Errors.{
  Exn, BusinessErrorCode, Details, business, http, voucher_policy, database, plain, bad_request,
}

-- What reaches the filter: what the services throw, the exception of the validation of a request,
-- and that of a health check without a database.
pub data Thrown : Type 0 where
  thrown : Exn → Thrown
  invalid_request : List ℕ → Thrown
  not_ready : Thrown

-- `getResponse()` of an `HttpException`: with a code, with a list of messages, with one message, or
-- without a message.
pub data ExceptionResponse : Type 0 where
  api_error : BusinessErrorCode → Details → ExceptionResponse
  messages : List ℕ → ExceptionResponse
  one_message : ExceptionResponse
  no_message : ExceptionResponse

pub record HttpException : Type 0 where
  pub status : ℕ
  pub response : ExceptionResponse

abbrev pub service_unavailable : ℕ
service_unavailable = 503

abbrev pub internal_server_error : ℕ
internal_server_error = 500

-- `exception instanceof HttpException`
abbrev pub http_exception_of : Exn → Option HttpException
http_exception_of (business code status details) =
    some (record { status = status; response = api_error code details })
http_exception_of (http status) = some (record { status = status; response = one_message })
http_exception_of (voucher_policy code) = none
http_exception_of (database e) = none
http_exception_of (plain message) = none

abbrev pub http_exception : Thrown → Option HttpException
http_exception (thrown e) = http_exception_of e
http_exception (invalid_request ms) = some (record { status = bad_request; response = messages ms })
http_exception not_ready = some (record { status = service_unavailable; response = no_message })

-- The codes of responses; `RATE_LIMITED` stands for the status and for the business error alike.
pub data ResponseCode : Type 0 where
  business_code : BusinessErrorCode → ResponseCode
  validation_error bad_request_code unauthorized_code forbidden_code not_found_code conflict_code
        rate_limited_code internal_error http_error :
      ResponseCode

pub data ResponseMessage : Type 0 where
  of_exception validation_failed unexpected_error : ResponseMessage
  status_name : ℕ → ResponseMessage

pub data ResponseDetails : Type 0 where
  nothing : ResponseDetails
  of_business : Details → ResponseDetails
  of_validation : List ℕ → ResponseDetails

pub record ErrorResponse : Type 0 where
  pub code : ResponseCode
  pub message : ResponseMessage
  pub details : ResponseDetails
  pub trace_id : ℕ

pub record ErrorAnswer : Type 0 where
  pub status : ℕ
  pub request_id_header : ℕ
  pub payload : ErrorResponse

abbrev pub status_of : Option HttpException → ℕ
status_of none = internal_server_error
status_of (some e) = e.status

unfoldable pub default_code : ℕ → ResponseCode
default_code status =
    if status == 400
    then bad_request_code
    else if status == 401
    then unauthorized_code
    else if status == 403
    then forbidden_code
    else if status == 404
    then not_found_code
    else if status == 409
    then conflict_code
    else if status == 429
    then rate_limited_code
    else if leb 500 status
    then internal_error
    else http_error

abbrev pub http_message : ExceptionResponse → ℕ → ResponseMessage
http_message (messages ms) status = validation_failed
http_message no_message status = status_name status
http_message _ status = of_exception

abbrev pub is_validation_response : ExceptionResponse → Bool
is_validation_response (messages ms) = true
is_validation_response _ = false

abbrev pub validation_details : ExceptionResponse → ResponseDetails
validation_details (messages ms) = of_validation ms
validation_details _ = nothing

abbrev pub default_payload : ExceptionResponse → ℕ → ℕ → ErrorResponse
default_payload response status trace_id =
    if (status == 400) && is_validation_response response
    then record {
      code = validation_error;
      message = validation_failed;
      details = validation_details response;
      trace_id = trace_id;
    }
    else record {
      code = default_code status;
      message = http_message response status;
      details = nothing;
      trace_id = trace_id;
    }

abbrev pub http_payload : ExceptionResponse → ℕ → ℕ → ErrorResponse
http_payload (api_error code details) status trace_id = record {
  code = business_code code;
  message = of_exception;
  details = of_business details;
  trace_id = trace_id;
}
http_payload response status trace_id = default_payload response status trace_id

unfoldable pub to_payload : Option HttpException → ℕ → ℕ → ErrorResponse
to_payload none status trace_id = record {
  code = internal_error;
  message = unexpected_error;
  details = nothing;
  trace_id = trace_id;
}
to_payload (some e) status trace_id = http_payload e.response status trace_id

-- `request.requestId ?? resolveRequestId(undefined)`, which draws a new id
abbrev pub trace_id_of : Option ℕ → ℕ → ℕ
trace_id_of none drawn = drawn
trace_id_of (some id) drawn = id

-- `catch`: the answer that is sent. Its log entry is left out.
unfoldable pub answer_error : Option ℕ → ℕ → Thrown → ErrorAnswer
answer_error request_id drawn exception =
    let e = http_exception exception in
    let trace_id = trace_id_of request_id drawn in
    record {
      status = status_of e;
      request_id_header = trace_id;
      payload = to_payload e (status_of e) trace_id;
    }
