-- ===== src/Http/Failure.antt =====
-- Failures of requests, from frontend/lib/request-failure.ts: how a response, a body and a thrown
-- value become a `RequestFailure`.
use lexi_go.Common.{
  ℕ, Bool, Option, none, some, [], ◌++◌, Text, codes, leb, ◌==◌, if◌then◌else◌, is_nonempty, trim,
  get_or,
}
use lexi_go.Common.Decimal.{show}
use lexi_go.Http.Response.{Response}
use lexi_go.Json.{Value, str, obj, Fields, get_field}

pub data RequestFailureKind : Type 0 where
  unauthorized forbidden offline timeout malformed server client unknown : RequestFailureKind

pub record RequestFailure : Type 0 where
  pub kind : RequestFailureKind
  pub message : Text
  pub status : ℕ
  pub code : Text
  pub field : Text
  pub correlation_id : Text

-- The constructor's defaults.
abbrev pub new_failure : RequestFailureKind → Text → RequestFailure
new_failure kind message = record {
  kind = kind;
  message = message;
  status = 0;
  code = codes "request_failed";
  field = [];
  correlation_id = [];
}

unfoldable pub failure_kind_for_status : ℕ → RequestFailureKind
failure_kind_for_status status =
    if status == 401
    then unauthorized
    else if status == 403
    then forbidden
    else if leb 500 status
    then server
    else if leb 400 status
    then client
    else unknown

pub record ErrorDetails : Type 0 where
  pub code : Text
  pub message : Text
  pub field : Text

abbrev pub no_details : ErrorDetails
no_details = record { code = codes "request_failed"; message = []; field = [] }

abbrev nested_error : Fields → Value → Fields
nested_error fs (obj nested) = nested
nested_error fs _ = fs

abbrev code_of : Value → Text
code_of (str s) = if is_nonempty (trim s) then s else codes "request_failed"
code_of _ = codes "request_failed"

abbrev trimmed_text : Value → Text
trimmed_text (str s) = trim s
trimmed_text _ = []

unfoldable pub error_details : Value → ErrorDetails
error_details (obj fs) =
    let nested = nested_error fs (get_field (codes "error") fs) in
    record {
      code = code_of (get_field (codes "code") nested);
      message = trimmed_text (get_field (codes "message") nested);
      field = trimmed_text (get_field (codes "field") nested);
    }
error_details _ = no_details

-- The details of the body; `none` is a body that is no JSON, which `failureFromResponse` catches.
abbrev body_details : Option Value → ErrorDetails
body_details none = no_details
body_details (some v) = error_details v

abbrev or_text : Text → Text → Text
or_text s d = if is_nonempty s then s else d

-- With the three headers in the order in which they are tried.
unfoldable pub failure_from_response :
    Response → Option Text → Option Text → Option Text → RequestFailure
unfolding error_details failure_kind_for_status
failure_from_response r request_id correlation traceparent =
    let details = body_details r.body in
    record {
      kind = failure_kind_for_status r.status;
      message = or_text details.message (codes "Request failed with status " ++ show r.status);
      status = r.status;
      code = details.code;
      field = details.field;
      correlation_id = get_or request_id (get_or correlation (get_or traceparent []));
    }

pub data Decoded : Type 0 where
  decoded : Value → Decoded
  refused : RequestFailure → Decoded

abbrev malformed_failure : Response → Text → Text → Decoded
malformed_failure r message code =
    refused (record (new_failure malformed message) { status = r.status; code = code })

decode_body : Response → (Value → Bool) → Text → Option Value → Decoded
decode_body r validator name none =
    malformed_failure r (name ++ codes " contains malformed JSON") (codes "malformed_json")
decode_body r validator name (some v) =
    if validator v
    then decoded v
    else malformed_failure r (name ++ codes " has an incompatible schema")
        (codes "invalid_response_schema")

unfoldable pub decode_json : Response → (Value → Bool) → Text → Decoded
unfolding decode_body
decode_json r validator name = decode_body r validator name r.body

-- A thrown value: a failure of ours, the `DOMException` of an abort, another `Error` with its
-- message, or anything else.
pub data Thrown : Type 0 where
  failure : RequestFailure → Thrown
  abort_error : Thrown
  other_error : Text → Thrown
  other_value : Thrown

unfoldable pub to_request_failure : Thrown → RequestFailure
to_request_failure (failure f) = f
to_request_failure abort_error = record (new_failure unknown (codes "Request was cancelled")) {
  code = codes "request_cancelled";
}
to_request_failure (other_error message) = new_failure unknown message
to_request_failure other_value = new_failure unknown (codes "Request failed")
