-- ===== src/Sending.antt =====
-- server/services/whatsapp/meta-failure.ts and server/services/whatsapp/send-failure.ts: what a send
-- that failed may have done, and whether it may be tried again.
pub mod Laws
mod Tests
use Prim.Native.String.{String, ◌++◌ as join}
use text.Mathlib.Text.{◌==◌ as str_eq}
use whatsapp_os.Prelude.{
  ℕ, zero, suc, Bool, true, false, not, ◌&&◌, ◌||◌, List, [], ◌∷◌, Option, none, some, leb, ◌==◌,
  any, or_else, if◌then◌else◌,
}

pub data FailureKind : Type 0 where
  http transport malformed : FailureKind

pub record MetaGraphFailure : Type 0 where
  pub kind : FailureKind
  pub status : Option ℕ
  pub meta_code : Option ℕ
  pub meta_subcode : Option ℕ
  pub request_possibly_sent : Bool
  pub transport_code : Option String

abbrev pub never_sent_codes : List String
never_sent_codes =
    "ECONNREFUSED" ∷ "ENOTFOUND" ∷ "EAI_AGAIN" ∷ "EHOSTUNREACH" ∷ "ENETUNREACH" ∷ "EADDRNOTAVAIL"
    ∷ "UND_ERR_CONNECT_TIMEOUT" ∷ "ERR_TLS_CERT_ALTNAME_INVALID" ∷ "DEPTH_ZERO_SELF_SIGNED_CERT"
    ∷ "UNABLE_TO_VERIFY_LEAF_SIGNATURE" ∷ "CERT_HAS_EXPIRED" ∷ []

unfoldable pub is_never_sent_transport_code : Option String → Bool
is_never_sent_transport_code none = false
is_never_sent_transport_code (some code) = any (str_eq code) never_sent_codes

-- A caught value, as far as its transport code is looked for: null or undefined, a value that is no
-- object, or an object with its code, its name, the first of its errors and its cause.
pub data Caught : Type 0 where
  nothing primitive : Caught
  object : Option String → String → Caught → Caught → Caught

abbrev pub nonempty : Option String → Bool
nonempty none = false
nonempty (some text) = not (str_eq text "")

-- From a depth that is left.
unfoldable pub extract_from : ℕ → Caught → Option String
extract_from depth nothing = none
extract_from depth primitive = none
extract_from zero (object code name first cause) = none
extract_from (suc depth) (object (some code) name first cause) = some code
extract_from (suc depth) (object none name first cause) =
    let nested = extract_from 5 first in
    let outer = extract_from depth cause in
    if str_eq name "AbortError" || str_eq name "TimeoutError"
    then some "ABORT_ERR"
    else if nonempty nested
    then nested
    else outer

unfoldable pub extract_transport_code : Caught → Option String
extract_transport_code = extract_from 5

unfoldable pub transport_failure : Caught → MetaGraphFailure
transport_failure error =
    let transport_code = extract_transport_code error in
    record {
      kind = transport;
      status = none;
      meta_code = none;
      meta_subcode = none;
      request_possibly_sent = not (is_never_sent_transport_code transport_code);
      transport_code = transport_code;
    }

-- What a send throws: the classes of server/errors that the classifier tells apart, another
-- `AppError` with its code and the failure in its cause, another `Error`, and any other value. Each
-- carries its message, none when it is blank.
pub data SendError : Type 0 where
  rate_limit_error : Option String → ℕ → SendError
  business_rule_error validation_error not_configured_error : Option String → SendError
  app_error : Option String → String → Option MetaGraphFailure → SendError
  plain_error : Option String → SendError
  other_value : SendError

pub data SendFailureClass : Type 0 where
  not_sent_retryable not_sent_permanent uncertain : SendFailureClass

pub record SendFailure : Type 0 where
  pub classification : SendFailureClass
  pub error_code : String
  pub error_message : String
  pub retry_after_seconds : Option ℕ
  pub retryable : Bool

unfoldable pub indicates_credential_failure : SendFailure → Bool
indicates_credential_failure failure = str_eq failure.error_code "META_CREDENTIALS_REJECTED"

abbrev permanent : String → String → SendFailure
permanent code message = record {
  classification = not_sent_permanent;
  error_code = code;
  error_message = message;
  retry_after_seconds = none;
  retryable = false;
}

abbrev unknown_outcome : String → String → SendFailure
unknown_outcome code message = record {
  classification = uncertain;
  error_code = code;
  error_message = message;
  retry_after_seconds = none;
  retryable = false;
}

abbrev auth_meta_codes : List ℕ
auth_meta_codes = 190 ∷ 10 ∷ []

abbrev is_code : Option ℕ → ℕ → Bool
is_code none n = false
is_code (some code) n = code == n

abbrev pub credentials_rejected : MetaGraphFailure → Bool
credentials_rejected failure =
    any (is_code failure.meta_code) auth_meta_codes
    || is_code failure.status 401
    || is_code failure.status 403

abbrev pub is_server_error : MetaGraphFailure → Bool
is_server_error failure = leb 500 (or_else failure.status 0)

-- `show` stands for JavaScript's printing of a number.
module _ (show : ℕ → String) where
  abbrev show_status : Option ℕ → String
  show_status none = "null"
  show_status (some status) = show status

  unfoldable pub classify_transport : MetaGraphFailure → SendFailure
  classify_transport failure =
      if not failure.request_possibly_sent
      then record {
        classification = not_sent_retryable;
        error_code = join "TRANSPORT_" (or_else failure.transport_code "UNREACHABLE");
        error_message =
            join "Could not reach Meta ("
              (join (or_else failure.transport_code "network error") "). Nothing was sent.");
        retry_after_seconds = none;
        retryable = true;
      }
      else unknown_outcome (join "TRANSPORT_" (or_else failure.transport_code "UNKNOWN")) (
          join "The connection to Meta broke after the message was sent (" (
            join (or_else failure.transport_code "network error")
              "). We cannot tell whether it was delivered."))

  -- A code of zero is no code, as zero is falsy.
  unfoldable pub refusal_code : MetaGraphFailure → String
  refusal_code failure =
      let code = or_else failure.meta_code 0 in
      if code == 0 then join "META_HTTP_" (show_status failure.status) else join "META_" (show code)

  unfoldable pub classify_http : Option String → MetaGraphFailure → SendFailure
  classify_http message failure =
      if credentials_rejected failure
      then permanent "META_CREDENTIALS_REJECTED"
          "Meta rejected our access to this number. Reconnect it in Settings."
      else if is_server_error failure
      then unknown_outcome (join "META_HTTP_" (show_status failure.status)) (
          join "Meta returned an error after receiving the message (HTTP "
            (join (show_status failure.status) "). We cannot tell whether it was delivered."))
      else permanent (refusal_code failure) (or_else message "Meta refused this message.")

  unfoldable pub classify_failure : Option String → FailureKind → MetaGraphFailure → SendFailure
  classify_failure message transport failure = classify_transport failure
  classify_failure message http failure = classify_http message failure
  classify_failure message malformed failure =
      unknown_outcome "META_UNREADABLE_RESPONSE"
        "Meta accepted the request but returned a response we could not read."

  unfoldable pub classify_send_failure : SendError → SendFailure
  classify_send_failure (rate_limit_error message wait) = record {
    classification = not_sent_retryable;
    error_code = "META_RATE_LIMITED";
    error_message = or_else message "Meta rate limit reached.";
    retry_after_seconds = some wait;
    retryable = true;
  }
  classify_send_failure (business_rule_error message) =
      permanent "BUSINESS_RULE_VIOLATION" (or_else message "This message is not allowed right now.")
  classify_send_failure (validation_error message) =
      permanent "META_REJECTED_REQUEST" (or_else message "Meta rejected this message.")
  classify_send_failure (not_configured_error message) =
      permanent "NOT_CONNECTED" (or_else message "This WhatsApp number is not connected.")
  classify_send_failure (app_error message code (some failure)) =
      classify_failure message failure.kind failure
  classify_send_failure (app_error message code none) =
      unknown_outcome code (or_else message "The send failed for an unrecognised reason.")
  classify_send_failure (plain_error message) =
      unknown_outcome "DISPATCH_ERROR"
        (or_else message "The send failed for an unrecognised reason.")
  classify_send_failure other_value =
      unknown_outcome "DISPATCH_ERROR" "The send failed for an unrecognised reason."
