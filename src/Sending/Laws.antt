-- ===== src/Sending/Laws.antt =====
-- When a failed send may be tried again, and what it says of the message and of the channel.
use Prim.Native.String.{String}
use whatsapp_os.Prelude.{
  ℕ, ◌≡◌, refl, ◌∙◌, Bool, true, false, not, Option, none, some, Bool-cases, inl, inr,
}
use whatsapp_os.Sending.{
  FailureKind, http, transport, malformed, MetaGraphFailure, Caught, is_never_sent_transport_code,
  extract_transport_code, transport_failure, SendError, rate_limit_error, business_rule_error,
  validation_error, not_configured_error, app_error, plain_error, other_value, SendFailureClass,
  not_sent_retryable, SendFailure, classify_transport, classify_http, classify_failure,
  classify_send_failure, credentials_rejected, is_server_error,
}

-- Meta throttled the request, or no connection opened for it.
abbrev pub was_turned_away : SendError → Bool
was_turned_away (rate_limit_error message wait) = true
was_turned_away (app_error message code (some failure)) = elim failure.kind [
  | transport ↦ not failure.request_possibly_sent
  | _ ↦ false
]
was_turned_away _ = false

abbrev pub is_retryable : SendFailureClass → Bool
is_retryable not_sent_retryable = true
is_retryable _ = false

not-not : (b : Bool) → not (not b) ≡ b
not-not true = refl
not-not false = refl

abbrev Agrees : SendFailure → Bool → Type 0
Agrees failure b = (failure.retryable ≡ b) × (is_retryable failure.classification ≡ b)

classify_http_final :
    (show : ℕ → String) (message : Option String) (failure : MetaGraphFailure)
    → Agrees (classify_http show message failure) false
unfolding classify_http
classify_http_final show message failure = elim (Bool-cases (credentials_rejected failure)) [
  | inl rejected ↦ rw (classify_http, rejected) ((refl, refl))
  | inr accepted ↦ elim (Bool-cases (is_server_error failure)) [
    | inl broken ↦ rw (classify_http, accepted) (rw broken ((refl, refl)))
    | inr refused ↦ rw (classify_http, accepted) (rw refused ((refl, refl)))
  ]
]

classify_failure_retryable :
    (show : ℕ → String) (message : Option String) (failure : MetaGraphFailure) (kind : FailureKind)
    → Agrees
        (classify_failure show message kind failure)
        (elim kind [ transport ↦ not failure.request_possibly_sent | _ ↦ false ])
unfolding classify_failure classify_transport
classify_failure_retryable show message failure http = classify_http_final show message failure
classify_failure_retryable show message failure malformed = (refl, refl)
classify_failure_retryable show message failure transport =
    elim (Bool-cases failure.request_possibly_sent) [
      | inl sent ↦ rw sent ((refl, refl))
      | inr unsent ↦ rw unsent ((refl, refl))
    ]

-- A retry is allowed exactly where Meta throttled the request or no connection opened for it, and the
-- class agrees.
pub classify_send_failure_retryable :
    (show : ℕ → String) (error : SendError)
    → ((classify_send_failure show error).retryable ≡ was_turned_away error)
      × (is_retryable (classify_send_failure show error).classification ≡ was_turned_away error)
unfolding classify_send_failure
classify_send_failure_retryable show (rate_limit_error message wait) = (refl, refl)
classify_send_failure_retryable show (business_rule_error message) = (refl, refl)
classify_send_failure_retryable show (validation_error message) = (refl, refl)
classify_send_failure_retryable show (not_configured_error message) = (refl, refl)
classify_send_failure_retryable show (app_error message code none) = (refl, refl)
classify_send_failure_retryable show (app_error message code (some failure)) =
    classify_failure_retryable show message failure failure.kind
classify_send_failure_retryable show (plain_error message) = (refl, refl)
classify_send_failure_retryable show other_value = (refl, refl)

-- A send that broke in transport is tried again exactly where the code that was caught is one that
-- a connection never opened with; without a code, it is not.
pub transport_failure_retryable :
    (show : ℕ → String) (message : Option String) (code : String) (error : Caught)
    → (classify_send_failure show
        (app_error message code (some (transport_failure error)))).retryable
      ≡ is_never_sent_transport_code (extract_transport_code error)
unfolding transport_failure
transport_failure_retryable show message code error =
    let retried =
      classify_send_failure_retryable show
        (app_error message code (some (transport_failure error))) in
    retried.0 ∙ not-not (is_never_sent_transport_code (extract_transport_code error))
