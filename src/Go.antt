-- ===== src/Go.antt =====
-- Go's `error` values and results. Of an error the plugin reads the text and what `errors.As` and
-- `errors.Is` find in its chain, so an error is the record of these findings.
pub mod Laws
use formae_plugin_aws.Prelude.{Bool, false, true, Option, none, some, List, Io, ◌++◌}
use formae_plugin_aws.Text.{Text}

-- The exception types of the Cloud Control SDK that the plugin looks for.
pub data CcException : Type 0 where
  already_exists client_token_conflict concurrent_modification : CcException
  concurrent_operation general_service handler_failure : CcException
  handler_internal_failure invalid_credentials invalid_request : CcException
  network_failure not_stabilized not_updatable private_type : CcException
  request_token_not_found resource_conflict resource_not_found : CcException
  service_internal_error service_limit_exceeded throttling : CcException
  type_not_found unsupported_action : CcException

-- smithy.APIError: `ErrorCode()` and whether `ErrorFault()` is FaultServer.
pub record ApiError : Type 0 where
  pub code : Text
  pub fault_server : Bool

pub record GoError : Type 0 where
  pub message : Text
  -- the first smithy.OperationError: `some none` if it wraps nothing, else the exception types that
  -- `errors.As` finds in the error it wraps
  pub operation_error : Option (Option (List CcException))
  -- the first smithy.APIError
  pub api_error : Option ApiError
  -- the first net.Error, and its Timeout()
  pub net_timeout : Option Bool
  -- errors.Is with context.Canceled or context.DeadlineExceeded
  pub is_context_error : Bool
  -- errors.As with a not-found exception of the client's own SDK
  pub is_missing : Bool

-- errors.New, and fmt.Errorf without a wrapped error
abbrev pub new_error : Text → GoError
new_error msg = record {
  message = msg;
  operation_error = none;
  api_error = none;
  net_timeout = none;
  is_context_error = false;
  is_missing = false;
}

-- fmt.Errorf with a prefix and a wrapped error, %w: the chain stays visible.
abbrev pub wrap_error : Text → GoError → GoError
wrap_error prefix e = record e { message = prefix ++ e.message }

-- What a call gives: the pair of a pointer, or nil, and an error, or nil; or it panics.
pub data Outcome {ℓ} (A : Type ℓ) : Type ℓ where
  returned : Option A → Option GoError → Outcome A
  panicked : Outcome A

-- An output that no caller looks at.
pub data NoOutput : Type 0 where
  no_output : NoOutput

abbrev pub succeed {ℓ} : {A : Type ℓ} → A → Outcome A
succeed a = returned (some a) none

abbrev pub fail {ℓ} : {A : Type ℓ} → GoError → Outcome A
fail e = returned none (some e)

-- The rest of a function after a call; a panic of the callee is one of the caller.
abbrev pub after {ℓ κ μ} :
    {W : Type ℓ} {A : Type κ} {B : Type μ}
    → Outcome A
    → (Option A → Option GoError → Io W (Outcome B))
    → Io W (Outcome B)
after (returned a e) k w = k a e w
after panicked k w = (panicked, w)

-- A pointer is used without a test for nil.
abbrev pub deref {ℓ κ μ} :
    {W : Type ℓ} {A : Type κ} {B : Type μ} → Option A → (A → Io W (Outcome B)) → Io W (Outcome B)
deref none k w = (panicked, w)
deref (some a) k w = k a w

-- if err != nil { return f(err) }
abbrev pub unless_error {ℓ κ} :
    {W : Type ℓ} {B : Type κ}
    → Option GoError
    → (GoError → Outcome B)
    → Io W (Outcome B)
    → Io W (Outcome B)
unless_error (some e) f k w = (f e, w)
unless_error none f k w = k w

-- _, err := m(); if err != nil { return f(err) }; and the rest.
unfoldable pub attempt {ℓ κ μ} :
    {W : Type ℓ} {A : Type κ} {B : Type μ}
    → Io W (Outcome A)
    → (GoError → Outcome B)
    → Io W (Outcome B)
    → Io W (Outcome B)
attempt m f k w = after (m w).0 (λ out err. unless_error err f k) (m w).1

-- out, err := m(); if err != nil { return f(err) }; and the rest uses *out.
unfoldable pub call {ℓ κ μ} :
    {W : Type ℓ} {A : Type κ} {B : Type μ}
    → Io W (Outcome A)
    → (GoError → Outcome B)
    → (A → Io W (Outcome B))
    → Io W (Outcome B)
call m f k w = after (m w).0 (λ out err. unless_error err f (deref out k)) (m w).1
