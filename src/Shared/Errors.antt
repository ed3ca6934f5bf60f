-- ===== src/Shared/Errors.antt =====
-- internal/domain/shared/errors.go: the sentinel errors, the error of the state machines, errors
-- that wrap others by `%w`, and the code that the user interface matches.
use cloud_lab_gateway.Common.{Bool, true, false, Option, none, some, String, ◌⧺◌, if◌then◌else◌}

pub data Sentinel : Type 0 where
  not_found unauthorized forbidden pool_empty quota_exceeded lab_already_active : Sentinel
  cloud_unavailable lms_unavailable invalid_input secret_mismatch idempotency_clash : Sentinel

-- `wrapped m e` is `fmt.Errorf("m: %w", e)`; `external m` is an error of a library, with no
-- sentinel and no transition in its chain.
pub data Err : Type 0 where
  sentinel : Sentinel → Err
  invalid_transition : String → String → String → Err
  wrapped : String → Err → Err
  external : String → Err

unfoldable pub Sentinel-discrete : Discrete Sentinel
Sentinel-discrete = hlevel

unfoldable pub same : Sentinel → Sentinel → Bool
same a b = elim (Sentinel-discrete a b) [ yes _ ↦ true | no _ ↦ false ]

sentinel_text : Sentinel → String
sentinel_text Sentinel.not_found = "not found"
sentinel_text Sentinel.unauthorized = "unauthorized"
sentinel_text Sentinel.forbidden = "forbidden"
sentinel_text Sentinel.pool_empty = "pool: no free projects available"
sentinel_text Sentinel.quota_exceeded = "quota: cluster utilization exceeds threshold"
sentinel_text Sentinel.lab_already_active = "lab: student already has an active lab in this course"
sentinel_text Sentinel.cloud_unavailable = "cloud provider unavailable"
sentinel_text Sentinel.lms_unavailable = "LMS unavailable"
sentinel_text Sentinel.invalid_input = "invalid input"
sentinel_text Sentinel.secret_mismatch = "secret AAD mismatch"
sentinel_text Sentinel.idempotency_clash = "idempotency clash: conflicting request with same key"

-- `err.Error()`
unfoldable pub error_text : Err → String
unfolding sentinel_text
error_text (sentinel s) = sentinel_text s
error_text (invalid_transition entity from to) =
    entity ⧺ ": invalid transition " ⧺ from ⧺ " → " ⧺ to
error_text (wrapped m e) = m ⧺ ": " ⧺ error_text e
error_text (external m) = m

-- `errors.Is` against a sentinel
unfoldable pub is : Err → Sentinel → Bool
unfolding same Sentinel-discrete
is (sentinel a) b = same a b
is (invalid_transition _ _ _) b = false
is (wrapped _ e) b = is e b
is (external _) b = false

-- `errors.As` into an ErrInvalidTransition
unfoldable pub as_transition : Err → Bool
as_transition (sentinel _) = false
as_transition (invalid_transition _ _ _) = true
as_transition (wrapped _ e) = as_transition e
as_transition (external _) = false

unfoldable pub code_of : Err → String
unfolding is as_transition
code_of e =
    if is e Sentinel.not_found
    then "ERR_NOT_FOUND"
    else if is e Sentinel.unauthorized
    then "ERR_UNAUTHORIZED"
    else if is e Sentinel.forbidden
    then "ERR_FORBIDDEN"
    else if is e Sentinel.pool_empty
    then "ERR_POOL_EMPTY"
    else if is e Sentinel.quota_exceeded
    then "ERR_QUOTA_EXCEEDED"
    else if is e Sentinel.lab_already_active
    then "ERR_LAB_ALREADY_ACTIVE"
    else if is e Sentinel.cloud_unavailable
    then "ERR_CLOUD_UNAVAILABLE"
    else if is e Sentinel.lms_unavailable
    then "ERR_LMS_UNAVAILABLE"
    else if is e Sentinel.invalid_input
    then "ERR_INVALID_INPUT"
    else if is e Sentinel.idempotency_clash
    then "ERR_IDEMPOTENCY"
    else if as_transition e
    then "ERR_INVALID_TRANSITION"
    else "ERR_INTERNAL"

unfoldable pub error_code : Option Err → String
unfolding code_of
error_code none = ""
error_code (some e) = code_of e
