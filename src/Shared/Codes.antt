-- ===== src/Shared/Codes.antt =====
-- internal/domain/shared/errors.go: what the codes of errors tell.
use cloud_lab_gateway.Common.{
  ◌≡◌, ◌≢◌, refl, sym, ◌∙◌, Option, none, some, str_eq, eq_iff, false, if◌then◌else◌, String, arith,
}
use cloud_lab_gateway.Shared.Errors.{
  Sentinel, Err, is, as_transition, error_code, same, code_of, Sentinel-discrete,
}

-- The error under all layers of `%w`.
abbrev pub cause : Err → Err
cause (Err.wrapped _ e) = cause e
cause e = e

-- The code of each sentinel.
abbrev pub listed_code : Sentinel → String
listed_code Sentinel.not_found = "ERR_NOT_FOUND"
listed_code Sentinel.unauthorized = "ERR_UNAUTHORIZED"
listed_code Sentinel.forbidden = "ERR_FORBIDDEN"
listed_code Sentinel.pool_empty = "ERR_POOL_EMPTY"
listed_code Sentinel.quota_exceeded = "ERR_QUOTA_EXCEEDED"
listed_code Sentinel.lab_already_active = "ERR_LAB_ALREADY_ACTIVE"
listed_code Sentinel.cloud_unavailable = "ERR_CLOUD_UNAVAILABLE"
listed_code Sentinel.lms_unavailable = "ERR_LMS_UNAVAILABLE"
listed_code Sentinel.invalid_input = "ERR_INVALID_INPUT"
listed_code Sentinel.secret_mismatch = "ERR_INTERNAL"
listed_code Sentinel.idempotency_clash = "ERR_IDEMPOTENCY"

abbrev pub cause_code : Err → String
cause_code (Err.sentinel s) = listed_code s
cause_code (Err.invalid_transition _ _ _) = "ERR_INVALID_TRANSITION"
cause_code (Err.wrapped _ _) = "ERR_INTERNAL"
cause_code (Err.external _) = "ERR_INTERNAL"

-- The same sentinel, or two refused transitions.
abbrev pub SameCause : Err → Err → Type 0
SameCause (Err.sentinel s) (Err.sentinel t) = s ≡ t
SameCause (Err.invalid_transition _ _ _) (Err.invalid_transition _ _ _) = Unit
SameCause _ _ = ⊥

is-cause : (e : Err) (s : Sentinel) → is e s ≡ is (cause e) s
unfolding is
is-cause (Err.wrapped m e) s = is-cause e s
is-cause e s = refl

error_code-cause : (e : Err) → error_code (some e) ≡ cause_code (cause e)
unfolding error_code code_of is as_transition same Sentinel-discrete
error_code-cause (Err.wrapped m e) = error_code-cause e
error_code-cause (Err.sentinel s) = ground arith
error_code-cause e = ground arith

abbrev sentinel_of : String → Option Sentinel
sentinel_of c =
    if str_eq c "ERR_NOT_FOUND"
    then some Sentinel.not_found
    else if str_eq c "ERR_UNAUTHORIZED"
    then some Sentinel.unauthorized
    else if str_eq c "ERR_FORBIDDEN"
    then some Sentinel.forbidden
    else if str_eq c "ERR_POOL_EMPTY"
    then some Sentinel.pool_empty
    else if str_eq c "ERR_QUOTA_EXCEEDED"
    then some Sentinel.quota_exceeded
    else if str_eq c "ERR_LAB_ALREADY_ACTIVE"
    then some Sentinel.lab_already_active
    else if str_eq c "ERR_CLOUD_UNAVAILABLE"
    then some Sentinel.cloud_unavailable
    else if str_eq c "ERR_LMS_UNAVAILABLE"
    then some Sentinel.lms_unavailable
    else if str_eq c "ERR_INVALID_INPUT"
    then some Sentinel.invalid_input
    else if str_eq c "ERR_IDEMPOTENCY"
    then some Sentinel.idempotency_clash
    else none

sentinel_of-listed_code :
    (s : Sentinel) → listed_code s ≢ "ERR_INTERNAL" → sentinel_of (listed_code s) ≡ some s
sentinel_of-listed_code Sentinel.secret_mismatch k = absurd (k refl)
sentinel_of-listed_code s k = refl

listed_code_apart :
    (s t : Sentinel) → listed_code s ≡ listed_code t → listed_code s ≢ "ERR_INTERNAL" → s ≡ t
listed_code_apart s t h k =
    let l = sentinel_of-listed_code s k in
    let r = sentinel_of-listed_code t (λ e. k (h ∙ e)) in ground (arith, l, r, h)

not_transition : (s : Sentinel) → str_eq (listed_code s) "ERR_INVALID_TRANSITION" ≡ false
not_transition Sentinel.not_found = refl
not_transition s = refl

listed_code-no_transition : (s : Sentinel) → listed_code s ≢ "ERR_INVALID_TRANSITION"
listed_code-no_transition s h =
    ground (arith, not_transition s, eq_iff (listed_code s) "ERR_INVALID_TRANSITION", h)

same_cause :
    (e f : Err)
    → cause_code (cause e) ≡ cause_code (cause f)
    → cause_code (cause e) ≢ "ERR_INTERNAL"
    → SameCause (cause e) (cause f)
same_cause (Err.wrapped m e) f h k = same_cause e f h k
same_cause (Err.sentinel s) (Err.wrapped m f) h k = same_cause (Err.sentinel s) f h k
same_cause (Err.invalid_transition a b c) (Err.wrapped m f) h k =
    same_cause (Err.invalid_transition a b c) f h k
same_cause (Err.external a) f h k = absurd (k refl)
same_cause (Err.sentinel s) (Err.sentinel t) h k = listed_code_apart s t h k
same_cause (Err.sentinel s) (Err.invalid_transition a b c) h k =
    absurd (listed_code-no_transition s h)
same_cause (Err.sentinel s) (Err.external a) h k = absurd (k h)
same_cause (Err.invalid_transition a b c) (Err.sentinel s) h k =
    absurd (listed_code-no_transition s (sym h))
same_cause (Err.invalid_transition a b c) (Err.invalid_transition _ _ _) h k = tt
same_cause (Err.invalid_transition a b c) (Err.external _) h k = absurd (k h)

-- The code of an error, however many times it is wrapped, is the one listed for its cause: its own for each
-- sentinel but the mismatch of a secret, one for refused transitions, and ERR_INTERNAL for the others. So two
-- errors with the same code, other than ERR_INTERNAL, have the same sentinel as their cause, or both a refused
-- transition.
pub error_code-cause_code :
    (e f : Err)
    → (error_code (some e) ≡ cause_code (cause e))
      × (error_code (some e) ≡ error_code (some f)
          → error_code (some e) ≢ "ERR_INTERNAL"
          → SameCause (cause e) (cause f))
error_code-cause_code e f =
    let c = error_code-cause e in
    let d = error_code-cause f in (c, λ h k. same_cause e f (sym c ∙ h ∙ d) (λ i. k (c ∙ i)))
