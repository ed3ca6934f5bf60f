-- ===== src/Shared/Tests.antt =====
-- internal/domain/shared/errors.go: a twice wrapped error as a test.
use cloud_lab_gateway.Common.{◌≡◌, ◌≢◌, some}
use cloud_lab_gateway.Shared.Errors.{Sentinel, Err, error_code}
use cloud_lab_gateway.Shared.Codes.{SameCause, error_code-cause_code}

abbrev bare : Err
bare = Err.sentinel Sentinel.pool_empty

abbrev layered : Err
layered = Err.wrapped "create lab" (Err.wrapped "pool: allocate" bare)

error_code-cause_code_example :
    (error_code (some layered) ≡ "ERR_POOL_EMPTY")
    × (error_code (some layered) ≡ error_code (some bare)
        → error_code (some layered) ≢ "ERR_INTERNAL"
        → SameCause bare bare)
error_code-cause_code_example = error_code-cause_code layered bare
