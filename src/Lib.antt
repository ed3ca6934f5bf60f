-- ===== src/Lib.antt =====
-- Verification of the cloud lab gateway: the lives of labs and of the cloud projects they rent.
--
-- A student asks for a lab; a project of a pool is rented to it; the deploy saga builds the stand in
-- that project; checks run against it; the cleanup saga tears it down and returns the project. The
-- use cases under internal/app drive the aggregates under internal/domain and reach the storage, the
-- queue, the cloud and the secrets by the interfaces of internal/ports.
--
-- Which file models which part:
--   * Shared: internal/domain/shared. Errors are values (`Err`) with the layers of `%w`; a call that
--     may fail or panic ends in an `Outcome`. Shared/Quantities: vo.go, whose int64 sums wrap and whose
--     float64 is a parameter.
--   * Lab, Lab/State, Lab/Ops: internal/domain/lab. A method that changes `*LabInstance` takes a
--     record and returns the new one beside its error; `LabOp` is one call of a method as a value.
--   * Pool, Pool/Ops: internal/domain/pool, in the same way; saving and loading a project is one
--     more operation, for what internal/adapters/storage/pgxrepo/pool.go writes (Storage/Projects).
--   * Identity, Verify, Quota: the policy (policy.go), the run of a check (run.go), the guard
--     (guard.go), each under internal/domain.
--   * Ports: internal/ports and WithTx of internal/adapters/storage/pgxrepo/uow.go. A use case maps
--     the history of calls to a longer one. What is behind the ports is a record `Env` of functions
--     that answer a call, and may depend on the whole history and fail at any call. Ports/Traces
--     reads off a history what was stored and committed, and what the cloud deleted.
--   * Saving: the saves that the use cases share. Cleanup: internal/app/cleanup/saga.go, where
--     `run` is Deps.Run, cut at its stages.
--   * Requests: internal/app/lab/ops.go, the requests on labs (stop, freeze, unfreeze, extend, read, key;
--     Requests/Listing: the list), where `Deps` says which collaborators are wired.
--   * Creation: internal/app/lab/create.go, where `create_lab` is Deps.CreateLab, cut at the guard, the
--     transaction and the task. Checks: internal/app/verify/verify.go, the request of a run of a check
--     and its execution.
--   * Admin: internal/app/admin/admin.go and internal/app/quotarefresh/refresh.go.
--   * Deploy, Deploy/Topology: internal/app/deploy, where `run` is Deps.Run and `run_steps` its loop.
--   * Cloud: internal/adapters/cloud/inmem/provider.go, the cloud in memory, a record `Provider` and a
--     function for each method; `CloudOp` is one call. Its counter of identifiers does not wrap.
--   * Storage: internal/adapters/storage. Storage/Rows has the tables as lists of rows with what the
--     migrations demand of them; Storage/Columns the nullable columns and JSON; Storage/Labs,
--     Storage/Projects and Storage/Outbox the repositories of pgxrepo and the queries of sqlcgen that they
--     make; Storage/Events the events that a save writes. `World` is what the server decides.
--   * Outbox: internal/app/outbox/publisher.go, over Storage/Outbox and a bus that is given.
--   * Secrets: internal/adapters/secrets/envkek, over a given AES-GCM.
--   * Ansible: internal/adapters/checker/ansible, over a given machine that runs the process.
--   * Sse: internal/adapters/sse/broker.go, the fan-out of events to connected clients, each a number.
--   * Common: the names that all modules share. The files Tests under each part hold concrete cases.
--
-- Choices. Numbers are natural numbers, or integers where the source's can be negative; counters that
-- come from a column of 32 bits do not wrap. Instants are integers of nanoseconds. Identifiers are
-- numbers, and their texts are the environment's. A state is one of its constants, since the storage
-- admits no other text. All loops run over lists, so there is no fuel. Log lines, contexts and
-- cancellation are left out.
--
-- Where the code and a document differ, the theorems state what the code does. docs/SECURITY.md keeps the
-- settings to administrators; the policy and the operations of internal/app/admin open them to teachers. The
-- policy keeps the audit log to administrators; QueryAudit, which does not ask it, opens it to teachers.
--
-- Not modelled: the launch use case under internal/app; the other repositories of
-- internal/adapters/storage; the HTTP interface and the loop and writer of server-sent events of
-- internal/adapters; start-up under cmd. Clients of outside services (OpenStack, Redis, LTI) and
-- internal/adapters/httpapi/generated.go are out of scope.
pub mod Admin
pub mod Ansible
pub mod Common
pub mod Shared
pub mod Lab
pub mod Pool
pub mod Identity
pub mod Verify
pub mod Quota
pub mod Ports
pub mod Saving
pub mod Requests
pub mod Creation
pub mod Checks
pub mod Cloud
pub mod Storage
pub mod Outbox
pub mod Secrets
pub mod Sse
pub mod Cleanup
pub mod Deploy
