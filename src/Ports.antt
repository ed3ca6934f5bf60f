-- ===== src/Ports.antt =====
-- internal/ports: what the use cases call and do not implement, the storage, the queue, the cloud,
-- the secrets, the checker and the clock. A call is answered by the environment, which may take
-- the whole history of calls into account and may refuse any of them; nothing more is assumed.
mod Calls
mod Answers
mod Monad
pub mod Traces
pub mod Samples
pub use Calls.*
pub use Answers.*
pub use Monad.*
unfoldable pub use Monad.{with_tx}
