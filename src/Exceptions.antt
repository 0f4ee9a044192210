-- ===== src/Exceptions.antt =====
-- Exception processing: the reading API, the PostgreSQL exception repository, the Redis job queue
-- and the worker, over one shared database and one stream.
pub mod Calls
pub mod Permitted
pub mod Repository
pub mod Queue
pub mod Accept
pub mod Process
pub mod Model
pub mod Runtime
pub mod Lifecycle
pub mod Ordering
pub mod Run
mod Examples
