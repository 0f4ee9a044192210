-- ===== src/Effects.antt =====
-- Asynchronous code as a tree of the calls it awaits: each `await` that reaches a database, a
-- queue or a provider is one `call`, and the program continues with any answer it may get.
-- An exception is `raise`; `attempt` is the `try` whose handler follows by cases.
pub mod Tree
pub mod Guarantee
pub mod Interference
pub mod Pool
pub mod Failure
pub mod Each
pub use Tree.*
unfoldable pub use Each.{each}
pub use Each.{Maps, each-Maps, each_returns}
