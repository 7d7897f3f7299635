-- ===== src/Runtime.antt =====
-- runtime.py: `TrustedAction`, the guarded route to a protected function.
pub mod Cover
pub mod Action
pub mod Execution
pub mod Invoke
pub mod Review
pub mod Operation
pub mod Calls
