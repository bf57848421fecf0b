-- ===== src/Runtime.antt =====
-- The runtime kernel of src/purrcept_core: runs, the driver, executors, middleware and event sinks.
pub mod Exceptions
pub mod Run
pub mod Events
pub mod Driver
pub mod Executor
pub mod Middleware
