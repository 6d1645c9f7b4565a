-- ===== src/Runtime.antt =====
-- pkg/lakta: the runtime that orders, initializes, starts and shuts down the modules.
pub mod Module
mod Samples
pub mod Sort
pub mod Info
pub mod Stop
pub mod Boot
pub mod Context
mod Tests
