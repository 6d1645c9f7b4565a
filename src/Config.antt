-- ===== src/Config.antt =====
-- pkg/config: the module that loads the configuration, reloads it, and names its keys.
pub mod Reload
pub mod Watch
pub mod Keys
pub mod Files
pub mod Init
mod Tests
