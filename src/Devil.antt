-- ===== src/Devil.antt =====
-- Parts of devil: the flag changer, and retries.
pub mod Flags
pub mod SharedPrefs
pub mod CmdOutput
pub mod Forwarder
pub mod Retry
