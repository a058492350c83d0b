-- ===== src/Battor.antt =====
-- common/battor/battor/battor_wrapper.py: the wrapper of the shell that talks to a BattOr.
pub mod Text
pub mod Path
pub mod Wrapper
pub mod Running
mod Tests
