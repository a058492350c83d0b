-- ===== src/Devil/Flags.antt =====
-- devil/android/flag_changer.py: the command line file of Chrome on a device.
pub mod Text
pub mod Loop
pub mod Quoting
pub mod RoundTrip
pub mod Lost
pub mod Strip
pub mod Lines
pub mod Sets
pub mod Changer
mod Tests
