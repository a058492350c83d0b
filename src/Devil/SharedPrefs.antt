-- ===== src/Devil/SharedPrefs.antt =====
-- devil/android/sdk/shared_prefs.py: the elements of a preferences document, the collection over
-- it, and what is loaded from a device and committed to it.
pub mod Elements
pub mod Collection
pub mod Commit
mod Tests
