-- ===== src/PyUtils.antt =====
-- common/py_utils/py_utils/__init__.py: waiting for a condition.
pub mod Clock
pub mod WaitFor
mod Tests
