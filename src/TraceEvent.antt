-- ===== src/TraceEvent.antt =====
-- The trace event log of common/py_trace_event.
pub mod Log
mod Tests
