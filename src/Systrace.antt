-- ===== src/Systrace.antt =====
-- The tracing controller of systrace/systrace, and its own agent.
pub mod Controller
mod Tests
