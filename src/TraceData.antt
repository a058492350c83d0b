-- ===== src/TraceData.antt =====
-- tracing/tracing/trace_data/trace_data.py: the traces of several agents, collected in one object.
pub mod Json
pub mod Handle
pub mod Builder
pub mod Traces
pub mod Create
mod Tests
