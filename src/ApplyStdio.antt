-- ===== src/ApplyStdio.antt =====
-- apply-stdio/src/lib.rs: the messages of the pipeline and the view that they build up.
pub mod FlatView
pub mod AppView
pub mod Access
pub mod Phases
pub mod Frozen
pub mod Streams
pub mod Tests
