-- ===== src/State.antt =====
-- src/ipe/runtime/state.py: the runtime state in a database. A table is a dict from its primary
-- key to the rest of a row, in the order of insertion; the two backends run the same statements.
-- Times are whole milliseconds.
pub mod Admission
pub mod Transactions
pub mod Spool
pub mod KeyValue
pub mod Managers
