-- ===== src/Scanner.antt =====
-- The file-system scanner of collect/scanner.py.
pub mod Files
pub mod Policy
pub mod Descend
pub mod Rows
pub mod Machine
pub mod Steps
pub mod Root
pub mod Turns
pub mod Running
pub mod Preserve
pub mod PreserveEntries
pub mod Loop
pub mod Outcome
pub mod Scanned
pub mod Failed
