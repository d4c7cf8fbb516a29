-- ===== src/Clef.antt =====
-- The line editor clef (src/clef, src/lib/edin.c, src/lib/prt.c, src/lib/fnct_key.c).
pub mod Key
pub mod State
pub mod Print
pub mod Insert
pub mod Ring
pub mod Lines
pub mod Completion
pub mod FunctionKeys
pub mod Reader
pub mod Line
mod Tests
