-- ===== src/Clef/Line.antt =====
-- What the arrays of the editor stand for: a line of glyphs with a cursor between two of them.
pub mod Glyph
pub mod Echo
pub mod Delete
pub mod Move
pub mod Insert
pub mod Queue
pub mod Codes
pub mod Send
pub mod Rounds
pub mod Reading
pub mod Loading
pub mod Recall
pub mod Bounds
pub mod Screen
