-- ===== src/Clef/Line/Screen.antt =====
-- The row of the terminal on which the line is edited. The terminal is outside the program: it is
-- read as one that writes a character and steps on, steps back at a backspace, and stays at a bell.
pub mod Paint
pub mod Edits
pub mod Deletions
pub mod Typing
