-- ===== src/Hyper.antt =====
-- The HyperDoc browser (src/hyper): its scanner, macros and verbatim blocks, the stacks of groups and
-- items, and the input areas of a page.
pub mod Chains
pub mod Dialog
pub mod Groups
pub mod Input
pub mod Items
pub mod Lex
pub mod Macros
pub mod Verbatim
mod Tests
