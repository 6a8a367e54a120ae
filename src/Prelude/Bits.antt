-- ===== src/Prelude/Bits.antt =====
-- `&`, `|` and `~` with masks, as arithmetic, at every width.
mod Step
pub mod Single
pub mod Fields
pub mod Masks
pub mod Words
