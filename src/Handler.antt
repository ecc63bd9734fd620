-- ===== src/Handler.antt =====
-- What the handlers of include/brldb share.
pub mod Types
pub mod Loops
pub mod LoopLaws
pub mod Stored
pub mod Words
