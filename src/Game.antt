-- ===== src/Game.antt =====
-- Private/Game, Private/Checkpoint and Private/UI/ViewModel: saved games, their slots and the load screen.
pub mod Slots
pub mod Samples
pub mod World
pub mod LoadScreen
pub mod Progress
pub mod Checkpoint
pub mod Examples
