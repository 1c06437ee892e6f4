-- ===== src/Player.antt =====
-- Private/Player: the player's controller.
pub mod Input
