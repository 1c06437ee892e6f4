-- ===== src/Ability.antt =====
-- The abilities of the game Aura: experience, spells and effects.
pub mod Context
pub mod EffectActor
pub mod Experience
pub mod Passive
pub mod Spells
