-- ===== src/Combat.antt =====
-- Private/AbilitySystem, the fight: the effect of damage from the ability that causes it to the health
-- that it takes.
pub mod Numbers
pub mod Natural
pub mod Library
pub mod Damage
pub mod Attributes
pub mod Targets
pub mod Examples
