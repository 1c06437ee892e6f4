-- ===== src/Combat/Damage/Ignored.antt =====
-- ExecCalc_Damage.cpp: what the damage does not depend on.
use unreal5_gas.Base.{ℕ, ◌≡◌, Option, some, List}
use unreal5_gas.Ability.Context.{Engine}
use unreal5_gas.Combat.Numbers.{Numbers}
use unreal5_gas.Combat.Library.{Tags, Handle, Spec}
use unreal5_gas.Combat.Damage.{
  Captured, Coefficients, Rolls, Avatar, level_of, determine_debuff, typed_damage, critical_damage,
  execute,
}
use unreal5_gas.Combat.Damage.Bounds.{plain_damage, context_of, execute_levels}

module _ {e : Engine} (tags : Tags e) (n : Numbers e.Float) where
  -- A block and the target's resistance against critical hits change no damage: the damage is the
  -- same whatever they are.
  pub execute-block_ignored :
      (captured : Captured e.Float) (k : Coefficients e.Float) (rolls : Rolls)
      (broadcast : e.Float → List e.Float) (source target : Avatar) (source_level target_level : ℕ)
      (spec : Spec e) (block_chance critical_hit_resistance : Option e.Float) (block : ℕ)
      → level_of source ≡ some source_level
      → level_of target ≡ some target_level
      → (damage : e.Float) × (h other : Handle e) × (execute tags n captured k rolls broadcast
            source target spec
          ≡ some (damage, h))
        × (execute tags n
              (record captured {
                block_chance = block_chance;
                critical_hit_resistance = critical_hit_resistance;
              })
              k
              (record rolls { block = block })
              broadcast
              source
              target
              spec
            ≡ some (damage, other))
  unfolding determine_debuff typed_damage
  execute-block_ignored captured k rolls broadcast source target source_level target_level spec
        block_chance critical_hit_resistance block from to =
      let captured' = record captured {
        block_chance = block_chance;
        critical_hit_resistance = critical_hit_resistance;
      } in
      let rolls' = record rolls { block = block } in
      (
        critical_damage tags n captured rolls
            (plain_damage tags n captured k rolls broadcast source_level target_level spec),
        context_of tags n captured rolls spec,
        context_of tags n captured' rolls' spec,
        execute_levels tags n captured k rolls broadcast source target source_level target_level
            spec from to,
        execute_levels tags n captured' k rolls' broadcast source target source_level target_level
            spec from to,
      )
