-- ===== src/Ability/Context/Examples.antt =====
-- Tests of the model of AuraAbilityTypes.cpp, with an engine whose values are numbers.
use unreal5_gas.Base.{◌≡◌, refl, true, some, [], ◌∷◌}
use unreal5_gas.Ability.Context.{Context, save, load, save_if}
use unreal5_gas.Ability.Context.RoundTrip.{IsKept, load-save}
use unreal5_gas.Ability.Context.Samples.{engine, fresh}

-- A blast by actor 7 around the place 5.
abbrev blast : Context engine
blast = record fresh {
  instigator = some 7;
  is_critical_hit = true;
  damage_type = some 2;
  is_radial_damage = true;
  radial_damage_outer_radius = 300;
  radial_damage_origin = 5;
}

blast-IsKept : IsKept engine blast
blast-IsKept = record {
  instigator = tt;
  effect_causer = tt;
  ability_cdo = tt;
  source_object = tt;
  actors = refl;
  hit_result = tt;
  world_origin = tt;
  is_blocked_hit = tt;
  is_critical_hit = tt;
  is_successful_debuff = tt;
  debuff_damage = tt;
  debuff_duration = tt;
  debuff_frequency = tt;
  damage_type = tt;
  death_impulse = tt;
  knockback_force = tt;
  is_radial_damage = tt;
  inner = tt;
  outer = tt;
}

load-save_example :
    load engine fresh (save engine blast (99 ∷ []))
    ≡ some (record blast { radial_damage_origin = 0 }, 5 ∷ 99 ∷ [])
unfolding save_if
load-save_example = load-save engine blast fresh (99 ∷ []) blast-IsKept
