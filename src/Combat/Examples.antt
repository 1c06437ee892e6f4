-- ===== src/Combat/Examples.antt =====
-- Tests of the model of the fight, over natural numbers.
use unreal5_gas.Base.{
  ℕ, ◌≡◌, refl, ◌⊎◌, inr, true, false, Option, none, some, List, [], ◌∷◌, if◌then◌else◌, ◌==◌,
}
use unreal5_gas.Ability.Context.Samples.{engine, fresh}
use unreal5_gas.Combat.Numbers.{IsWithin}
use unreal5_gas.Combat.Natural.{natural}
use unreal5_gas.Combat.Library.{
  DamageType, arcane, lightning, physical, fire, damage_types, Tags, Directions, Handle, Spec,
  DamageEffectParams, apply_damage_effect,
}
use unreal5_gas.Combat.Damage.{
  Captured, Coefficients, Rolls, or_value, is_critical, determine_debuff, execute,
}
use unreal5_gas.Combat.Damage.Bounds.{raw_damage, execute-IsBounded}
use unreal5_gas.Combat.Damage.Ignored.{execute-block_ignored}
use unreal5_gas.Combat.Damage.Debuffs.{carried, with_debuff, chance_left, determine_debuff-apply}
use unreal5_gas.Combat.Attributes.{Character, incoming_damage, Effect, apply_effects}
use unreal5_gas.Combat.Attributes.Health.{count}
use unreal5_gas.Combat.Attributes.Death.{IsSound, apply_effects-IsSound}
use unreal5_gas.Base.Unique.{has_key}
use unreal5_gas.Combat.Targets.{get_closest_targets}
use unreal5_gas.Combat.Targets.Picked.{IsClosest, get_closest_targets-IsClosest}

abbrev tag_number : DamageType → ℕ
tag_number arcane = 1
tag_number lightning = 2
tag_number physical = 3
tag_number fire = 4

abbrev type_of_number : ℕ → Option DamageType
type_of_number n =
    if n == 1
    then some arcane
    else (if n == 2 then some lightning else (if n == 3 then some physical else some fire))

type_of_tag_number : (t : DamageType) → type_of_number (tag_number t) ≡ some t
type_of_tag_number arcane = refl
type_of_tag_number lightning = refl
type_of_tag_number physical = refl
type_of_tag_number fire = refl

abbrev tags : Tags engine
tags = record { tag_of = tag_number; type_of = type_of_number; type_of_tag = type_of_tag_number }

abbrev directions : Directions engine
directions = record { normalize = λ v. v; scale = λ v f. v; is_nearly_zero = λ v. v == 0 }

-- A fire bolt of 40, with a debuff.
abbrev bolt : DamageEffectParams engine
bolt = record {
  base_damage = 40;
  ability_level = 3;
  damage_type = fire;
  debuff_chance = 90;
  debuff_damage = 5;
  debuff_duration = 6;
  debuff_frequency = 1;
  death_impulse_magnitude = 60;
  death_impulse = 2;
  knockback_force_magnitude = 0;
  knockback_force = 0;
  is_radial_damage = false;
  radial_damage_inner_radius = 0;
  radial_damage_outer_radius = 0;
  radial_damage_origin = 0;
}

abbrev spec : Spec engine
spec = apply_damage_effect engine bolt (some fresh)

-- A target that resists half of the fire, with some armor.
abbrev captured : Captured ℕ
captured = record {
  resistance = λ t. some 50;
  block_chance = some 100;
  armor = some 10;
  armor_penetration = none;
  critical_hit_chance = some 20;
  critical_hit_resistance = none;
  critical_hit_damage = some 15;
}

abbrev curves : Coefficients ℕ
curves = record {
  armor_penetration = λ level. 1;
  effective_armor = λ level. 1;
  critical_hit_resistance = λ level. 1;
}

abbrev rolls : Rolls
rolls = record { debuff = λ t. 30; block = 100; critical_hit = 7 }

abbrev no_blast : ℕ → List ℕ
no_blast f = []

execute-IsBounded_example :
    (plain : ℕ) × (damage : ℕ) × (h : Handle engine) × (execute tags natural captured curves rolls
        no_blast
        (some (some 5))
        (some none)
        spec
      ≡ some (damage, h))
    × IsWithin natural plain (raw_damage tags natural spec damage_types 0)
    × (damage ≡ (
        if is_critical tags natural captured rolls
        then natural.add
            (natural.mul 2 plain)
            (natural.max (or_value 0 captured.critical_hit_damage) 0)
        else plain))
execute-IsBounded_example =
    execute-IsBounded tags natural captured curves rolls no_blast (some (some 5)) (some none) 5 1
      spec refl refl (λ f. tt) (refl, refl)

execute-block_ignored_example :
    (damage : ℕ) × (h other : Handle engine) × (execute tags natural captured curves rolls no_blast
        (some (some 5))
        (some none)
        spec
      ≡ some (damage, h))
    × (execute tags natural
          (record captured { block_chance = none; critical_hit_resistance = some 40 })
          curves
          (record rolls { block = 1 })
          no_blast
          (some (some 5))
          (some none)
          spec
        ≡ some (damage, other))
execute-block_ignored_example =
    execute-block_ignored tags natural captured curves rolls no_blast (some (some 5)) (some none) 5
      1 spec none (some 40) 1 refl refl

determine_debuff-apply_example :
    let result =
      determine_debuff tags natural captured spec rolls.debuff damage_types spec.context in
    let chance = chance_left tags natural 90 (some 50) in
    ((natural.le 40 natural.minus_half ≡ false)
      × (natural.le chance 30 ≡ false)
      × (result ≡ some (with_debuff tags natural bolt (carried tags natural bolt fresh))))
    ⊎ (((natural.le 40 natural.minus_half ≡ true) ⊎ (natural.le chance 30 ≡ true))
        × (result ≡ some (carried tags natural bolt fresh)))
determine_debuff-apply_example =
    determine_debuff-apply tags natural captured bolt fresh rolls.debuff

-- The draw of 30 is below the chance of 45.
determine_debuff_drawn :
    determine_debuff tags natural captured spec rolls.debuff damage_types spec.context
    ≡ some (with_debuff tags natural bolt (carried tags natural bolt fresh))
unfolding determine_debuff
determine_debuff_drawn = refl

abbrev goblin : Character engine
goblin = record {
  attributes = record {
    health = 50;
    mana = 10;
    max_health = 60;
    max_mana = 10;
    incoming_damage = 0;
    incoming_xp = 0;
    top_off_health = false;
    top_off_mana = false;
  };
  dead = false;
  is_being_shocked = false;
  xp_reward = 25;
  events = [];
}

abbrev hit : Effect tags natural directions
hit = record {
  parties = record {
    source = some 1;
    target = some 2;
    source_is_player = true;
    target_is_player = false;
  };
  context = some (record fresh { is_successful_debuff = true; damage_type = some 4 });
  attribute = incoming_damage;
  magnitude = 30;
}

goblin-IsSound : IsSound tags natural directions goblin
unfolding count
goblin-IsSound = record {
  vital = record { health_within = (refl, refl); mana_within = (refl, refl) };
  deaths = refl;
  rewards = refl;
}

-- The second hit kills, and the third changes nothing.
apply_effects-IsSound_example :
    (c' : Character engine) × (apply_effects tags natural directions (hit ∷ hit ∷ hit ∷ []) goblin
      ≡ some c')
    × IsSound tags natural directions c'
apply_effects-IsSound_example =
    apply_effects-IsSound tags natural directions (hit ∷ hit ∷ hit ∷ []) goblin
      (inr (fire, refl), (inr (fire, refl), (inr (fire, refl), tt))) goblin-IsSound

-- Actors 1 to 3 at distances 9, 4 and 6.
abbrev far : ℕ → ℕ
far a = if a == 1 then 9 else (if a == 2 then 4 else 6)

get_closest_targets-IsClosest_example :
    IsClosest far 2 (1 ∷ 2 ∷ 3 ∷ []) (get_closest_targets 2 far (1 ∷ 2 ∷ 3 ∷ []))
unfolding has_key
get_closest_targets-IsClosest_example =
    get_closest_targets-IsClosest 2 far (1 ∷ 2 ∷ 3 ∷ []) (refl, (refl, (refl, tt)))
