-- ===== src/Ability/Passive/Examples.antt =====
-- Tests of the model of the passive effects.
use unreal5_gas.Base.{◌≡◌, refl, ap, subst, true, false, Option, none, some, [], ◌∷◌, arith, All}
use unreal5_gas.Base.Int.{pos}
use unreal5_gas.Ability.Spells.{
  unlocked, equipped, input, status, Spec, Component, has_tag, get_input_tag_from_spec,
  get_status_from_spec, multicast_activate_passive_effect, get_spec_from_ability_tag,
  ability_has_slot, first_spec, clear_slot, remove_tag, is_passive_ability, server_equip_ability,
}
use unreal5_gas.Ability.Spells.Slots.{OneSlot}
use unreal5_gas.Ability.Passive.{
  PassiveNiagara, passive_begin_play, hear, hear_all, debuff_tag_changed,
}
use unreal5_gas.Ability.Passive.Steps.{Follows}
use unreal5_gas.Ability.Passive.Following.{server_equip_ability-Follows}

-- Two passive abilities: the halo, 1, in slot 5, and the siphon, 2, which is unlocked.
abbrev halo : Spec
halo = record { ability_tag = 1; level = 1; dynamic_ability_tags = input 5 ∷ status equipped ∷ [] }

abbrev siphon : Spec
siphon = record { ability_tag = 2; level = 1; dynamic_ability_tags = status unlocked ∷ [] }

abbrev saint : Component
saint = record {
  activatable_abilities = halo ∷ siphon ∷ [];
  ability_information =
      record { ability_tag = 1; ability = some 1; is_passive_type = true; level_requirement = 1 }
      ∷ record { ability_tag = 2; ability = some 2; is_passive_type = true; level_requirement = 1 }
      ∷ [];
  spell_points = pos 0;
  calls = [];
}

abbrev glow : PassiveNiagara
glow = record { passive_spell_tag = 1; is_active = true; is_bound = true }

abbrev found_or_halo : Option Spec → Spec
found_or_halo none = halo
found_or_halo (some s) = s

saint-OneSlot : All OneSlot saint.activatable_abilities
unfolding has_tag get_input_tag_from_spec
saint-OneSlot = (λ i held. ap input (ground arith), (λ i held. absurd (ground arith), tt))

server_equip_ability-Follows_example : Follows glow (server_equip_ability 2 5 saint)
unfolding first_spec ability_has_slot has_tag is_passive_ability hear_all get_input_tag_from_spec
server_equip_ability-Follows_example =
    server_equip_ability-Follows glow refl 2 5 saint saint-OneSlot refl
      (λ a e.
        subst (λ x. get_spec_from_ability_tag x.ability_tag saint ≡ some x) (ap found_or_halo e)
          refl)
      refl

-- A second activation in a row ends an effect.
hear_all_twice :
    (hear_all
      (multicast_activate_passive_effect 1 true ∷ multicast_activate_passive_effect 1 true ∷ [])
      (record glow { is_active = false })).is_active
    ≡ false
unfolding hear_all hear
hear_all_twice = refl

-- The status of an ability whose slot was cleared is still equipped, and its effect starts with the
-- next `BeginPlay`.
passive_begin_play_cleared :
    (passive_begin_play true
      (record saint { activatable_abilities = clear_slot halo ∷ siphon ∷ [] })
      (record glow { is_active = false })).is_active
    ≡ true
unfolding passive_begin_play clear_slot remove_tag get_input_tag_from_spec first_spec
    get_status_from_spec
passive_begin_play_cleared = refl

debuff_tag_changed_dead : debuff_tag_changed (pos 1) true false ≡ false
unfolding debuff_tag_changed
debuff_tag_changed_dead = refl
