-- ===== src/Ability/Spells/Examples.antt =====
-- Tests of the model of abilities, slots and spell points.
use unreal5_gas.Base.{◌≡◌, refl, ◌⊎◌, ap, true, false, some, [], ◌∷◌, arith}
use unreal5_gas.Base.Int.{pos}
use unreal5_gas.Ability.Spells.{
  unlocked, equipped, input, status, Spec, Component, has_tag, get_input_tag_from_spec,
  get_status_from_spec, ability_has_slot, first_spec, server_equip_ability,
}
use unreal5_gas.Ability.Spells.Slots.{IsOrderly, holders}
use unreal5_gas.Ability.Spells.Equip.{IsEquipped, server_equip_ability-IsEquipped}
use unreal5_gas.Ability.Spells.Statuses.{
  AllGiven, update_ability_statuses, update_ability_statuses-AllGiven,
}
use unreal5_gas.Ability.Spells.Points.{should_enable_buttons, should_enable_buttons-IsEquipped}

-- Fire bolt, 1, in slot 5; electrocute, 2, is unlocked.
abbrev pub fire_bolt : Spec
fire_bolt = record {
  ability_tag = 1;
  level = 3;
  dynamic_ability_tags = input 5 ∷ status equipped ∷ [];
}

abbrev pub electrocute : Spec
electrocute = record { ability_tag = 2; level = 1; dynamic_ability_tags = status unlocked ∷ [] }

abbrev pub mage : Component
mage = record {
  activatable_abilities = fire_bolt ∷ electrocute ∷ [];
  ability_information =
      record { ability_tag = 1; ability = some 1; is_passive_type = false; level_requirement = 1 }
      ∷ record { ability_tag = 3; ability = some 3; is_passive_type = true; level_requirement = 4 }
      ∷ [];
  spell_points = pos 0;
  calls = [];
}

pub mage-IsOrderly : IsOrderly mage.activatable_abilities
unfolding holders ability_has_slot has_tag get_input_tag_from_spec
mage-IsOrderly = record {
  one_holder = λ slot. ground arith;
  one_slot = (λ i held. ap input (ground arith), (λ i held. absurd (ground arith), tt));
}

server_equip_ability-IsEquipped_example :
    IsEquipped 2 5 mage.activatable_abilities (server_equip_ability 2 5 mage).activatable_abilities
unfolding first_spec get_status_from_spec
server_equip_ability-IsEquipped_example =
    server_equip_ability-IsEquipped 2 5 mage electrocute mage-IsOrderly refl refl

update_ability_statuses-AllGiven_example :
    AllGiven 4 mage.ability_information (update_ability_statuses 4 mage)
    × (update_ability_statuses 4 (update_ability_statuses 4 mage) ≡ update_ability_statuses 4 mage)
update_ability_statuses-AllGiven_example =
    update_ability_statuses-AllGiven 4 mage (refl, (refl, tt))

should_enable_buttons-IsEquipped_example :
    let enabled =
      (should_enable_buttons (get_status_from_spec electrocute.dynamic_ability_tags) (pos 2)).1 in
    let after = (server_equip_ability 2 5 mage).activatable_abilities in
    ((enabled ≡ true) × IsEquipped 2 5 mage.activatable_abilities after)
    ⊎ ((enabled ≡ false) × (after ≡ mage.activatable_abilities))
unfolding first_spec
should_enable_buttons-IsEquipped_example =
    should_enable_buttons-IsEquipped 2 5 (pos 2) mage electrocute mage-IsOrderly refl
