-- ===== src/Menu/Examples.antt =====
-- Tests of the model of the spell menu.
use unreal5_gas.Base.{refl, true, false, some, [], ◌∷◌}
use unreal5_gas.Base.Int.{pos}
use unreal5_gas.Ability.Spells.{status, unlocked, first_spec, no_tag, get_status_from_spec}
use unreal5_gas.Ability.Spells.Equip.{IsEquipped}
use unreal5_gas.Ability.Spells.Examples.{electrocute, mage, mage-IsOrderly}
use unreal5_gas.Game.Slots.{offensive}
use unreal5_gas.Game.Progress.{find_ability_info_for_tag}
use unreal5_gas.Menu.{Menu, spell_row_globe_pressed}
use unreal5_gas.Menu.Equipping.{IsIdle, spell_row_globe_pressed-IsEquipped}

-- Electrocute is to be put where fire bolt is.
abbrev choosing : Menu
choosing = record {
  infos = record { ability_tag = 2; ability = some 2; ability_type = offensive } ∷ [];
  component = mage;
  selected_ability = some 2;
  selected_status = status unlocked;
  current_spell_points = pos 0;
  waiting_for_equip_selection = true;
  selected_slot = no_tag;
  spend_enabled = false;
  equip_enabled = true;
  shown = [];
}

spell_row_globe_pressed-IsEquipped_example :
    IsIdle (spell_row_globe_pressed 5 offensive choosing)
    × IsEquipped 2 5 mage.activatable_abilities
        (spell_row_globe_pressed 5 offensive choosing).component.activatable_abilities
unfolding first_spec get_status_from_spec find_ability_info_for_tag
spell_row_globe_pressed-IsEquipped_example =
    spell_row_globe_pressed-IsEquipped 2 5 offensive choosing electrocute refl refl refl
      mage-IsOrderly refl refl
