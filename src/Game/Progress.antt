-- ===== src/Game/Progress.antt =====
-- AuraCharacter.cpp, AuraCharacterBase.cpp, AuraPlayerState.cpp and AuraAbilitySystemComponent.cpp:
-- the progress of a player's character, saved at a checkpoint and loaded again. Effects that set
-- attributes are assets: the magnitudes that they are given are recorded.
pub mod Abilities
pub mod Given
pub mod Checkpoint
use unreal5_gas.Base.{
  ℕ, Bool, true, false, Option, none, some, List, [], ◌∷◌, ◌++◌, ◌==◌, if◌then◌else◌,
}
use unreal5_gas.Base.Int.{ℤ}
use unreal5_gas.Base.Unique.{has_key, add_unique}
use unreal5_gas.Ability.Spells.{
  equipped, Tag, no_tag, input, status, tag_eq, Spec, Component, tell,
  multicast_activate_passive_effect, try_activate_ability, has_tag, add_tag,
  get_input_tag_from_spec, get_status_from_spec, first_spec, get_spec_from_ability_tag,
}
use unreal5_gas.Ability.Experience.{PlayerState}
use unreal5_gas.Game.Slots.{
  Name, Serializer, AbilityType, offensive, passive, other_type, SavedAbility, Attributes, SaveGame,
  SaveSystem, get_save_slot_data,
}
use unreal5_gas.Game.World.{GameInstance}

-- `FAuraAbilityInfo`, as far as it is saved. An ability class is known by its ability's tag.
pub record Info : Type 0 where
  pub ability_tag : ℕ
  pub ability : Option ℕ
  pub ability_type : AbilityType

-- `FindAbilityInfoForTag`: the default entry, of no class and no type, where there is none.
unfoldable pub find_ability_info_for_tag : ℕ → List Info → Info
find_ability_info_for_tag tag [] = record {
  ability_tag = 0;
  ability = none;
  ability_type = other_type;
}
find_ability_info_for_tag tag (i ∷ infos) =
    if i.ability_tag == tag then i else find_ability_info_for_tag tag infos

-- An ability of a character that plays for the first time, and its `StartupInputTag`.
pub record StartupAbility : Type 0 where
  pub ability_class : ℕ
  pub startup_input_tag : Tag

-- The primary attributes that an effect was given: those of the character's class, or those of a save.
pub data Initialised (F : Type 0) : Type 0 where
  never by_default : Initialised F
  from_save : Attributes F → Initialised F

pub record Character (F : Type 0) : Type 0 where
  pub has_authority : Bool
  pub player : PlayerState
  pub attributes : Attributes F
  pub initialised : Initialised F
  pub component : Component
  pub startup_abilities_given : Bool
  pub startup_abilities : List StartupAbility
  pub startup_passive_abilities : List ℕ

-- `GetSlotFromAbilityTag` and `GetStatusFromAbilityTag`.
abbrev pub slot_of : Option Spec → Tag
slot_of none = no_tag
slot_of (some s) = get_input_tag_from_spec s.dynamic_ability_tags

abbrev pub status_of : Option Spec → Tag
status_of none = no_tag
status_of (some s) = get_status_from_spec s.dynamic_ability_tags

-- `FindAbilityInfoForTag` and the lambda of `SaveProgress`, for one spec.
abbrev pub saved_ability : List Info → Component → Spec → SavedAbility
saved_ability infos c s =
    let info = find_ability_info_for_tag s.ability_tag infos in
    record {
      gameplay_ability = info.ability;
      ability_tag = s.ability_tag;
      ability_status = status_of (get_spec_from_ability_tag s.ability_tag c);
      ability_slot = slot_of (get_spec_from_ability_tag s.ability_tag c);
      ability_type = info.ability_type;
      ability_level = s.level;
    }

abbrev pub ability_key : SavedAbility → ℕ
ability_key a = a.ability_tag

unfoldable pub save_abilities :
    List Info → Component → List Spec → List SavedAbility → List SavedAbility
unfolding find_ability_info_for_tag has_key get_input_tag_from_spec get_status_from_spec first_spec
save_abilities infos c [] saved = saved
save_abilities infos c (s ∷ ss) saved =
    save_abilities infos c ss (add_unique ability_key (saved_ability infos c s) saved)

-- `GiveAbility` and `GiveAbilityAndActivateOnce` on the server. The engine removes the spec of the latter
-- if its activation fails, and when it ends: `keeps` says of each class whether its spec is still there
-- after the abilities are given.
abbrev pub give_ability : Spec → Component → Component
give_ability s c = record c { activatable_abilities = c.activatable_abilities ++ (s ∷ []) }

abbrev pub give_ability_and_activate_once : (ℕ → Bool) → Spec → Component → Component
give_ability_and_activate_once keeps s c =
    tell (try_activate_ability s.ability_tag) (if keeps s.ability_tag then give_ability s c else c)

abbrev pub loaded_spec : ℕ → SavedAbility → Spec
loaded_spec class a = record {
  ability_tag = class;
  level = a.ability_level;
  dynamic_ability_tags = add_tag a.ability_status (add_tag a.ability_slot []);
}

-- One step of `AddCharacterAbilitiesFromSaveData`. An ability without a class is refused by the engine.
abbrev pub give_typed : (ℕ → Bool) → AbilityType → SavedAbility → Spec → Component → Component
give_typed keeps offensive a s c = give_ability s c
give_typed keeps passive a s c =
    if tag_eq a.ability_status (status equipped)
    then tell (multicast_activate_passive_effect a.ability_tag true)
        (give_ability_and_activate_once keeps s c)
    else give_ability s c
give_typed keeps other_type a s c = c

abbrev pub give_class : (ℕ → Bool) → Option ℕ → SavedAbility → Component → Component
give_class keeps none a c = c
give_class keeps (some class) a c = give_typed keeps a.ability_type a (loaded_spec class a) c

abbrev pub give_saved : (ℕ → Bool) → SavedAbility → Component → Component
give_saved keeps a c = give_class keeps a.gameplay_ability a c

-- `AddCharacterAbilitiesFromSaveData`.
unfoldable pub add_character_abilities_from_save_data :
    (ℕ → Bool) → List SavedAbility → Component → Component
unfolding has_tag
add_character_abilities_from_save_data keeps [] c = c
add_character_abilities_from_save_data keeps (a ∷ saved) c =
    add_character_abilities_from_save_data keeps saved (give_saved keeps a c)

-- `UAuraAbilitySystemComponent::AddCharacterAbilities`.
unfoldable pub give_startup : List StartupAbility → Component → Component
unfolding has_tag
give_startup [] c = c
give_startup (a ∷ abilities) c = give_startup abilities (
    give_ability
      (record {
        ability_tag = a.ability_class;
        level = 1;
        dynamic_ability_tags = add_tag (status equipped) (add_tag a.startup_input_tag []);
      })
      c)

-- `AddCharacterPassiveAbilities`.
unfoldable pub give_startup_passive : (ℕ → Bool) → List ℕ → Component → Component
unfolding has_tag
give_startup_passive keeps [] c = c
give_startup_passive keeps (class ∷ classes) c = give_startup_passive keeps classes (
    give_ability_and_activate_once keeps
      (record {
        ability_tag = class;
        level = 1;
        dynamic_ability_tags = add_tag (status equipped) [];
      })
      c)

-- `AAuraCharacterBase::AddCharacterAbilities`.
abbrev pub add_character_abilities : {F : Type 0} → (ℕ → Bool) → Character F → Character F
add_character_abilities keeps ch =
    if ch.has_authority
    then record ch {
      component =
          give_startup_passive keeps ch.startup_passive_abilities
            (give_startup ch.startup_abilities ch.component);
      startup_abilities_given = true;
    }
    else ch
