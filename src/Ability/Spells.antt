-- ===== src/Ability/Spells.antt =====
-- AuraAbilitySystemComponent.cpp: the abilities of a character, the slots that they are equipped in,
-- their status and the points spent on them. An ability has one tag below `Abilities`, a leaf, so that
-- matching it is equality. `FScopedAbilityListLock` and the replication of a change to the clients are
-- left out; the calls that tell the client are recorded.
pub mod Tags
pub mod Slots
pub mod Equip
pub mod Found
pub mod Statuses
pub mod Points
pub mod Examples
use unreal5_gas.Base.{
  ℕ, suc, ◌+◌, Bool, true, false, not, ◌&&◌, ◌||◌, Option, none, some, List, [], ◌∷◌, ◌++◌, ◌==◌,
  ltb, if◌then◌else◌,
}
use unreal5_gas.Base.Int.{ℤ, pos, negsuc, ◌+ℤ◌}

pub data Status : Type 0 where
  locked eligible unlocked equipped : Status

-- `FGameplayTag`, as far as this code tells tags apart: no tag, one below `InputTag`, which is a slot,
-- or one below `Abilities.Status`.
pub data Tag : Type 0 where
  no_tag : Tag
  input : ℕ → Tag
  status : Status → Tag

abbrev pub status_eq : Status → Status → Bool
status_eq locked locked = true
status_eq eligible eligible = true
status_eq unlocked unlocked = true
status_eq equipped equipped = true
status_eq _ _ = false

abbrev pub tag_eq : Tag → Tag → Bool
tag_eq no_tag no_tag = true
tag_eq (input i) (input j) = i == j
tag_eq (status s) (status t) = status_eq s t
tag_eq _ _ = false

-- `FGameplayAbilitySpec`.
pub record Spec : Type 0 where
  pub ability_tag : ℕ
  pub level : ℕ
  pub dynamic_ability_tags : List Tag

-- `FAuraAbilityInfo`. A class is known by its ability's tag; `none` is no class.
pub record AbilityInfo : Type 0 where
  pub ability_tag : ℕ
  pub ability : Option ℕ
  pub is_passive_type : Bool
  pub level_requirement : ℕ

-- What clients and listeners are told.
pub data Call : Type 0 where
  client_equip_ability : ℕ → Status → ℕ → Tag → Call
  client_update_ability_status : ℕ → Tag → ℕ → Call
  multicast_activate_passive_effect : ℕ → Bool → Call
  deactivate_passive_ability : ℕ → Call
  try_activate_ability : ℕ → Call

pub record Component : Type 0 where
  pub activatable_abilities : List Spec
  pub ability_information : List AbilityInfo
  -- Of the player state behind the avatar.
  pub spell_points : ℤ
  pub calls : List Call

abbrev pub tell : Call → Component → Component
tell call c = record c { calls = c.calls ++ (call ∷ []) }

-- `FGameplayTagContainer`: `HasTagExact`, `AddTag`, which adds a tag once, and `RemoveTag`.
unfoldable pub has_tag : Tag → List Tag → Bool
has_tag t [] = false
has_tag t (u ∷ ts) = tag_eq t u || has_tag t ts

pub add_tag : Tag → List Tag → List Tag
unfolding has_tag
add_tag t ts = if has_tag t ts || tag_eq t no_tag then ts else ts ++ (t ∷ [])

unfoldable pub remove_tag : Tag → List Tag → List Tag
remove_tag t [] = []
remove_tag t (u ∷ ts) = let rest = remove_tag t ts in if tag_eq t u then rest else u ∷ rest

unfoldable pub get_input_tag_from_spec : List Tag → Tag
get_input_tag_from_spec [] = no_tag
get_input_tag_from_spec (input i ∷ ts) = input i
get_input_tag_from_spec (no_tag ∷ ts) = get_input_tag_from_spec ts
get_input_tag_from_spec (status s ∷ ts) = get_input_tag_from_spec ts

unfoldable pub get_status_from_spec : List Tag → Tag
get_status_from_spec [] = no_tag
get_status_from_spec (status s ∷ ts) = status s
get_status_from_spec (no_tag ∷ ts) = get_status_from_spec ts
get_status_from_spec (input i ∷ ts) = get_status_from_spec ts

abbrev pub is_ability : ℕ → Spec → Bool
is_ability tag s = s.ability_tag == tag

unfoldable pub ability_has_slot : ℕ → Spec → Bool
unfolding has_tag
ability_has_slot slot s = has_tag (input slot) s.dynamic_ability_tags

abbrev pub is_input : Tag → Bool
is_input no_tag = false
is_input (input i) = true
is_input (status s) = false

abbrev pub ability_has_any_slot : Spec → Bool
ability_has_any_slot s = is_input (get_input_tag_from_spec s.dynamic_ability_tags)

-- A pointer to a spec is the first that a loop finds.
unfoldable pub first_spec : (Spec → Bool) → List Spec → Option Spec
first_spec p [] = none
first_spec p (s ∷ ss) = if p s then some s else first_spec p ss

-- A write through that pointer.
pub update_spec : (Spec → Bool) → (Spec → Spec) → List Spec → List Spec
update_spec p f [] = []
update_spec p f (s ∷ ss) = if p s then f s ∷ ss else s ∷ update_spec p f ss

abbrev pub get_spec_from_ability_tag : ℕ → Component → Option Spec
get_spec_from_ability_tag tag c = first_spec (is_ability tag) c.activatable_abilities

-- `GetSpecWithSlot`; `SlotIsEmpty` says whether it finds nothing.
abbrev pub get_spec_with_slot : ℕ → Component → Option Spec
get_spec_with_slot slot c = first_spec (ability_has_slot slot) c.activatable_abilities

-- `IsPassiveAbility`, by `FindAbilityInfoForTag`.
unfoldable pub is_passive_ability : ℕ → List AbilityInfo → Bool
is_passive_ability tag [] = false
is_passive_ability tag (i ∷ infos) =
    if i.ability_tag == tag then i.is_passive_type else is_passive_ability tag infos

unfoldable pub clear_slot : Spec → Spec
unfolding remove_tag get_input_tag_from_spec
clear_slot s = record s {
  dynamic_ability_tags =
      remove_tag (get_input_tag_from_spec s.dynamic_ability_tags) s.dynamic_ability_tags;
}

pub assign_slot_to_ability : ℕ → Spec → Spec
unfolding clear_slot add_tag
assign_slot_to_ability slot s =
    let cleared = clear_slot s in
    record cleared { dynamic_ability_tags = add_tag (input slot) cleared.dynamic_ability_tags }

abbrev pub set_status : Tag → Status → Spec → Spec
set_status old new s = record s {
  dynamic_ability_tags = add_tag (status new) (remove_tag old s.dynamic_ability_tags);
}

-- The spec as `ServerEquipAbility` leaves it in a free slot.
pub equip_spec : ℕ → Spec → Spec
unfolding assign_slot_to_ability get_status_from_spec
equip_spec slot s = assign_slot_to_ability slot (
    if ability_has_any_slot s
    then s
    else set_status (get_status_from_spec s.dynamic_ability_tags) equipped s)

abbrev pub release_calls : Spec → Component → Component
release_calls s c =
    if is_passive_ability s.ability_tag c.ability_information
    then tell (deactivate_passive_ability s.ability_tag)
        (tell (multicast_activate_passive_effect s.ability_tag false) c)
    else c

abbrev pub release : ℕ → Option Spec → Component → Component
release slot none c = c
release slot (some s) c =
    let told = release_calls s c in
    record told {
      activatable_abilities =
          update_spec (ability_has_slot slot) clear_slot told.activatable_abilities;
    }

abbrev pub activate_calls : ℕ → Spec → Component → Component
activate_calls tag s c =
    if not (ability_has_any_slot s) && is_passive_ability s.ability_tag c.ability_information
    then tell (multicast_activate_passive_effect tag true) (tell (try_activate_ability tag) c)
    else c

-- The slot is free, or another ability's.
abbrev pub take_slot : ℕ → ℕ → Spec → Component → Component
take_slot tag slot s c =
    let freed = release slot (get_spec_with_slot slot c) c in
    let told = activate_calls tag s freed in
    record told {
      activatable_abilities =
          update_spec (is_ability tag) (equip_spec slot) told.activatable_abilities;
    }

abbrev pub holds_already : ℕ → Option Spec → Bool
holds_already tag none = false
holds_already tag (some s) = s.ability_tag == tag

abbrev pub is_status_valid : Tag → Bool
is_status_valid t = tag_eq t (status equipped) || tag_eq t (status unlocked)

abbrev pub equip_found : ℕ → ℕ → Option Spec → Component → Component
equip_found tag slot none c = c
equip_found tag slot (some s) c =
    let previous = get_input_tag_from_spec s.dynamic_ability_tags in
    tell (client_equip_ability tag equipped slot previous) (
      if is_status_valid (get_status_from_spec s.dynamic_ability_tags)
        && not (holds_already tag (get_spec_with_slot slot c))
      then take_slot tag slot s c
      else c)

unfoldable pub server_equip_ability : ℕ → ℕ → Component → Component
unfolding first_spec update_spec equip_spec clear_slot
server_equip_ability tag slot c = equip_found tag slot (get_spec_from_ability_tag tag c) c
