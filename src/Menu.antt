-- ===== src/Menu.antt =====
-- SpellMenuWidgetController.cpp: the spell menu of a client, over the abilities of the server. The
-- descriptions are left out. The calls that the server makes while it serves a request reach the menu
-- in order, before the next event.
pub mod Equipping
pub mod Examples
use unreal5_gas.Base.{
  ℕ, Bool, true, false, not, Option, none, some, List, [], ◌∷◌, ◌++◌, ◌==◌, if◌then◌else◌,
}
use unreal5_gas.Base.Int.{ℤ}
use unreal5_gas.Ability.Spells.{
  locked, equipped, Tag, no_tag, status, tag_eq, Call, client_equip_ability,
  client_update_ability_status, multicast_activate_passive_effect, deactivate_passive_ability,
  try_activate_ability, Status, input, Component, Spec, get_status_from_spec,
  get_spec_from_ability_tag, server_equip_ability,
}
use unreal5_gas.Ability.Spells.Points.{should_enable_buttons, server_spend_spell_point}
use unreal5_gas.Game.Slots.{AbilityType, offensive, passive, other_type}
use unreal5_gas.Game.Progress.{Info, find_ability_info_for_tag, slot_of, status_of}

-- What the widgets are shown: which buttons are on, and the type that the row of slots waits for, or
-- waits for no more.
pub data Shown : Type 0 where
  spell_globe_selected wait_for_equip stop_waiting_for_equip spell_globe_reassigned ability_info :
      Shown

-- `selected_ability` is `none` for `Abilities.None`.
pub record Menu : Type 0 where
  pub infos : List Info
  pub component : Component
  pub selected_ability : Option ℕ
  pub selected_status : Tag
  pub current_spell_points : ℤ
  pub waiting_for_equip_selection : Bool
  pub selected_slot : Tag
  -- The two buttons, as last shown, and what was broadcast, oldest first.
  pub spend_enabled : Bool
  pub equip_enabled : Bool
  pub shown : List Shown

abbrev pub show : Shown → Menu → Menu
show s m = record m { shown = m.shown ++ (s ∷ []) }

abbrev pub show_buttons : Bool × Bool → Menu → Menu
show_buttons (spend, equip) m =
    show spell_globe_selected (record m { spend_enabled = spend; equip_enabled = equip })

abbrev stop_waiting : Menu → Menu
stop_waiting m =
    if m.waiting_for_equip_selection
    then show stop_waiting_for_equip (record m { waiting_for_equip_selection = false })
    else m

-- The status of a tag, which is locked without a spec.
abbrev selected_status_of : Option Spec → Tag
selected_status_of none = status locked
selected_status_of (some s) = get_status_from_spec s.dynamic_ability_tags

abbrev spec_of : Option ℕ → Component → Option Spec
spec_of none c = none
spec_of (some tag) c = get_spec_from_ability_tag tag c

-- `SpellGlobeSelected`.
unfoldable pub on_spell_globe_selected : Option ℕ → Menu → Menu
on_spell_globe_selected tag m =
    let ready = stop_waiting m in
    let s = selected_status_of (spec_of tag m.component) in
    show_buttons (should_enable_buttons s m.component.spell_points)
      (record ready { selected_ability = tag; selected_status = s })

-- `GlobeDeselect`.
unfoldable pub globe_deselect : Menu → Menu
globe_deselect m =
    show_buttons (false, false)
      (record (stop_waiting m) { selected_ability = none; selected_status = status locked })

-- `EquipButtonPressed`.
unfoldable pub equip_button_pressed : Menu → Menu
equip_button_pressed m =
    let spec = spec_of m.selected_ability m.component in
    show wait_for_equip (record m {
      waiting_for_equip_selection = true;
      selected_slot =
          if tag_eq (status_of spec) (status equipped) then slot_of spec else m.selected_slot;
    })

-- `OnAbilityEquipped`.
unfoldable pub on_ability_equipped : Menu → Menu
unfolding globe_deselect
on_ability_equipped m = globe_deselect (
    show spell_globe_reassigned (
      show stop_waiting_for_equip
        (show ability_info (show ability_info (record m { waiting_for_equip_selection = false })))))

abbrev pub is_selected : Option ℕ → ℕ → Bool
is_selected none tag = false
is_selected (some t) tag = t == tag

-- The callback of `AbilityStatusChanged`.
unfoldable pub ability_status_changed : ℕ → Tag → Menu → Menu
ability_status_changed tag s m = show ability_info (
    if is_selected m.selected_ability tag
    then show_buttons (should_enable_buttons s m.current_spell_points)
        (record m { selected_status = s })
    else m)

-- The callback of `OnSpellPointsChangedDelegate`.
unfoldable pub on_spell_points_changed : ℤ → Menu → Menu
on_spell_points_changed points m =
    show_buttons (should_enable_buttons m.selected_status points)
      (record m { current_spell_points = points })

-- A call of the server, as far as the menu listens to it.
unfoldable pub receive : Call → Menu → Menu
unfolding on_ability_equipped ability_status_changed
receive (client_equip_ability tag s slot previous) m = on_ability_equipped m
receive (client_update_ability_status tag s level) m = ability_status_changed tag s m
receive (multicast_activate_passive_effect tag on) m = m
receive (deactivate_passive_ability tag) m = m
receive (try_activate_ability tag) m = m

unfoldable pub receive_all : List Call → Menu → Menu
unfolding receive
receive_all [] m = m
receive_all (call ∷ calls) m = receive_all calls (receive call m)

-- A request to the server, and what comes back.
abbrev pub request : (Component → Component) → Menu → Menu
request serve m =
    let served = serve (record m.component { calls = [] }) in
    receive_all served.calls (record m { component = served })

abbrev pub same_type : AbilityType → AbilityType → Bool
same_type offensive offensive = true
same_type passive passive = true
same_type other_type other_type = true
same_type _ _ = false

abbrev pub press_slot : Option ℕ → ℕ → AbilityType → Menu → Menu
press_slot none slot type m = m
press_slot (some tag) slot type m =
    if same_type (find_ability_info_for_tag tag m.infos).ability_type type
    then request (server_equip_ability tag slot) m
    else m

-- `SpellRowGlobePressed`, of the slot and the type of its row. Without a selected ability the server
-- finds none.
unfoldable pub spell_row_globe_pressed : ℕ → AbilityType → Menu → Menu
unfolding receive_all find_ability_info_for_tag
spell_row_globe_pressed slot type m =
    if m.waiting_for_equip_selection then press_slot m.selected_ability slot type m else m

-- The points are told before the status.
abbrev spend_found : ℕ → Option Spec → Menu → Menu
spend_found tag none m = m
spend_found tag (some s) m =
    let served = server_spend_spell_point tag (record m.component { calls = [] }) in
    receive_all served.calls
      (on_spell_points_changed served.spell_points (record m { component = served }))

abbrev spend_on_selected : Option ℕ → Menu → Menu
spend_on_selected none m = m
spend_on_selected (some tag) m = spend_found tag (get_spec_from_ability_tag tag m.component) m

-- `SpendPointButtonPressed`, up to the callbacks.
unfoldable pub spend_point_button_pressed : Menu → Menu
unfolding receive_all on_spell_points_changed
spend_point_button_pressed m = spend_on_selected m.selected_ability m
