-- ===== src/Menu/Equipping.antt =====
-- SpellMenuWidgetController.cpp: a press on a slot, from the menu to the server and back.
use unreal5_gas.Base.{
  ℕ, ◌≡◌, refl, sym, ap, ◌∙◌, subst, Bool, true, false, not, ◌&&◌, none, some, List, [], ◌∷◌, ◌++◌,
  if◌then◌else◌,
}
use unreal5_gas.Ability.Spells.{
  locked, equipped, Tag, status, Spec, Component, Call, client_equip_ability,
  client_update_ability_status, multicast_activate_passive_effect, deactivate_passive_ability,
  try_activate_ability, get_input_tag_from_spec, get_status_from_spec, is_status_valid,
  get_spec_from_ability_tag, get_spec_with_slot, holds_already, take_slot, equip_found,
  server_equip_ability,
}
use unreal5_gas.Ability.Spells.Points.{should_enable_buttons}
use unreal5_gas.Ability.Spells.Slots.{IsOrderly}
use unreal5_gas.Ability.Spells.Equip.{IsEquipped, server_equip_ability-IsEquipped}
use unreal5_gas.Game.Slots.{AbilityType}
use unreal5_gas.Game.Progress.{find_ability_info_for_tag}
use unreal5_gas.Menu.{
  Menu, globe_deselect, is_selected, show_buttons, on_ability_equipped, ability_status_changed,
  receive, receive_all, request, same_type, press_slot, spell_row_globe_pressed,
}

-- Nothing is selected, nothing is waited for, and both buttons are off.
pub record IsIdle (m : Menu) : Type 0 where
  pub nothing_selected : m.selected_ability ≡ none
  pub locked_status : m.selected_status ≡ status locked
  pub not_waiting : m.waiting_for_equip_selection ≡ false
  pub no_spend : m.spend_enabled ≡ false
  pub no_equip : m.equip_enabled ≡ false

on_ability_equipped-IsIdle : (m : Menu) → IsIdle (on_ability_equipped m)
unfolding on_ability_equipped globe_deselect
on_ability_equipped-IsIdle m = record {
  nothing_selected = refl;
  locked_status = refl;
  not_waiting = refl;
  no_spend = refl;
  no_equip = refl;
}

either-component :
    (b : Bool) (x y : Menu) (c : Component)
    → x.component ≡ c
    → y.component ≡ c
    → (if b then x else y).component ≡ c
either-component true x y c p q = p
either-component false x y c p q = q

receive-component : (call : Call) (m : Menu) → (receive call m).component ≡ m.component
unfolding receive on_ability_equipped globe_deselect ability_status_changed
receive-component (client_equip_ability tag s slot previous) m = refl
receive-component (client_update_ability_status tag s level) m =
    either-component (is_selected m.selected_ability tag)
      (show_buttons (should_enable_buttons s m.current_spell_points)
        (record m { selected_status = s }))
      m m.component refl refl
receive-component (multicast_activate_passive_effect tag on) m = refl
receive-component (deactivate_passive_ability tag) m = refl
receive-component (try_activate_ability tag) m = refl

receive_all-component :
    (calls : List Call) (m : Menu) → (receive_all calls m).component ≡ m.component
unfolding receive_all
receive_all-component [] m = refl
receive_all-component (call ∷ calls) m =
    receive_all-component calls (receive call m) ∙ receive-component call m

-- After the answer of an equip the menu is idle, whatever was told before.
receive_all-IsIdle :
    (calls : List Call) (tag slot : ℕ) (previous : Tag) (m : Menu)
    → IsIdle (receive_all (calls ++ (client_equip_ability tag equipped slot previous ∷ [])) m)
unfolding receive_all receive
receive_all-IsIdle [] tag slot previous m = on_ability_equipped-IsIdle m
receive_all-IsIdle (call ∷ calls) tag slot previous m =
    receive_all-IsIdle calls tag slot previous (receive call m)

-- The server answers an equip of an ability that it has last of all.
equip-calls :
    (tag slot : ℕ) (c : Component) (s : Spec)
    → get_spec_from_ability_tag tag c ≡ some s
    → (calls : List Call) × ((server_equip_ability tag slot c).calls
        ≡ calls
          ++ (client_equip_ability tag equipped slot
                (get_input_tag_from_spec s.dynamic_ability_tags)
              ∷ []))
unfolding server_equip_ability
equip-calls tag slot c s found =
    let before =
      if is_status_valid (get_status_from_spec s.dynamic_ability_tags)
        && not (holds_already tag (get_spec_with_slot slot c))
      then take_slot tag slot s c
      else c in
    (before.calls, ap (λ o. (equip_found tag slot o c).calls) found)

request-Done :
    (tag slot : ℕ) (m : Menu) (s : Spec)
    → IsOrderly m.component.activatable_abilities
    → get_spec_from_ability_tag tag m.component ≡ some s
    → is_status_valid (get_status_from_spec s.dynamic_ability_tags) ≡ true
    → IsIdle (request (server_equip_ability tag slot) m)
      × IsEquipped tag slot m.component.activatable_abilities
          (request (server_equip_ability tag slot) m).component.activatable_abilities
request-Done tag slot m s orderly found valid =
    let c = record m.component { calls = [] } in
    let served = server_equip_ability tag slot c in
    let (calls, e) = equip-calls tag slot c s found in
    (
      subst (λ cs. IsIdle (receive_all cs (record m { component = served }))) (sym e)
          (receive_all-IsIdle calls tag slot (get_input_tag_from_spec s.dynamic_ability_tags)
            (record m { component = served })),
      subst (λ d. IsEquipped tag slot m.component.activatable_abilities d.activatable_abilities)
          (sym (receive_all-component served.calls (record m { component = served })))
          (server_equip_ability-IsEquipped tag slot c s orderly found valid),
    )

-- The menu waits for a slot, and the selected ability is unlocked or equipped and of the type of the
-- row. Where no slot has two abilities and no ability two slots, a press on a slot equips it there, as
-- the server does, and the menu is idle: it waits for nothing, and nothing is selected.
pub spell_row_globe_pressed-IsEquipped :
    (tag slot : ℕ) (type : AbilityType) (m : Menu) (s : Spec)
    → m.waiting_for_equip_selection ≡ true
    → m.selected_ability ≡ some tag
    → same_type (find_ability_info_for_tag tag m.infos).ability_type type ≡ true
    → IsOrderly m.component.activatable_abilities
    → get_spec_from_ability_tag tag m.component ≡ some s
    → is_status_valid (get_status_from_spec s.dynamic_ability_tags) ≡ true
    → IsIdle (spell_row_globe_pressed slot type m)
      × IsEquipped tag slot m.component.activatable_abilities
          (spell_row_globe_pressed slot type m).component.activatable_abilities
unfolding spell_row_globe_pressed
spell_row_globe_pressed-IsEquipped tag slot type m s waiting selected typed orderly found valid =
    let asked = request (server_equip_ability tag slot) m in
    let e : spell_row_globe_pressed slot type m ≡ asked =
      ap (λ b. if b then press_slot m.selected_ability slot type m else m) waiting
      ∙ ap (λ o. press_slot o slot type m) selected
      ∙ ap (λ b. if b then asked else m) typed in
    subst
      (λ n.
        IsIdle n
        × IsEquipped tag slot m.component.activatable_abilities n.component.activatable_abilities)
      (sym e) (request-Done tag slot m s orderly found valid)
