-- ===== src/Ability/Spells/Points.antt =====
-- AuraAbilitySystemComponent.cpp and SpellMenuWidgetController.cpp: spell points, and the buttons of
-- the menu.
use unreal5_gas.Base.{
  ℕ, ◌+◌, ◌≡◌, refl, ap, ◌∙◌, ◌⊎◌, inl, inr, Bool, true, false, ◌||◌, Option, none, some, List, [],
  ◌∷◌, ◌==◌, if◌then◌else◌, arith, Bool-cases,
}
use unreal5_gas.Base.Int.{ℤ, pos, negsuc, ◌+ℤ◌, ltb_ℤ}
use unreal5_gas.Ability.Spells.{
  locked, eligible, unlocked, equipped, Tag, no_tag, input, status, tag_eq, Spec, Component,
  client_update_ability_status, tell, add_tag, remove_tag, get_status_from_spec, is_ability,
  is_status_valid, first_spec, update_spec, get_spec_from_ability_tag, server_equip_ability,
}
use unreal5_gas.Ability.Spells.Slots.{IsOrderly}
use unreal5_gas.Ability.Spells.Equip.{IsEquipped, server_equip_ability-IsEquipped}

-- The spec as `ServerSpendSpellPoint` leaves it, and the status that it tells.
unfoldable pub spend_on : Spec → Spec × Tag
spend_on s =
    let old = get_status_from_spec s.dynamic_ability_tags in
    if tag_eq old (status eligible)
    then (
      record s {
        dynamic_ability_tags =
            add_tag (status unlocked) (remove_tag (status eligible) s.dynamic_ability_tags);
      },
      status unlocked,
    )
    else if tag_eq old (status equipped) || tag_eq old (status unlocked)
    then (record s { level = s.level + 1 }, old)
    else (s, old)

abbrev spend_found : ℕ → Option Spec → Component → Component
spend_found tag none c = c
spend_found tag (some s) c =
    let (spent, told) = spend_on s in
    tell (client_update_ability_status tag told spent.level) (record c {
      activatable_abilities =
          update_spec (is_ability tag) (λ x. (spend_on x).0) c.activatable_abilities;
      spell_points = c.spell_points +ℤ negsuc 0;
    })

unfoldable pub server_spend_spell_point : ℕ → Component → Component
server_spend_spell_point tag c = spend_found tag (get_spec_from_ability_tag tag c) c

-- `ShouldEnableButtons`: whether to enable the button that spends a point, and the one that equips.
unfoldable pub should_enable_buttons : Tag → ℤ → Bool × Bool
should_enable_buttons t points =
    if tag_eq t (status equipped)
    then (ltb_ℤ (pos 0) points, true)
    else if tag_eq t (status eligible)
    then (ltb_ℤ (pos 0) points, false)
    else if tag_eq t (status unlocked)
    then (ltb_ℤ (pos 0) points, true)
    else (false, false)

equip_button-valid : (t : Tag) (points : ℤ) → (should_enable_buttons t points).1 ≡ is_status_valid t
unfolding should_enable_buttons
equip_button-valid t points = ground arith

-- For an ability that the server has, where no slot has two abilities and no ability two slots, the
-- button that equips agrees with the server: if it is on, a request to equip the ability in any slot
-- puts it there, and if it is off, a request leaves every ability as it is.
pub should_enable_buttons-IsEquipped :
    (tag slot : ℕ) (points : ℤ) (c : Component) (s : Spec)
    → IsOrderly c.activatable_abilities
    → get_spec_from_ability_tag tag c ≡ some s
    → let enabled =
        (should_enable_buttons (get_status_from_spec s.dynamic_ability_tags) points).1 in
      let after = (server_equip_ability tag slot c).activatable_abilities in
      ((enabled ≡ true) × IsEquipped tag slot c.activatable_abilities after)
      ⊎ ((enabled ≡ false) × (after ≡ c.activatable_abilities))
unfolding server_equip_ability
should_enable_buttons-IsEquipped tag slot points c s v found =
    let t = get_status_from_spec s.dynamic_ability_tags in
    elim (Bool-cases (is_status_valid t)) [
      | inl valid ↦ inl (
        equip_button-valid t points ∙ valid,
        server_equip_ability-IsEquipped tag slot c s v found valid,
      )
      | inr refused ↦ inr (equip_button-valid t points ∙ refused, rw (found, refused) refl)
    ]

first_spec-update_self :
    (tag : ℕ) (f : Spec → Spec) (specs : List Spec) (a : Spec)
    → ((s : Spec) → (f s).ability_tag ≡ s.ability_tag)
    → first_spec (is_ability tag) specs ≡ some a
    → first_spec (is_ability tag) (update_spec (is_ability tag) f specs) ≡ some (f a)
unfolding first_spec update_spec
first_spec-update_self tag f [] a keeps e = cc
first_spec-update_self tag f (s ∷ ss) a keeps e = elim (Bool-cases (is_ability tag s)) [
  | inl hit ↦
      let same : s ≡ a = ground (arith, hit) in
      let kept : (if is_ability tag (f s) then some (f s) else first_spec (is_ability tag) ss)
          ≡ some (f s) =
        ap (λ n. if n == tag then some (f s) else first_spec (is_ability tag) ss) (keeps s)
        ∙ ap (λ b. if b then some (f s) else first_spec (is_ability tag) ss) hit in
      rw hit (kept ∙ ap (λ x. some (f x)) same)
  | inr miss ↦ rw miss (rw miss (first_spec-update_self tag f ss a keeps (ground (arith, miss))))
]

spend_on-ability_tag : (s : Spec) → (spend_on s).0.ability_tag ≡ s.ability_tag
unfolding spend_on
spend_on-ability_tag s = ground arith

not_eligible : (t : Tag) → is_status_valid t ≡ true → tag_eq t (status eligible) ≡ false
not_eligible no_tag valid = refl
not_eligible (input i) valid = refl
not_eligible (status locked) valid = refl
not_eligible (status eligible) valid = cc
not_eligible (status unlocked) valid = refl
not_eligible (status equipped) valid = refl

spend_on-raised :
    (s : Spec)
    → is_status_valid (get_status_from_spec s.dynamic_ability_tags) ≡ true
    → (spend_on s).0 ≡ record s { level = s.level + 1 }
unfolding spend_on
spend_on-raised s valid =
    rw (not_eligible (get_status_from_spec s.dynamic_ability_tags) valid, valid) refl

-- Without a spell point the menu's button is off, and the server spends one all the same: a call for
-- an ability that is unlocked or equipped raises its level and leaves -1 points.
spend_without_points :
    (tag : ℕ) (c : Component) (s : Spec)
    → get_spec_from_ability_tag tag c ≡ some s
    → is_status_valid (get_status_from_spec s.dynamic_ability_tags) ≡ true
    → c.spell_points ≡ pos 0
    → let d = server_spend_spell_point tag c in
      ((should_enable_buttons (get_status_from_spec s.dynamic_ability_tags) c.spell_points).0
        ≡ false)
      × (d.spell_points ≡ negsuc 0)
      × (get_spec_from_ability_tag tag d ≡ some (record s { level = s.level + 1 }))
unfolding server_spend_spell_point should_enable_buttons ◌+ℤ◌
spend_without_points tag c s found valid broke = (
  rw broke (ground arith),
  rw (found, broke) refl,
  rw found (
      first_spec-update_self tag (λ x. (spend_on x).0) c.activatable_abilities s
        spend_on-ability_tag found
      ∙ ap some (spend_on-raised s valid)),
)
