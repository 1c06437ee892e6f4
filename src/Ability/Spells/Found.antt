-- ===== src/Ability/Spells/Found.antt =====
-- AuraAbilitySystemComponent.cpp: what the loops find, and whether it has a slot, after a change.
use unreal5_gas.Base.{
  ℕ, ◌≡◌, refl, sym, ap, ◌∙◌, inl, inr, Bool, true, false, some, List, [], ◌∷◌, arith, Bool-cases,
}
use unreal5_gas.Ability.Spells.{
  Tag, no_tag, input, status, Spec, Component, has_tag, get_input_tag_from_spec, is_input,
  ability_has_slot, ability_has_any_slot, is_passive_ability, first_spec, update_spec, equip_spec,
  release_calls,
}
use unreal5_gas.Ability.Spells.Tags.{HasNoInput}
use unreal5_gas.Ability.Spells.Slots.{OneSlot, equip_spec-HoldsJust}

-- A changed ability that is found by another test too is found by it still.
pub first_spec-update_found :
    (p q : Spec → Bool) (f : Spec → Spec) (specs : List Spec) (a : Spec)
    → first_spec p specs ≡ some a
    → p a ≡ true
    → first_spec q specs ≡ some a
    → q (f a) ≡ true
    → first_spec q (update_spec p f specs) ≡ some (f a)
unfolding first_spec update_spec
first_spec-update_found p q f [] a found hits same still = cc
first_spec-update_found p q f (s ∷ ss) a found hits same still = elim (Bool-cases (p s)) [
  | inl hit ↦
      let e : s ≡ a = ground (arith, hit) in
      rw hit (rw (ap (λ x. q (f x)) e ∙ still) (ap (λ x. some (f x)) e))
  | inr miss ↦ elim (Bool-cases (q s)) [
    | inl first ↦
        let e : s ≡ a = ground (arith, first) in absurd (ground (arith, sym (ap p e) ∙ miss, hits))
    | inr later ↦
        rw (miss, later)
          (first_spec-update_found p q f ss a (ground (arith, miss)) hits (ground (arith, later))
            still)
  ]
]

pub unplaced : (ts : List Tag) → HasNoInput ts → is_input (get_input_tag_from_spec ts) ≡ false
unfolding get_input_tag_from_spec has_tag
unplaced [] absent = refl
unplaced (no_tag ∷ ts) absent = unplaced ts absent
unplaced (status s ∷ ts) absent = unplaced ts absent
unplaced (input i ∷ ts) absent = absurd (ground (arith, absent i))

pub equip_spec_placed :
    (slot : ℕ) (s : Spec) → OneSlot s → ability_has_any_slot (equip_spec slot s) ≡ true
unfolding ability_has_slot
equip_spec_placed slot s one =
    let just = equip_spec-HoldsJust slot s one in
    ap is_input (just.0 slot (just.1 slot ∙ ground arith))

pub release_calls-information :
    (a : Spec) (c : Component) → (release_calls a c).ability_information ≡ c.ability_information
release_calls-information a c =
    elim (Bool-cases (is_passive_ability a.ability_tag c.ability_information)) [
      | inl passive ↦ rw passive refl
      | inr other ↦ rw other refl
    ]
