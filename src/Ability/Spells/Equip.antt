-- ===== src/Ability/Spells/Equip.antt =====
-- AuraAbilitySystemComponent.cpp: what `ServerEquipAbility` does to the slots.
use unreal5_gas.Base.{
  ℕ, ◌≤◌, ◌≡◌, ◌≢◌, refl, ◌∙◌, inl, inr, true, false, not, ◌&&◌, some, List, ◌==◌, ==_iff, arith,
  Bool-cases, Option-cases,
}
use unreal5_gas.Ability.Spells.{
  Spec, Component, get_status_from_spec, ability_has_slot, ability_has_any_slot, is_ability,
  is_passive_ability, first_spec, update_spec, clear_slot, equip_spec, is_status_valid, release,
  release_calls, activate_calls, server_equip_ability, get_spec_from_ability_tag,
  get_spec_with_slot,
}
use unreal5_gas.Ability.Spells.Slots.{
  IsOrderly, OneSlot, holders, holders-update, All-update, first_spec-holds, holders-free,
  first_spec-update, first_spec-taken, clear_slot_absent, clear_slot-OneSlot,
  clear_slot-ability_tag, equip_spec-HoldsJust, equip_spec-ability_tag,
}

-- The slot holds the ability `tag` and nothing else, the other slots hold no more than before, and no
-- slot has two abilities and no ability two slots.
pub record IsEquipped (tag slot : ℕ) (before after : List Spec) : Type 0 where
  pub orderly : IsOrderly after
  pub in_slot :
      (a : Spec) × (first_spec (ability_has_slot slot) after ≡ some a) × (a.ability_tag ≡ tag)
  pub others : (other : ℕ) → other ≢ slot → holders other after ≤ holders other before

-- Where the slot is free.
equip_free :
    (tag slot : ℕ) (specs : List Spec) (s : Spec)
    → IsOrderly specs
    → holders slot specs ≡ 0
    → first_spec (is_ability tag) specs ≡ some s
    → IsEquipped tag slot specs (update_spec (is_ability tag) (equip_spec slot) specs)
equip_free tag slot specs s v free found =
    let (one, at_tag) = first_spec-holds OneSlot (is_ability tag) specs s v.one_slot found in
    let just = equip_spec-HoldsJust slot s one in
    let sums = λ (i : ℕ). holders-update i (is_ability tag) (equip_spec slot) specs s found in
    record {
      orderly = record {
        one_holder = λ i. ground (arith, sums i, just.1 i, v.one_holder i, free);
        one_slot =
            All-update OneSlot (is_ability tag) (equip_spec slot) specs v.one_slot
              (λ x h hit. (equip_spec-HoldsJust slot x h).0);
      };
      in_slot = (
        equip_spec slot s,
        first_spec-taken slot (is_ability tag) (equip_spec slot) specs s found free
            (just.1 slot ∙ ground arith),
        equip_spec-ability_tag slot s ∙ (==_iff s.ability_tag tag).0 at_tag,
      );
      others = λ i apart. ground (arith, sums i, just.1 i);
    }

-- What releasing a slot comes to.
record IsReleased (slot : ℕ) (before after : List Spec) : Type 0 where
  orderly : IsOrderly after
  free : holders slot after ≡ 0
  no_more : (other : ℕ) → holders other after ≤ holders other before

release_taken :
    (slot : ℕ) (specs : List Spec) (a : Spec)
    → IsOrderly specs
    → first_spec (ability_has_slot slot) specs ≡ some a
    → IsReleased slot specs (update_spec (ability_has_slot slot) clear_slot specs)
release_taken slot specs a v found =
    let (one, hit) = first_spec-holds OneSlot (ability_has_slot slot) specs a v.one_slot found in
    let absent = clear_slot_absent a one in
    let sums = λ (i : ℕ). holders-update i (ability_has_slot slot) clear_slot specs a found in
    record {
      orderly = record {
        one_holder = λ i. ground (arith, sums i, absent i, v.one_holder i);
        one_slot =
            All-update OneSlot (ability_has_slot slot) clear_slot specs v.one_slot
              (λ x h hit. clear_slot-OneSlot x h);
      };
      free = ground (arith, sums slot, absent slot, v.one_holder slot, hit);
      no_more = λ i. ground (arith, sums i, absent i);
    }

pub release_calls-abilities :
    (a : Spec) (c : Component) → (release_calls a c).activatable_abilities ≡ c.activatable_abilities
release_calls-abilities a c =
    elim (Bool-cases (is_passive_ability a.ability_tag c.ability_information)) [
      | inl passive ↦ rw passive refl
      | inr active ↦ rw active refl
    ]

pub activate_calls-abilities :
    (tag : ℕ) (s : Spec) (c : Component)
    → (activate_calls tag s c).activatable_abilities ≡ c.activatable_abilities
activate_calls-abilities tag s c =
    elim (Bool-cases
      (not (ability_has_any_slot s) && is_passive_ability s.ability_tag c.ability_information)) [
        | inl starts ↦ rw starts refl
        | inr rests ↦ rw rests refl
      ]

-- Where the slot is another ability's, whose slot is cleared.
equip_taken :
    (tag slot : ℕ) (specs : List Spec) (s a : Spec)
    → IsOrderly specs
    → first_spec (is_ability tag) specs ≡ some s
    → first_spec (ability_has_slot slot) specs ≡ some a
    → is_ability tag a ≡ false
    → IsEquipped tag slot specs (
        update_spec
          (is_ability tag)
          (equip_spec slot)
          (update_spec (ability_has_slot slot) clear_slot specs))
equip_taken tag slot specs s a v found taken other =
    let r = release_taken slot specs a v taken in
    let q =
      equip_free tag slot (update_spec (ability_has_slot slot) clear_slot specs) s r.orderly r.free
        (first_spec-update tag (ability_has_slot slot) clear_slot specs a clear_slot-ability_tag
            taken other
          ∙ found) in
    record {
      orderly = q.orderly;
      in_slot = q.in_slot;
      others = λ i apart. omega (arith, q.others i apart, r.no_more i);
    }

-- Equipping an ability that is unlocked or equipped puts it into the slot, whoever held it before: the
-- slot is then the ability's, no slot has two abilities and no ability has two slots, and no other slot
-- has gained one. It takes that order of the slots before the call.
pub server_equip_ability-IsEquipped :
    (tag slot : ℕ) (c : Component) (s : Spec)
    → IsOrderly c.activatable_abilities
    → get_spec_from_ability_tag tag c ≡ some s
    → is_status_valid (get_status_from_spec s.dynamic_ability_tags) ≡ true
    → IsEquipped tag slot c.activatable_abilities
        (server_equip_ability tag slot c).activatable_abilities
unfolding server_equip_ability
server_equip_ability-IsEquipped tag slot c s v found valid =
    elim (Option-cases (get_spec_with_slot slot c)) [
      | inl free ↦
          rw (found, valid, free, activate_calls-abilities tag s c)
            (equip_free tag slot c.activatable_abilities s v
              (holders-free slot c.activatable_abilities free) found)
      | inr (a, taken) ↦ elim (Bool-cases (a.ability_tag == tag)) [
        | inl own ↦
            rw (found, valid, taken, own)
              (record {
                orderly = v;
                in_slot = (a, taken, (==_iff a.ability_tag tag).0 own);
                others = λ i apart. omega arith;
              })
        | inr other ↦
            rw
              (
                found,
                valid,
                taken,
                other,
                activate_calls-abilities tag s (release slot (some a) c),
                release_calls-abilities a c,
              )
              (equip_taken tag slot c.activatable_abilities s a v found taken other)
      ]
    ]
