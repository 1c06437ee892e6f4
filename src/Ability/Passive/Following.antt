-- ===== src/Ability/Passive/Following.antt =====
-- PassiveNiagaraComponent.cpp and `ServerEquipAbility`: the effect of a passive ability and its slot.
use unreal5_gas.Base.{
  ℕ, ◌≡◌, sym, ap, ◌∙◌, subst, inl, inr, true, false, not, ◌&&◌, some, if◌then◌else◌, arith,
  Bool-cases, Option-cases, All,
}
use unreal5_gas.Ability.Spells.{
  Spec, Component, get_input_tag_from_spec, get_status_from_spec, ability_has_slot, is_ability,
  is_passive_ability, first_spec, update_spec, clear_slot, is_status_valid, release, take_slot,
  holds_already, equip_found, server_equip_ability, get_spec_from_ability_tag, get_spec_with_slot,
}
use unreal5_gas.Ability.Spells.Slots.{
  OneSlot, All-update, clear_slot-OneSlot, first_spec-update, clear_slot-ability_tag,
}
use unreal5_gas.Ability.Spells.Found.{release_calls-information}
use unreal5_gas.Ability.Spells.Equip.{release_calls-abilities}
use unreal5_gas.Ability.Passive.Steps.{Follows, fill, release-Follows, equip-Follows}
use unreal5_gas.Ability.Passive.{PassiveNiagara}
use unreal5_gas.Ability.Passive.Heard.{active_client}

module _ (p : PassiveNiagara) (bound : p.is_bound ≡ true) where
  take_slot-Follows :
      (tag slot : ℕ) (s : Spec) (c : Component)
      → All OneSlot c.activatable_abilities
      → is_passive_ability p.passive_spell_tag c.ability_information ≡ true
      → get_spec_from_ability_tag tag c ≡ some s
      → holds_already tag (get_spec_with_slot slot c) ≡ false
      → ((a : Spec)
          → get_spec_with_slot slot c ≡ some a
          → get_spec_from_ability_tag a.ability_tag c ≡ some a)
      → Follows p c
      → Follows p (take_slot tag slot s c)
  take_slot-Follows tag slot s c v passive found apart named follows =
      let specs = c.activatable_abilities in
      elim (Option-cases (get_spec_with_slot slot c)) [
        | inl free ↦
            subst (λ o. Follows p (fill tag slot s (release slot o c))) (sym free)
              (equip-Follows p bound tag slot s c v passive found follows)
        | inr (a, taken) ↦
            let freed = release slot (some a) c in
            let e =
              ap (update_spec (ability_has_slot slot) clear_slot) (release_calls-abilities a c) in
            let other = sym (ap (holds_already tag) taken) ∙ apart in
            subst (λ o. Follows p (fill tag slot s (release slot o c))) (sym taken)
              (equip-Follows p bound tag slot s freed
                (subst (All OneSlot) (sym e) (
                  All-update OneSlot (ability_has_slot slot) clear_slot specs v
                    (λ x h hit. clear_slot-OneSlot x h)))
                (ap (is_passive_ability p.passive_spell_tag) (release_calls-information a c)
                  ∙ passive)
                (ap (first_spec (is_ability tag)) e
                  ∙ first_spec-update tag (ability_has_slot slot) clear_slot specs a
                      clear_slot-ability_tag taken other
                  ∙ found)
                (release-Follows p bound slot a c v passive taken (named a taken) follows))
      ]

  equip_found-Follows :
      (tag slot : ℕ) (s : Spec) (c : Component)
      → All OneSlot c.activatable_abilities
      → is_passive_ability p.passive_spell_tag c.ability_information ≡ true
      → get_spec_from_ability_tag tag c ≡ some s
      → ((a : Spec)
          → get_spec_with_slot slot c ≡ some a
          → get_spec_from_ability_tag a.ability_tag c ≡ some a)
      → Follows p c
      → Follows p (equip_found tag slot (some s) c)
  equip_found-Follows tag slot s c v passive found named follows =
      let taken = take_slot tag slot s c in
      let takes =
        is_status_valid (get_status_from_spec s.dynamic_ability_tags)
        && not (holds_already tag (get_spec_with_slot slot c)) in
      active_client p bound tag slot (get_input_tag_from_spec s.dynamic_ability_tags)
        (if takes then taken else c)
      ∙ elim (Bool-cases takes) [
        | inl takes_it ↦
            subst (λ b. Follows p (if b then taken else c)) (sym takes_it)
              (take_slot-Follows tag slot s c v passive found (ground (arith, takes_it)) named
                follows)
        | inr leaves ↦ subst (λ b. Follows p (if b then taken else c)) (sym leaves) follows
      ]

-- Where an effect that listens belongs to a passive ability, no ability has two slots, and the ability
-- in the slot is the first with its tag, any request to equip an ability in that slot keeps the effect
-- in step: if it is active exactly while its ability has a slot before, it is so after the calls of
-- the request.
pub server_equip_ability-Follows :
    (p : PassiveNiagara) (bound : p.is_bound ≡ true) (tag slot : ℕ) (c : Component)
    → All OneSlot c.activatable_abilities
    → is_passive_ability p.passive_spell_tag c.ability_information ≡ true
    → ((a : Spec)
        → get_spec_with_slot slot c ≡ some a
        → get_spec_from_ability_tag a.ability_tag c ≡ some a)
    → Follows p c
    → Follows p (server_equip_ability tag slot c)
unfolding server_equip_ability
server_equip_ability-Follows p bound tag slot c v passive named follows =
    elim (Option-cases (get_spec_from_ability_tag tag c)) [
      | inl missing ↦ subst (λ o. Follows p (equip_found tag slot o c)) (sym missing) follows
      | inr (s, found) ↦
          subst (λ o. Follows p (equip_found tag slot o c)) (sym found)
            (equip_found-Follows p bound tag slot s c v passive found named follows)
    ]
