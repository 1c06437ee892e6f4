-- ===== src/Ability/Passive/Steps.antt =====
-- PassiveNiagaraComponent.cpp and `ServerEquipAbility`: a passive effect while a slot is released and
-- taken.
use unreal5_gas.Base.{
  ℕ, ◌≡◌, refl, sym, ap, ◌∙◌, inl, inr, Bool, true, false, not, ◌&&◌, Option, none, some, ◌==◌,
  ==_iff, Bool-cases, All,
}
use unreal5_gas.Ability.Spells.{
  Spec, Component, ability_has_slot, ability_has_any_slot, is_ability, is_passive_ability,
  first_spec, update_spec, clear_slot, equip_spec, release, activate_calls,
  get_spec_from_ability_tag, get_spec_with_slot,
}
use unreal5_gas.Ability.Spells.Slots.{
  OneSlot, first_spec-holds, first_spec-update, clear_slot-HasNoInput, clear_slot-ability_tag,
  equip_spec-ability_tag,
}
use unreal5_gas.Ability.Spells.Found.{first_spec-update_found, unplaced, equip_spec_placed}
use unreal5_gas.Ability.Spells.Equip.{release_calls-abilities, activate_calls-abilities}
use unreal5_gas.Ability.Passive.{PassiveNiagara}
use unreal5_gas.Ability.Passive.Heard.{after, active, active-release_calls, active-activate_calls}

-- An ability that is there and has a slot.
abbrev pub is_placed : Option Spec → Bool
is_placed none = false
is_placed (some s) = ability_has_any_slot s

-- The effect of a free ability starts, and that of a placed one goes on.
after_start : (placed : Bool) → after ((not placed && true) && true) true placed ≡ true
after_start true = refl
after_start false = refl

-- The second half of `take_slot`.
abbrev pub fill : ℕ → ℕ → Spec → Component → Component
fill tag slot s c =
    let told = activate_calls tag s c in
    record told {
      activatable_abilities =
          update_spec (is_ability tag) (equip_spec slot) told.activatable_abilities;
    }

and_false : (a b : Bool) → b ≡ false → (a && b) ≡ false
and_false true b e = e
and_false false b e = refl

-- After all the calls the effect is active exactly if its ability has a slot.
abbrev pub Follows : PassiveNiagara → Component → Type 0
Follows p c = active p c ≡ is_placed (get_spec_from_ability_tag p.passive_spell_tag c)

module _ (p : PassiveNiagara) (bound : p.is_bound ≡ true) where
  pub release-Follows :
      (slot : ℕ) (a : Spec) (c : Component)
      → All OneSlot c.activatable_abilities
      → is_passive_ability p.passive_spell_tag c.ability_information ≡ true
      → get_spec_with_slot slot c ≡ some a
      → get_spec_from_ability_tag a.ability_tag c ≡ some a
      → Follows p c
      → Follows p (release slot (some a) c)
  release-Follows slot a c v passive taken named follows =
      let specs = c.activatable_abilities in
      let held = first_spec-holds OneSlot (ability_has_slot slot) specs a v taken in
      let moved =
        ap
          (λ l.
            first_spec (is_ability p.passive_spell_tag)
              (update_spec (ability_has_slot slot) clear_slot l))
          (release_calls-abilities a c) in
      elim (Bool-cases (a.ability_tag == p.passive_spell_tag)) [
        | inl own ↦
            let e = (==_iff a.ability_tag p.passive_spell_tag).0 own in
            let told = ap (λ t. is_passive_ability t c.ability_information) e ∙ passive in
            let gone =
              moved
              ∙ first_spec-update_found (ability_has_slot slot) (is_ability p.passive_spell_tag)
                  clear_slot specs a taken held.1
                  (ap (λ t. first_spec (is_ability t) specs) (sym e) ∙ named)
                  (ap (λ t. t == p.passive_spell_tag) (clear_slot-ability_tag a) ∙ own) in
            active-release_calls p bound a c
            ∙ ap (λ b. after b false (active p c))
                (ap (λ b. b && (a.ability_tag == p.passive_spell_tag)) told ∙ own)
            ∙ sym (
                ap is_placed gone
                ∙ unplaced (clear_slot a).dynamic_ability_tags (clear_slot-HasNoInput a held.0))
        | inr other ↦
            active-release_calls p bound a c
            ∙ ap (λ b. after b false (active p c))
                (and_false (is_passive_ability a.ability_tag c.ability_information)
                  (a.ability_tag == p.passive_spell_tag) other)
            ∙ follows
            ∙ sym (
                ap is_placed (
                  moved
                  ∙ first_spec-update p.passive_spell_tag (ability_has_slot slot) clear_slot specs a
                      clear_slot-ability_tag taken other))
      ]

  pub equip-Follows :
      (tag slot : ℕ) (s : Spec) (c : Component)
      → All OneSlot c.activatable_abilities
      → is_passive_ability p.passive_spell_tag c.ability_information ≡ true
      → get_spec_from_ability_tag tag c ≡ some s
      → Follows p c
      → Follows p (fill tag slot s c)
  equip-Follows tag slot s c v passive found follows =
      let specs = c.activatable_abilities in
      let (one, at_tag) = first_spec-holds OneSlot (is_ability tag) specs s v found in
      let same = (==_iff s.ability_tag tag).0 at_tag in
      let starts =
        not (ability_has_any_slot s) && is_passive_ability s.ability_tag c.ability_information in
      let moved =
        ap
          (λ l.
            first_spec (is_ability p.passive_spell_tag)
              (update_spec (is_ability tag) (equip_spec slot) l))
          (activate_calls-abilities tag s c) in
      elim (Bool-cases (tag == p.passive_spell_tag)) [
        | inl own ↦
            let e = (==_iff tag p.passive_spell_tag).0 own in
            let told = ap (λ t. is_passive_ability t c.ability_information) (same ∙ e) ∙ passive in
            let before =
              follows ∙ ap is_placed (ap (λ t. first_spec (is_ability t) specs) (sym e) ∙ found) in
            let placed =
              moved
              ∙ first_spec-update_found (is_ability tag) (is_ability p.passive_spell_tag)
                  (equip_spec slot) specs s found at_tag
                  (ap (λ t. first_spec (is_ability t) specs) (sym e) ∙ found)
                  (ap (λ t. t == p.passive_spell_tag) (equip_spec-ability_tag slot s ∙ same)
                    ∙ own) in
            active-activate_calls p bound tag s c
            ∙ ap
                (λ b.
                  after ((not (ability_has_any_slot s) && b) && (tag == p.passive_spell_tag)) true
                    (active p c))
                told
            ∙ ap (λ b. after ((not (ability_has_any_slot s) && true) && b) true (active p c)) own
            ∙ ap (after ((not (ability_has_any_slot s) && true) && true) true) before
            ∙ after_start (ability_has_any_slot s)
            ∙ sym (ap is_placed placed ∙ equip_spec_placed slot s one)
        | inr other ↦
            active-activate_calls p bound tag s c
            ∙ ap (λ b. after b true (active p c))
                (and_false starts (tag == p.passive_spell_tag) other)
            ∙ follows
            ∙ sym (
                ap is_placed (
                  moved
                  ∙ first_spec-update p.passive_spell_tag (is_ability tag) (equip_spec slot) specs s
                      (equip_spec-ability_tag slot) found
                      (ap (λ t. t == p.passive_spell_tag) same ∙ other)))
      ]
