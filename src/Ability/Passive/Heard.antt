-- ===== src/Ability/Passive/Heard.antt =====
-- PassiveNiagaraComponent.cpp: what a passive effect makes of the calls of `ServerEquipAbility`.
use unreal5_gas.Base.{
  ℕ, ◌≡◌, refl, ap, ◌∙◌, inl, inr, Bool, true, false, not, ◌&&◌, List, [], ◌∷◌, ◌++◌, ◌==◌,
  if◌then◌else◌, Bool-cases,
}
use unreal5_gas.Ability.Spells.{
  equipped, Tag, Call, multicast_activate_passive_effect, client_equip_ability,
  client_update_ability_status, deactivate_passive_ability, try_activate_ability, Spec, Component,
  tell, ability_has_any_slot, is_passive_ability, release_calls, activate_calls,
}
use unreal5_gas.Ability.Passive.{PassiveNiagara, on_passive_activate, hear, hear_all}

hear_all-append :
    (calls : List Call) (call : Call) (p : PassiveNiagara)
    → hear_all (calls ++ (call ∷ [])) p ≡ hear call (hear_all calls p)
unfolding hear_all
hear_all-append [] call p = refl
hear_all-append (c ∷ calls) call p = hear_all-append calls call (hear c p)

-- What stays as it is whatever is heard.
record IsSame (p q : PassiveNiagara) : Type 0 where
  tag : q.passive_spell_tag ≡ p.passive_spell_tag
  bound : q.is_bound ≡ p.is_bound

if-IsSame : (b : Bool) (p q : PassiveNiagara) → IsSame p q → IsSame p (if b then q else p)
if-IsSame true p q same = same
if-IsSame false p q same = record { tag = refl; bound = refl }

hear-IsSame : (call : Call) (p : PassiveNiagara) → IsSame p (hear call p)
unfolding hear
hear-IsSame (multicast_activate_passive_effect tag on) p =
    if-IsSame p.is_bound p (on_passive_activate tag on p) (
      if-IsSame (tag == p.passive_spell_tag) p (record p { is_active = on && not p.is_active })
        (record { tag = refl; bound = refl }))
hear-IsSame (client_equip_ability tag s slot previous) p = record { tag = refl; bound = refl }
hear-IsSame (client_update_ability_status tag s level) p = record { tag = refl; bound = refl }
hear-IsSame (deactivate_passive_ability tag) p = record { tag = refl; bound = refl }
hear-IsSame (try_activate_ability tag) p = record { tag = refl; bound = refl }

hear_all-IsSame : (calls : List Call) (p : PassiveNiagara) → IsSame p (hear_all calls p)
unfolding hear_all
hear_all-IsSame [] p = record { tag = refl; bound = refl }
hear_all-IsSame (call ∷ calls) p =
    let one = hear-IsSame call p in
    let rest = hear_all-IsSame calls (hear call p) in
    record { tag = rest.tag ∙ one.tag; bound = rest.bound ∙ one.bound }

if-is_active :
    (b : Bool) (p q : PassiveNiagara)
    → (if b then p else q).is_active ≡ (if b then p.is_active else q.is_active)
if-is_active true p q = refl
if-is_active false p q = refl

-- What an activation comes to, for a tag that is the effect's or not.
abbrev pub after : Bool → Bool → Bool → Bool
after own on active = if own then on && not active else active

hear-activation :
    (tag : ℕ) (on : Bool) (q : PassiveNiagara)
    → q.is_bound ≡ true
    → (hear (multicast_activate_passive_effect tag on) q).is_active
      ≡ after (tag == q.passive_spell_tag) on q.is_active
unfolding hear
hear-activation tag on q bound =
    ap (λ b. (if b then on_passive_activate tag on q else q).is_active) bound
    ∙ if-is_active (tag == q.passive_spell_tag) (record q { is_active = on && not q.is_active }) q

-- Whether the effect is active after the calls that a component has told.
abbrev pub active : PassiveNiagara → Component → Bool
active p c = (hear_all c.calls p).is_active

module _ (p : PassiveNiagara) (bound : p.is_bound ≡ true) where
  active-tell :
      (tag : ℕ) (on : Bool) (c : Component)
      → active p (tell (multicast_activate_passive_effect tag on) c)
        ≡ after (tag == p.passive_spell_tag) on (active p c)
  active-tell tag on c =
      let same = hear_all-IsSame c.calls p in
      ap (λ x. x.is_active) (hear_all-append c.calls (multicast_activate_passive_effect tag on) p)
      ∙ hear-activation tag on (hear_all c.calls p) (same.bound ∙ bound)
      ∙ ap (λ t. after (tag == t) on (active p c)) same.tag

  -- The other calls of an equip are not heard.
  active_deactivate :
      (tag : ℕ) (c : Component) → active p (tell (deactivate_passive_ability tag) c) ≡ active p c
  unfolding hear
  active_deactivate tag c =
      ap (λ x. x.is_active) (hear_all-append c.calls (deactivate_passive_ability tag) p)

  active_try : (tag : ℕ) (c : Component) → active p (tell (try_activate_ability tag) c) ≡ active p c
  unfolding hear
  active_try tag c = ap (λ x. x.is_active) (hear_all-append c.calls (try_activate_ability tag) p)

  pub active_client :
      (tag slot : ℕ) (previous : Tag) (c : Component)
      → active p (tell (client_equip_ability tag equipped slot previous) c) ≡ active p c
  unfolding hear
  active_client tag slot previous c =
      ap (λ x. x.is_active)
        (hear_all-append c.calls (client_equip_ability tag equipped slot previous) p)

  pub active-release_calls :
      (a : Spec) (c : Component)
      → active p (release_calls a c)
        ≡ after
            (is_passive_ability a.ability_tag c.ability_information
              && (a.ability_tag == p.passive_spell_tag))
            false
            (active p c)
  active-release_calls a c =
      elim (Bool-cases (is_passive_ability a.ability_tag c.ability_information)) [
        | inl passive ↦ rw passive (
            active_deactivate a.ability_tag
              (tell (multicast_activate_passive_effect a.ability_tag false) c)
            ∙ active-tell a.ability_tag false c)
        | inr other ↦ rw other refl
      ]

  pub active-activate_calls :
      (tag : ℕ) (s : Spec) (c : Component)
      → active p (activate_calls tag s c)
        ≡ after
            ((not (ability_has_any_slot s)
                && is_passive_ability s.ability_tag c.ability_information)
              && (tag == p.passive_spell_tag))
            true
            (active p c)
  active-activate_calls tag s c =
      elim (Bool-cases
        (not (ability_has_any_slot s) && is_passive_ability s.ability_tag c.ability_information)) [
          | inl starts ↦ rw starts (
              active-tell tag true (tell (try_activate_ability tag) c)
              ∙ ap (after (tag == p.passive_spell_tag) true) (active_try tag c))
          | inr rests ↦ rw rests refl
        ]
