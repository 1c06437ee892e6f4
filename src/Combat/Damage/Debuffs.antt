-- ===== src/Combat/Damage/Debuffs.antt =====
-- ExecCalc_Damage.cpp and AuraAbilitySystemLibrary.cpp: the debuff that an effect of damage may have.
use unreal5_gas.Base.{
  ℕ, ◌≡◌, refl, ap, ◌∙◌, ◌⊎◌, inl, inr, Bool, true, false, not, Option, some, if◌then◌else◌,
  Bool-cases,
}
use unreal5_gas.Ability.Context.{Engine, Context}
use unreal5_gas.Combat.Numbers.{Numbers}
use unreal5_gas.Combat.Library.{
  DamageType, arcane, lightning, physical, fire, damage_types, Tags, Handle, DamageEffectParams,
  Spec, same_type, damage_context, apply_damage_effect,
}
use unreal5_gas.Combat.Damage.{Captured, or_value, is_debuffed, set_debuff, determine_debuff}

same_type_self : (t : DamageType) → same_type t t ≡ true
same_type_self arcane = refl
same_type_self lightning = refl
same_type_self physical = refl
same_type_self fire = refl

module _ {e : Engine} (tags : Tags e) (n : Numbers e.Float) where
  -- The one type that may have a debuff.
  determine_debuff-one :
      (captured : Captured e.Float) (spec : Spec e) (roll : DamageType → ℕ) (t : DamageType)
      (h : Handle e)
      → ((u : DamageType) → same_type u t ≡ false → is_debuffed tags n captured spec roll u ≡ false)
      → determine_debuff tags n captured spec roll damage_types h
        ≡ (if is_debuffed tags n captured spec roll t then set_debuff tags n spec t h else h)
  unfolding determine_debuff
  determine_debuff-one captured spec roll arcane h others =
      rw (others lightning refl, others physical refl, others fire refl) refl
  determine_debuff-one captured spec roll lightning h others =
      rw (others arcane refl, others physical refl, others fire refl) refl
  determine_debuff-one captured spec roll physical h others =
      rw (others arcane refl, others lightning refl, others fire refl) refl
  determine_debuff-one captured spec roll fire h others =
      rw (others arcane refl, others lightning refl, others physical refl) refl

  -- The context that `ApplyDamageEffect` hands on.
  abbrev pub carried : DamageEffectParams e → Context e → Context e
  carried p c = record c {
    death_impulse = p.death_impulse;
    knockback_force = p.knockback_force;
    is_radial_damage = p.is_radial_damage;
    radial_damage_inner_radius = p.radial_damage_inner_radius;
    radial_damage_outer_radius = p.radial_damage_outer_radius;
    radial_damage_origin = p.radial_damage_origin;
  }

  -- With the debuff of the parameters.
  abbrev pub with_debuff : DamageEffectParams e → Context e → Context e
  with_debuff p c = record c {
    is_successful_debuff = true;
    damage_type = some (tags.tag_of p.damage_type);
    debuff_damage = p.debuff_damage;
    debuff_duration = p.debuff_duration;
    debuff_frequency = p.debuff_frequency;
  }

  -- The percentage that a resistance, taken as 0 below 0, leaves of a chance.
  abbrev pub chance_left : e.Float → Option e.Float → e.Float
  chance_left chance resistance =
      n.div (n.mul chance (n.sub n.hundred (n.max (or_value n.zero resistance) n.zero))) n.hundred

  -- Which draws give the debuff, with the guard on the damage.
  drawn :
      (captured : Captured e.Float) (p : DamageEffectParams e) (c : Context e)
      (roll : DamageType → ℕ)
      → is_debuffed tags n captured (apply_damage_effect e p (some c)) roll p.damage_type ≡ (
          if not (n.le p.base_damage n.minus_half)
          then not (
              n.le
                (chance_left p.debuff_chance (captured.resistance p.damage_type))
                (n.of_int (roll p.damage_type)))
          else false)
  drawn captured p c roll = rw (same_type_self p.damage_type) refl

  -- The calculation on the spec that `ApplyDamageEffect` makes gives the debuff of its damage type, with
  -- the values of the parameters, if the damage is above -0.5 and the draw for that type is below the
  -- chance that the resistance leaves. Otherwise it leaves the context as it is.
  pub determine_debuff-apply :
      (captured : Captured e.Float) (p : DamageEffectParams e) (c : Context e)
      (roll : DamageType → ℕ)
      → let spec = apply_damage_effect e p (some c) in
        let result = determine_debuff tags n captured spec roll damage_types spec.context in
        let chance = chance_left p.debuff_chance (captured.resistance p.damage_type) in
        ((n.le p.base_damage n.minus_half ≡ false)
          × (n.le chance (n.of_int (roll p.damage_type)) ≡ false)
          × (result ≡ some (with_debuff p (carried p c))))
        ⊎ (((n.le p.base_damage n.minus_half ≡ true)
              ⊎ (n.le chance (n.of_int (roll p.damage_type)) ≡ true))
            × (result ≡ some (carried p c)))
  determine_debuff-apply captured p c roll =
      let spec = apply_damage_effect e p (some c) in
      let chance = chance_left p.debuff_chance (captured.resistance p.damage_type) in
      let above = n.le p.base_damage n.minus_half in
      let missed = n.le chance (n.of_int (roll p.damage_type)) in
      let choice = λ (b : Bool).
        if b
        then set_debuff tags n spec p.damage_type (damage_context e p (some c))
        else damage_context e p (some c) in
      let one =
        determine_debuff-one captured spec roll p.damage_type (damage_context e p (some c))
          (λ u other. rw (other, n.minus_one_half) refl)
        ∙ ap choice (drawn captured p c roll) in
      elim (Bool-cases above) [
        | inl low ↦ inr (inl low, one ∙ ap (λ b. choice (if not b then not missed else false)) low)
        | inr fine ↦ elim (Bool-cases missed) [
          | inl miss ↦ inr (
            inr miss,
            one
                ∙ ap (λ b. choice (if not b then not missed else false)) fine
                ∙ ap (λ b. choice (not b)) miss,
          )
          | inr hit ↦ inl (
            fine,
            hit,
            one
                ∙ ap (λ b. choice (if not b then not missed else false)) fine
                ∙ ap (λ b. choice (not b)) hit,
          )
        ]
      ]
