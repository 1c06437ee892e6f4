-- ===== src/Combat/Damage.antt =====
-- ExecCalc_Damage.cpp: the damage of an effect, its debuff, and whether it is blocked or critical. What
-- the engine captures and draws, the curves of the character class and what the engine's radial damage
-- broadcasts to the target's combat interface, if it has one, are arguments. A radial callback is called
-- while its variable is alive.
pub mod Bounds
pub mod Ignored
pub mod Debuffs
use unreal5_gas.Base.{ℕ, Bool, true, false, Option, none, some, List, [], ◌∷◌, if◌then◌else◌}
use unreal5_gas.Base.Fallible.{◌>>=◌}
use unreal5_gas.Ability.Context.{Engine, Context}
use unreal5_gas.Combat.Numbers.{Numbers, lt, reduced}
use unreal5_gas.Combat.Library.{
  DamageType, damage_types, Tags, Handle, Spec, is_radial_damage, set_is_blocked_hit,
  set_is_critical_hit, set_is_successful_debuff, set_debuff_damage, set_debuff_duration,
  set_debuff_frequency, set_damage_type,
}

-- `AttemptCalculateCapturedAttributeMagnitude`: `none` leaves the variable, which is 0.
pub record Captured (F : Type 0) : Type 0 where
  pub resistance : DamageType → Option F
  pub block_chance : Option F
  pub armor : Option F
  pub armor_penetration : Option F
  pub critical_hit_chance : Option F
  pub critical_hit_resistance : Option F
  pub critical_hit_damage : Option F

-- The curves of `DamageCalculationCoefficients`, by level.
pub record Coefficients (F : Type 0) : Type 0 where
  pub armor_penetration : ℕ → F
  pub effective_armor : ℕ → F
  pub critical_hit_resistance : ℕ → F

-- What `RandRange(1, 100)` draws.
pub record Rolls : Type 0 where
  pub debuff : DamageType → ℕ
  pub block : ℕ
  pub critical_hit : ℕ

-- An avatar, by the level that its combat interface says, if it has one. `none` is a null pointer.
abbrev pub Avatar : Type 0
Avatar = Option (Option ℕ)

-- `1` without the interface; a null avatar is dereferenced.
abbrev pub level_of : Avatar → Option ℕ
level_of none = none
level_of (some none) = some 1
level_of (some (some level)) = some level

abbrev pub or_value : {F : Type 0} → F → Option F → F
or_value d none = d
or_value d (some f) = f

abbrev pub last_of : {F : Type 0} → F → List F → F
last_of f [] = f
last_of f (g ∷ gs) = last_of g gs

module _ {e : Engine} (tags : Tags e) (n : Numbers e.Float) where
  -- One step of `DetermineDebuff`, on the context.
  abbrev pub debuff_chance : Captured e.Float → Spec e → DamageType → e.Float
  debuff_chance captured spec t =
      n.div
        (n.mul (or_value n.minus_one spec.debuff_chance)
          (n.sub n.hundred (n.max (or_value n.zero (captured.resistance t)) n.zero)))
        n.hundred

  abbrev pub is_debuffed : Captured e.Float → Spec e → (DamageType → ℕ) → DamageType → Bool
  is_debuffed captured spec roll t =
      if lt n n.minus_half (or_value n.minus_one (spec.magnitude t))
      then lt n (n.of_int (roll t)) (debuff_chance captured spec t)
      else false

  abbrev pub set_debuff : Spec e → DamageType → Handle e → Handle e
  set_debuff spec t h = set_debuff_frequency e (or_value n.minus_one spec.debuff_frequency) (
      set_debuff_duration e (or_value n.minus_one spec.debuff_duration) (
        set_debuff_damage e (or_value n.minus_one spec.debuff_damage)
          (set_damage_type e (tags.tag_of t) (set_is_successful_debuff e true h))))

  -- `DetermineDebuff`.
  unfoldable pub determine_debuff :
      Captured e.Float → Spec e → (DamageType → ℕ) → List DamageType → Handle e → Handle e
  determine_debuff captured spec roll [] h = h
  determine_debuff captured spec roll (t ∷ ts) h =
      determine_debuff captured spec roll ts
        (if is_debuffed captured spec roll t then set_debuff spec t h else h)

  -- One damage type of a positive value: what its resistance leaves, as radial damage settles it.
  abbrev pub damage_of_type :
      Captured e.Float → Spec e → Handle e → (e.Float → List e.Float) → DamageType → e.Float
  damage_of_type captured spec h broadcast t =
      let value = or_value n.zero (spec.magnitude t) in
      let resistance = n.clamp (or_value n.zero (captured.resistance t)) n.zero n.hundred in
      let left = reduced n value resistance in
      if is_radial_damage e h then last_of left (broadcast left) else left

  -- The loop over `DamageTypesToResistances`; a type that is skipped adds nothing.
  unfoldable pub typed_damage :
      Captured e.Float
      → Spec e
      → Handle e
      → (e.Float → List e.Float)
      → List DamageType
      → e.Float
      → e.Float
  typed_damage captured spec h broadcast [] damage = damage
  typed_damage captured spec h broadcast (t ∷ ts) damage =
      typed_damage captured spec h broadcast ts (
        if n.le (or_value n.zero (spec.magnitude t)) n.zero
        then damage
        else n.add damage (damage_of_type captured spec h broadcast t))

  -- What armor takes off, in percent: the penetration ignores a part of the armor.
  abbrev pub armor_percent : Captured e.Float → Coefficients e.Float → ℕ → ℕ → e.Float
  armor_percent captured k source_level target_level =
      let armor = n.max (or_value n.zero captured.armor) n.zero in
      let penetration = n.max (or_value n.zero captured.armor_penetration) n.zero in
      let effective =
        n.div (n.mul armor (n.sub n.hundred (n.mul penetration (k.armor_penetration source_level))))
          n.hundred in
      n.mul effective (k.effective_armor target_level)

  abbrev pub is_blocked : Captured e.Float → Rolls → Bool
  is_blocked captured rolls =
      lt n (n.of_int rolls.block) (n.max (or_value n.zero captured.block_chance) n.zero)

  abbrev pub is_critical : Captured e.Float → Rolls → Bool
  is_critical captured rolls =
      lt n (n.of_int rolls.critical_hit)
        (n.max (or_value n.zero captured.critical_hit_chance) n.zero)

  -- `Damage *= (100 - EffectiveArmor * EffectiveArmorCoefficient) / 100.f`, which multiplies by the
  -- quotient.
  abbrev pub armored : Captured e.Float → Coefficients e.Float → ℕ → ℕ → e.Float → e.Float
  armored captured k source_level target_level damage =
      reduced n damage (armor_percent captured k source_level target_level)

  abbrev pub critical_damage : Captured e.Float → Rolls → e.Float → e.Float
  critical_damage captured rolls damage =
      if is_critical captured rolls
      then n.add (n.mul n.two damage) (n.max (or_value n.zero captured.critical_hit_damage) n.zero)
      else damage

  -- `Execute_Implementation`: the damage that is added to the incoming damage, and the context.
  unfoldable pub execute :
      Captured e.Float
      → Coefficients e.Float
      → Rolls
      → (e.Float → List e.Float)
      → Avatar
      → Avatar
      → Spec e
      → Option (e.Float × Handle e)
  unfolding determine_debuff typed_damage
  execute captured k rolls broadcast source target spec = do
    source_level ← level_of source
    target_level ← level_of target
    let h = determine_debuff captured spec rolls.debuff damage_types spec.context
    let damage = typed_damage captured spec h broadcast damage_types n.zero
    let left = armored captured k source_level target_level damage
    some (
      critical_damage captured rolls left,
      set_is_critical_hit e (is_critical captured rolls)
          (set_is_blocked_hit e (is_blocked captured rolls) h),
    )
