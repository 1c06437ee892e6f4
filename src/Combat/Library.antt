-- ===== src/Combat/Library.antt =====
-- AuraAbilitySystemLibrary.cpp: the context of an effect behind its handle, and the parameters of an
-- effect of damage. `none` is a handle without a context.
use unreal5_gas.Base.{ℕ, ◌≡◌, Bool, true, false, Option, none, some, List, [], ◌∷◌, if◌then◌else◌}
use unreal5_gas.Ability.Context.{Engine, Context}

-- The tags below `Damage` that `DamageTypesToResistances` and `DamageTypesToDebuffs` list, in the
-- order in which AuraGameplayTags.cpp adds them. The resistance and the debuff of a type are known by it.
pub data DamageType : Type 0 where
  arcane lightning physical fire : DamageType

abbrev pub damage_types : List DamageType
damage_types = arcane ∷ lightning ∷ physical ∷ fire ∷ []

abbrev pub same_type : DamageType → DamageType → Bool
same_type arcane arcane = true
same_type lightning lightning = true
same_type physical physical = true
same_type fire fire = true
same_type _ _ = false

-- The engine's tags of the damage types, and its directions: `Normalize`, the product with a float and
-- `IsNearlyZero(1.f)`.
pub record Tags (e : Engine) : Type 0 where
  pub tag_of : DamageType → e.Tag
  pub type_of : e.Tag → Option DamageType
  pub type_of_tag : (t : DamageType) → type_of (tag_of t) ≡ some t

pub record Directions (e : Engine) : Type 0 where
  pub normalize : e.Vector → e.Vector
  pub scale : e.Vector → e.Float → e.Vector
  pub is_nearly_zero : e.Vector → Bool

module _ (e : Engine) where
  abbrev pub Handle : Type 0
  Handle = Option (Context e)

  -- The getters, with their defaults.
  abbrev pub is_blocked_hit : Handle → Bool
  is_blocked_hit none = false
  is_blocked_hit (some c) = c.is_blocked_hit

  abbrev pub is_critical_hit : Handle → Bool
  is_critical_hit none = false
  is_critical_hit (some c) = c.is_critical_hit

  abbrev pub is_successful_debuff : Handle → Bool
  is_successful_debuff none = false
  is_successful_debuff (some c) = c.is_successful_debuff

  abbrev pub is_radial_damage : Handle → Bool
  is_radial_damage none = false
  is_radial_damage (some c) = c.is_radial_damage

  abbrev pub get_debuff_damage : Handle → e.Float
  get_debuff_damage none = e.zero_float
  get_debuff_damage (some c) = c.debuff_damage

  abbrev pub get_debuff_duration : Handle → e.Float
  get_debuff_duration none = e.zero_float
  get_debuff_duration (some c) = c.debuff_duration

  abbrev pub get_debuff_frequency : Handle → e.Float
  get_debuff_frequency none = e.zero_float
  get_debuff_frequency (some c) = c.debuff_frequency

  -- `none` is the empty tag.
  abbrev pub get_damage_type : Handle → Option e.Tag
  get_damage_type none = none
  get_damage_type (some c) = c.damage_type

  abbrev pub get_death_impulse : Handle → e.Vector
  get_death_impulse none = e.zero_vector
  get_death_impulse (some c) = c.death_impulse

  abbrev pub get_knockback_force : Handle → e.Vector
  get_knockback_force none = e.zero_vector
  get_knockback_force (some c) = c.knockback_force

  abbrev pub get_radial_damage_inner_radius : Handle → e.Float
  get_radial_damage_inner_radius none = e.zero_float
  get_radial_damage_inner_radius (some c) = c.radial_damage_inner_radius

  abbrev pub get_radial_damage_outer_radius : Handle → e.Float
  get_radial_damage_outer_radius none = e.zero_float
  get_radial_damage_outer_radius (some c) = c.radial_damage_outer_radius

  abbrev pub get_radial_damage_origin : Handle → e.Vector
  get_radial_damage_origin none = e.zero_vector
  get_radial_damage_origin (some c) = c.radial_damage_origin

  -- The setters, which do nothing without a context.
  abbrev pub set_is_blocked_hit : Bool → Handle → Handle
  set_is_blocked_hit b none = none
  set_is_blocked_hit b (some c) = some (record c { is_blocked_hit = b })

  abbrev pub set_is_critical_hit : Bool → Handle → Handle
  set_is_critical_hit b none = none
  set_is_critical_hit b (some c) = some (record c { is_critical_hit = b })

  abbrev pub set_is_successful_debuff : Bool → Handle → Handle
  set_is_successful_debuff b none = none
  set_is_successful_debuff b (some c) = some (record c { is_successful_debuff = b })

  abbrev pub set_debuff_damage : e.Float → Handle → Handle
  set_debuff_damage f none = none
  set_debuff_damage f (some c) = some (record c { debuff_damage = f })

  abbrev pub set_debuff_duration : e.Float → Handle → Handle
  set_debuff_duration f none = none
  set_debuff_duration f (some c) = some (record c { debuff_duration = f })

  abbrev pub set_debuff_frequency : e.Float → Handle → Handle
  set_debuff_frequency f none = none
  set_debuff_frequency f (some c) = some (record c { debuff_frequency = f })

  abbrev pub set_damage_type : e.Tag → Handle → Handle
  set_damage_type t none = none
  set_damage_type t (some c) = some (record c { damage_type = some t })

  abbrev pub set_death_impulse : e.Vector → Handle → Handle
  set_death_impulse v none = none
  set_death_impulse v (some c) = some (record c { death_impulse = v })

  abbrev pub set_knockback_force : e.Vector → Handle → Handle
  set_knockback_force v none = none
  set_knockback_force v (some c) = some (record c { knockback_force = v })

  abbrev pub set_is_radial_damage : Bool → Handle → Handle
  set_is_radial_damage b none = none
  set_is_radial_damage b (some c) = some (record c { is_radial_damage = b })

  abbrev pub set_radial_damage_inner_radius : e.Float → Handle → Handle
  set_radial_damage_inner_radius f none = none
  set_radial_damage_inner_radius f (some c) = some (record c { radial_damage_inner_radius = f })

  abbrev pub set_radial_damage_outer_radius : e.Float → Handle → Handle
  set_radial_damage_outer_radius f none = none
  set_radial_damage_outer_radius f (some c) = some (record c { radial_damage_outer_radius = f })

  abbrev pub set_radial_damage_origin : e.Vector → Handle → Handle
  set_radial_damage_origin v none = none
  set_radial_damage_origin v (some c) = some (record c { radial_damage_origin = v })

  -- `FDamageEffectParams`, without the class of the effect, the components, the world and the chance of
  -- a knockback, which only abilities read.
  pub record DamageEffectParams : Type 0 where
    pub base_damage : e.Float
    pub ability_level : ℕ
    pub damage_type : DamageType
    pub debuff_chance : e.Float
    pub debuff_damage : e.Float
    pub debuff_duration : e.Float
    pub debuff_frequency : e.Float
    pub death_impulse_magnitude : e.Float
    pub death_impulse : e.Vector
    pub knockback_force_magnitude : e.Float
    pub knockback_force : e.Vector
    pub is_radial_damage : Bool
    pub radial_damage_inner_radius : e.Float
    pub radial_damage_outer_radius : e.Float
    pub radial_damage_origin : e.Vector

  -- `FGameplayEffectSpec` of damage: the magnitudes set by the caller, where they are set.
  pub record Spec : Type 0 where
    pub magnitude : DamageType → Option e.Float
    pub debuff_chance : Option e.Float
    pub debuff_damage : Option e.Float
    pub debuff_duration : Option e.Float
    pub debuff_frequency : Option e.Float
    pub context : Handle
    pub level : ℕ

  -- `SetIsRadialDamageEffectParam`.
  abbrev pub set_is_radial_damage_effect_param :
      Bool → e.Float → e.Float → e.Vector → DamageEffectParams → DamageEffectParams
  set_is_radial_damage_effect_param is_radial inner outer origin p = record p {
    is_radial_damage = is_radial;
    radial_damage_inner_radius = inner;
    radial_damage_outer_radius = outer;
    radial_damage_origin = origin;
  }

  -- `SetKnockbackDirection` and `SetDeathImpulseDirection`: a magnitude of 0 is that of the parameters.
  abbrev pub set_knockback_direction :
      Directions e → (e.Float → Bool) → e.Vector → e.Float → DamageEffectParams → DamageEffectParams
  set_knockback_direction d is_zero direction magnitude p = record p {
    knockback_force =
        d.scale (d.normalize direction)
          (if is_zero magnitude then p.knockback_force_magnitude else magnitude);
  }

  abbrev pub set_death_impulse_direction :
      Directions e → (e.Float → Bool) → e.Vector → e.Float → DamageEffectParams → DamageEffectParams
  set_death_impulse_direction d is_zero direction magnitude p = record p {
    death_impulse =
        d.scale (d.normalize direction)
          (if is_zero magnitude then p.death_impulse_magnitude else magnitude);
  }

  -- `ApplyDamageEffect`: the context that it makes of a new one, and the spec that the target gets.
  abbrev pub damage_context : DamageEffectParams → Handle → Handle
  damage_context p h = set_radial_damage_origin p.radial_damage_origin (
      set_radial_damage_outer_radius p.radial_damage_outer_radius (
        set_radial_damage_inner_radius p.radial_damage_inner_radius (
          set_is_radial_damage p.is_radial_damage
            (set_knockback_force p.knockback_force (set_death_impulse p.death_impulse h)))))

  abbrev pub apply_damage_effect : DamageEffectParams → Handle → Spec
  apply_damage_effect p h = record {
    magnitude = λ t. if same_type t p.damage_type then some p.base_damage else none;
    debuff_chance = some p.debuff_chance;
    debuff_damage = some p.debuff_damage;
    debuff_duration = some p.debuff_duration;
    debuff_frequency = some p.debuff_frequency;
    context = damage_context p h;
    level = p.ability_level;
  }
