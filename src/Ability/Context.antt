-- ===== src/Ability/Context.antt =====
-- AuraAbilityTypes.cpp: the context of a gameplay effect, and `NetSerialize`, which sends it. What
-- the engine's archive and its serialisers do is a parameter, an `Engine`.
pub mod RoundTrip
pub mod Samples
pub mod Examples
use unreal5_gas.Base.{
  ℕ, zero, suc, ◌≤◌, ◌≡◌, Bool, true, false, not, ◌&&◌, Option, none, some, List, [], ◌∷◌, ◌++◌,
  if◌then◌else◌, length, take,
}
use unreal5_gas.Base.Fallible.{◌>>=◌}

-- How the engine saves and loads one type of value, in units of the archive. What was saved is loaded
-- again, for the values that it keeps: an array, say, is sent with at most 31 elements.
pub record Codec (A : Type 0) : Type 1 where
  pub write : A → List ℕ
  pub read : List ℕ → Option (A × List ℕ)
  pub Kept : A → Type 0
  pub read_write : (a : A) (s : List ℕ) → Kept a → read (write a ++ s) ≡ some (a, s)

pub record Engine : Type 1 where
  pub Object : Type 0
  pub Hit : Type 0
  pub Vector : Type 0
  pub Float : Type 0
  pub Tag : Type 0
  pub object : Codec (Option Object)
  pub actors : Codec (List Object)
  pub hit : Codec (Option Hit)
  pub vector : Codec Vector
  pub float : Codec Float
  pub flag : Codec Bool
  pub tag : Codec (Option Tag)
  pub zero_float : Float
  pub zero_vector : Vector
  -- `f > 0.f` and `FVector::IsZero`.
  pub is_positive : Float → Bool
  pub is_zero : Vector → Bool
  -- `SerializeBits` of the `n` low bits.
  pub write_bits : ℕ → List Bool → List ℕ
  pub read_bits : ℕ → List ℕ → Option (List Bool × List ℕ)
  pub read_write_bits :
      (n : ℕ) (bits : List Bool) (s : List ℕ)
      → n ≤ length bits
      → read_bits n (write_bits n bits ++ s) ≡ some (take n bits, s)

-- `FAuraGameplayEffectContext` with what it inherits from `FGameplayEffectContext`. `none` is a
-- pointer that is not valid.
pub record Context (e : Engine) : Type 0 where
  pub replicate_instigator : Bool
  pub replicate_effect_causer : Bool
  pub replicate_source_object : Bool
  pub instigator : Option e.Object
  pub effect_causer : Option e.Object
  pub ability_cdo : Option e.Object
  pub source_object : Option e.Object
  pub actors : List e.Object
  pub hit_result : Option e.Hit
  pub has_world_origin : Bool
  pub world_origin : e.Vector
  pub is_blocked_hit : Bool
  pub is_critical_hit : Bool
  pub is_successful_debuff : Bool
  pub debuff_damage : e.Float
  pub debuff_duration : e.Float
  pub debuff_frequency : e.Float
  pub damage_type : Option e.Tag
  pub death_impulse : e.Vector
  pub knockback_force : e.Vector
  pub is_radial_damage : Bool
  pub radial_damage_inner_radius : e.Float
  pub radial_damage_outer_radius : e.Float
  pub radial_damage_origin : e.Vector

abbrev pub is_valid : {A : Type 0} → Option A → Bool
is_valid none = false
is_valid (some a) = true

abbrev is_filled : {A : Type 0} → List A → Bool
is_filled [] = false
is_filled (a ∷ as') = true

-- The bits that the saver sets, lowest first.
abbrev pub rep_bits : (e : Engine) → Context e → List Bool
rep_bits e c =
    (c.replicate_instigator && is_valid c.instigator)
    ∷ (c.replicate_effect_causer && is_valid c.effect_causer)
    ∷ is_valid c.ability_cdo
    ∷ (c.replicate_source_object && is_valid c.source_object)
    ∷ is_filled c.actors
    ∷ is_valid c.hit_result
    ∷ c.has_world_origin
    ∷ c.is_blocked_hit
    ∷ c.is_critical_hit
    ∷ c.is_successful_debuff
    ∷ e.is_positive c.debuff_damage
    ∷ e.is_positive c.debuff_duration
    ∷ e.is_positive c.debuff_frequency
    ∷ is_valid c.damage_type
    ∷ not (e.is_zero c.death_impulse)
    ∷ not (e.is_zero c.knockback_force)
    ∷ c.is_radial_damage
    ∷ (c.is_radial_damage && e.is_positive c.radial_damage_inner_radius)
    ∷ (c.is_radial_damage && e.is_positive c.radial_damage_outer_radius)
    ∷ (c.is_radial_damage && not (e.is_zero c.radial_damage_origin))
    ∷ []

-- `RepBits & (1 << k)`: a bit that was not loaded is 0.
abbrev pub bit : ℕ → List Bool → Bool
bit k [] = false
bit zero (b ∷ bs) = b
bit (suc k) (b ∷ bs) = bit k bs

-- One value under a bit, before the rest of the archive.
unfoldable pub save_if : {A : Type 0} → Bool → Codec A → A → List ℕ → List ℕ
save_if b k a s = if b then k.write a ++ s else s

unfoldable pub load_if : {A : Type 0} → Bool → Codec A → A → List ℕ → Option (A × List ℕ)
load_if b k old s = if b then k.read s else some (old, s)

-- `Ar.SerializeBits(&RepBits, 19)`.
abbrev pub sent_bits : ℕ
sent_bits = 19

-- `NetSerialize` of a saving archive, with what follows in it.
unfoldable pub save : (e : Engine) → Context e → List ℕ → List ℕ
save e c s =
    let b = rep_bits e c in
    e.write_bits sent_bits b
    ++ save_if (bit 0 b) e.object c.instigator (
        save_if (bit 1 b) e.object c.effect_causer (
          save_if (bit 2 b) e.object c.ability_cdo (
            save_if (bit 3 b) e.object c.source_object (
              save_if (bit 4 b) e.actors c.actors (
                save_if (bit 5 b) e.hit c.hit_result (
                  save_if (bit 6 b) e.vector c.world_origin (
                    save_if (bit 7 b) e.flag c.is_blocked_hit (
                      save_if (bit 8 b) e.flag c.is_critical_hit (
                        save_if (bit 9 b) e.flag c.is_successful_debuff (
                          save_if (bit 10 b) e.float c.debuff_damage (
                            save_if (bit 11 b) e.float c.debuff_duration (
                              save_if (bit 12 b) e.float c.debuff_frequency (
                                save_if (bit 13 b) e.tag c.damage_type (
                                  save_if (bit 14 b) e.vector c.death_impulse (
                                    save_if (bit 15 b) e.vector c.knockback_force (
                                      save_if (bit 16 b) e.flag c.is_radial_damage (
                                        save_if (bit 16 b && bit 17 b) e.float
                                          c.radial_damage_inner_radius
                                          (save_if (bit 16 b && bit 18 b) e.float
                                            c.radial_damage_outer_radius
                                            (save_if (bit 16 b && bit 19 b) e.vector
                                              c.radial_damage_origin s)))))))))))))))))))

-- `NetSerialize` of a loading archive, into `c`. The call of `AddInstigator` at its end only looks up
-- the components of the two actors.
unfoldable pub load : (e : Engine) → Context e → List ℕ → Option (Context e × List ℕ)
load e c s = do
  r ← e.read_bits sent_bits s
  let b = r.0
  instigator ← load_if (bit 0 b) e.object c.instigator r.1
  effect_causer ← load_if (bit 1 b) e.object c.effect_causer instigator.1
  ability_cdo ← load_if (bit 2 b) e.object c.ability_cdo effect_causer.1
  source_object ← load_if (bit 3 b) e.object c.source_object ability_cdo.1
  actors ← load_if (bit 4 b) e.actors c.actors source_object.1
  hit_result ← load_if (bit 5 b) e.hit c.hit_result actors.1
  world_origin ← load_if (bit 6 b) e.vector c.world_origin hit_result.1
  is_blocked_hit ← load_if (bit 7 b) e.flag c.is_blocked_hit world_origin.1
  is_critical_hit ← load_if (bit 8 b) e.flag c.is_critical_hit is_blocked_hit.1
  is_successful_debuff ← load_if (bit 9 b) e.flag c.is_successful_debuff is_critical_hit.1
  debuff_damage ← load_if (bit 10 b) e.float c.debuff_damage is_successful_debuff.1
  debuff_duration ← load_if (bit 11 b) e.float c.debuff_duration debuff_damage.1
  debuff_frequency ← load_if (bit 12 b) e.float c.debuff_frequency debuff_duration.1
  damage_type ← load_if (bit 13 b) e.tag c.damage_type debuff_frequency.1
  death_impulse ← load_if (bit 14 b) e.vector c.death_impulse damage_type.1
  knockback_force ← load_if (bit 15 b) e.vector c.knockback_force death_impulse.1
  is_radial_damage ← load_if (bit 16 b) e.flag c.is_radial_damage knockback_force.1
  inner ← load_if (bit 16 b && bit 17 b) e.float c.radial_damage_inner_radius is_radial_damage.1
  outer ← load_if (bit 16 b && bit 18 b) e.float c.radial_damage_outer_radius inner.1
  origin ← load_if (bit 16 b && bit 19 b) e.vector c.radial_damage_origin outer.1
  some (
    record c {
      instigator = instigator.0;
      effect_causer = effect_causer.0;
      ability_cdo = ability_cdo.0;
      source_object = source_object.0;
      actors = actors.0;
      hit_result = hit_result.0;
      has_world_origin = bit 6 b;
      world_origin = world_origin.0;
      is_blocked_hit = is_blocked_hit.0;
      is_critical_hit = is_critical_hit.0;
      is_successful_debuff = is_successful_debuff.0;
      debuff_damage = debuff_damage.0;
      debuff_duration = debuff_duration.0;
      debuff_frequency = debuff_frequency.0;
      damage_type = damage_type.0;
      death_impulse = death_impulse.0;
      knockback_force = knockback_force.0;
      is_radial_damage = is_radial_damage.0;
      radial_damage_inner_radius = inner.0;
      radial_damage_outer_radius = outer.0;
      radial_damage_origin = origin.0;
    },
    origin.1,
  )
