-- ===== src/Ability/Context/RoundTrip.antt =====
-- AuraAbilityTypes.cpp: what arrives of a context that is sent.
use unreal5_gas.Base.{
  ℕ, ◌≡◌, refl, ◌∙◌, ap, Bool, true, false, ◌&&◌, Option, some, List, if◌then◌else◌, arith,
}
use unreal5_gas.Base.Fallible.{◌>>=◌}
use unreal5_gas.Ability.Context.{
  Codec, Engine, Context, rep_bits, bit, save_if, load_if, save, load, sent_bits,
}

load_if-save_if :
    {A : Type 0} (b : Bool) (k : Codec A) (a old : A) (s : List ℕ)
    → k.Kept a
    → load_if b k old (save_if b k a s) ≡ some (if b then a else old, s)
unfolding load_if save_if
load_if-save_if true k a old s kept = k.read_write a s kept
load_if-save_if false k a old s kept = refl

-- One step of a chain, by what it returns.
then_step {ℓ κ} :
    {A : Type ℓ} {B : Type κ} {m : Option A} {a : A} (f : A → Option B) {r : Option B}
    → m ≡ some a
    → f a ≡ r
    → (m >>= f) ≡ r
then_step f e g = ap (λ o. o >>= f) e ∙ g

-- The engine's serialisers keep each value of the context.
pub record IsKept (e : Engine) (c : Context e) : Type 0 where
  pub instigator : e.object.Kept c.instigator
  pub effect_causer : e.object.Kept c.effect_causer
  pub ability_cdo : e.object.Kept c.ability_cdo
  pub source_object : e.object.Kept c.source_object
  pub actors : e.actors.Kept c.actors
  pub hit_result : e.hit.Kept c.hit_result
  pub world_origin : e.vector.Kept c.world_origin
  pub is_blocked_hit : e.flag.Kept c.is_blocked_hit
  pub is_critical_hit : e.flag.Kept c.is_critical_hit
  pub is_successful_debuff : e.flag.Kept c.is_successful_debuff
  pub debuff_damage : e.float.Kept c.debuff_damage
  pub debuff_duration : e.float.Kept c.debuff_duration
  pub debuff_frequency : e.float.Kept c.debuff_frequency
  pub damage_type : e.tag.Kept c.damage_type
  pub death_impulse : e.vector.Kept c.death_impulse
  pub knockback_force : e.vector.Kept c.knockback_force
  pub is_radial_damage : e.flag.Kept c.is_radial_damage
  pub inner : e.float.Kept c.radial_damage_inner_radius
  pub outer : e.float.Kept c.radial_damage_outer_radius

-- What the receiver `old` holds after `c` was sent to it: the values whose bits are sent, and its own.
abbrev pub received : (e : Engine) → Context e → Context e → Context e
received e c old =
    let b = rep_bits e c in
    record old {
      instigator = if bit 0 b then c.instigator else old.instigator;
      effect_causer = if bit 1 b then c.effect_causer else old.effect_causer;
      ability_cdo = if bit 2 b then c.ability_cdo else old.ability_cdo;
      source_object = if bit 3 b then c.source_object else old.source_object;
      actors = if bit 4 b then c.actors else old.actors;
      hit_result = if bit 5 b then c.hit_result else old.hit_result;
      has_world_origin = c.has_world_origin;
      world_origin = if c.has_world_origin then c.world_origin else old.world_origin;
      is_blocked_hit = if c.is_blocked_hit then c.is_blocked_hit else old.is_blocked_hit;
      is_critical_hit = if c.is_critical_hit then c.is_critical_hit else old.is_critical_hit;
      is_successful_debuff =
          if c.is_successful_debuff then c.is_successful_debuff else old.is_successful_debuff;
      debuff_damage = if bit 10 b then c.debuff_damage else old.debuff_damage;
      debuff_duration = if bit 11 b then c.debuff_duration else old.debuff_duration;
      debuff_frequency = if bit 12 b then c.debuff_frequency else old.debuff_frequency;
      damage_type = if bit 13 b then c.damage_type else old.damage_type;
      death_impulse = if bit 14 b then c.death_impulse else old.death_impulse;
      knockback_force = if bit 15 b then c.knockback_force else old.knockback_force;
      is_radial_damage = if c.is_radial_damage then c.is_radial_damage else old.is_radial_damage;
      radial_damage_inner_radius =
          if c.is_radial_damage && bit 17 b
          then c.radial_damage_inner_radius
          else old.radial_damage_inner_radius;
      radial_damage_outer_radius =
          if c.is_radial_damage && bit 18 b
          then c.radial_damage_outer_radius
          else old.radial_damage_outer_radius;
      radial_damage_origin = old.radial_damage_origin;
    }

load_if-not_sent :
    {A : Type 0} (b : Bool) (k : Codec A) (old : A) (s : List ℕ)
    → load_if (b && false) k old s ≡ some (old, s)
unfolding load_if
load_if-not_sent true k old s = refl
load_if-not_sent false k old s = refl

-- A context that is sent arrives with every value whose bit is sent. The origin of radial damage never
-- arrives: the saver writes it under bit 19, and only bits 0 to 18 are sent, so the loader leaves it in
-- the archive, before what follows.
pub load-save :
    (e : Engine) (c old : Context e) (s : List ℕ)
    → IsKept e c
    → load e old (save e c s)
      ≡ some (
        received e c old,
        save_if (c.is_radial_damage && bit 19 (rep_bits e c)) e.vector c.radial_damage_origin s,
      )
unfolding load save
load-save e c old s k = then_step _ (e.read_write_bits sent_bits (rep_bits e c) _ (omega arith)) (
    then_step _ (load_if-save_if _ e.object c.instigator old.instigator _ k.instigator) (
      then_step _ (load_if-save_if _ e.object c.effect_causer old.effect_causer _ k.effect_causer) (
        then_step _ (load_if-save_if _ e.object c.ability_cdo old.ability_cdo _ k.ability_cdo) (
          then_step _
            (load_if-save_if _ e.object c.source_object old.source_object _ k.source_object)
            (then_step _ (load_if-save_if _ e.actors c.actors old.actors _ k.actors) (
              then_step _ (load_if-save_if _ e.hit c.hit_result old.hit_result _ k.hit_result) (
                then_step _
                  (load_if-save_if _ e.vector c.world_origin old.world_origin _ k.world_origin)
                  (then_step _
                    (load_if-save_if _ e.flag c.is_blocked_hit old.is_blocked_hit _
                      k.is_blocked_hit)
                    (then_step _
                      (load_if-save_if _ e.flag c.is_critical_hit old.is_critical_hit _
                        k.is_critical_hit)
                      (then_step _
                        (load_if-save_if _ e.flag c.is_successful_debuff old.is_successful_debuff _
                          k.is_successful_debuff)
                        (then_step _
                          (load_if-save_if _ e.float c.debuff_damage old.debuff_damage _
                            k.debuff_damage)
                          (then_step _
                            (load_if-save_if _ e.float c.debuff_duration old.debuff_duration _
                              k.debuff_duration)
                            (then_step _
                              (load_if-save_if _ e.float c.debuff_frequency old.debuff_frequency _
                                k.debuff_frequency)
                              (then_step _
                                (load_if-save_if _ e.tag c.damage_type old.damage_type _
                                  k.damage_type)
                                (then_step _
                                  (load_if-save_if _ e.vector c.death_impulse old.death_impulse _
                                    k.death_impulse)
                                  (then_step _
                                    (load_if-save_if _ e.vector c.knockback_force
                                      old.knockback_force _ k.knockback_force)
                                    (then_step _
                                      (load_if-save_if _ e.flag c.is_radial_damage
                                        old.is_radial_damage _ k.is_radial_damage)
                                      (then_step _
                                        (load_if-save_if _ e.float c.radial_damage_inner_radius
                                          old.radial_damage_inner_radius _ k.inner)
                                        (then_step _
                                          (load_if-save_if _ e.float c.radial_damage_outer_radius
                                            old.radial_damage_outer_radius _ k.outer)
                                          (then_step _
                                            (load_if-not_sent c.is_radial_damage e.vector
                                              old.radial_damage_origin _)
                                            refl))))))))))))))))))))
