-- ===== src/Ability/Context/Samples.antt =====
-- An engine whose values are numbers, for the tests.
use unreal5_gas.Base.{
  ℕ, zero, suc, ◌≤◌, ◌≡◌, refl, sym, ap, Bool, true, false, not, Option, none, some, List, [], ◌∷◌,
  ◌++◌, arith, if◌then◌else◌, length, take, ltb, ◌==◌,
}
use unreal5_gas.Ability.Context.{Codec, Engine, Context}

abbrev pub first_unit : List ℕ → Option (ℕ × List ℕ)
first_unit [] = none
first_unit (n ∷ s) = some (n, s)

abbrev pub number : Codec ℕ
number = record {
  write = λ n. n ∷ [];
  read = first_unit;
  Kept = λ n. Unit {0};
  read_write = λ n s kept. refl;
}

unfoldable pub first_pointer : List ℕ → Option (Option ℕ × List ℕ)
first_pointer [] = none
first_pointer (zero ∷ s) = some (none, s)
first_pointer (suc n ∷ s) = some (some n, s)

unfoldable pub pointer_units : Option ℕ → List ℕ
pointer_units none = 0 ∷ []
pointer_units (some n) = suc n ∷ []

pub first_pointer-units :
    (o : Option ℕ) (s : List ℕ) → first_pointer (pointer_units o ++ s) ≡ some (o, s)
unfolding first_pointer pointer_units
first_pointer-units none s = refl
first_pointer-units (some n) s = refl

abbrev pub pointer : Codec (Option ℕ)
pointer = record {
  write = pointer_units;
  read = first_pointer;
  Kept = λ o. Unit {0};
  read_write = λ o s kept. first_pointer-units o s;
}

unfoldable pub first_flag : List ℕ → Option (Bool × List ℕ)
first_flag [] = none
first_flag (n ∷ s) = some (not (n == 0), s)

unfoldable pub flag_units : Bool → List ℕ
flag_units b = (if b then 1 else 0) ∷ []

pub first_flag-units : (b : Bool) (s : List ℕ) → first_flag (flag_units b ++ s) ≡ some (b, s)
unfolding first_flag flag_units
first_flag-units true s = refl
first_flag-units false s = refl

abbrev pub flag : Codec Bool
flag = record {
  write = flag_units;
  read = first_flag;
  Kept = λ b. Unit {0};
  read_write = λ b s kept. first_flag-units b s;
}

abbrev pub no_actors : Codec (List ℕ)
no_actors = record {
  write = λ as'. [];
  read = λ s. some ([], s);
  Kept = λ as'. as' ≡ [];
  read_write = λ as' s kept. ap (λ x. some (x, s)) (sym kept);
}

unfoldable pub write_bits : ℕ → List Bool → List ℕ
unfolding flag_units
write_bits zero bits = []
write_bits (suc n) [] = []
write_bits (suc n) (b ∷ bits) = flag_units b ++ write_bits n bits

abbrev pub and_bit :
    Option (Bool × List ℕ) → Option (List Bool × List ℕ) → Option (List Bool × List ℕ)
and_bit (some (b, _)) (some (bits, s)) = some (b ∷ bits, s)
and_bit _ _ = none

unfoldable pub read_bits : ℕ → List ℕ → Option (List Bool × List ℕ)
read_bits zero s = some ([], s)
read_bits (suc n) [] = none
read_bits (suc n) (m ∷ s) = and_bit (first_flag (m ∷ s)) (read_bits n s)

pub read_bits-write_bits :
    (n : ℕ) (bits : List Bool) (s : List ℕ)
    → n ≤ length bits
    → read_bits n (write_bits n bits ++ s) ≡ some (take n bits, s)
unfolding read_bits write_bits flag_units first_flag
read_bits-write_bits zero bits s h = refl
read_bits-write_bits (suc n) [] s h = absurd (omega arith)
read_bits-write_bits (suc n) (true ∷ bits) s h = rw (read_bits-write_bits n bits s (omega arith))
read_bits-write_bits (suc n) (false ∷ bits) s h = rw (read_bits-write_bits n bits s (omega arith))

abbrev pub engine : Engine
engine = record {
  Object = ℕ;
  Hit = ℕ;
  Vector = ℕ;
  Float = ℕ;
  Tag = ℕ;
  object = pointer;
  actors = no_actors;
  hit = pointer;
  vector = number;
  float = number;
  flag = flag;
  tag = pointer;
  zero_float = 0;
  zero_vector = 0;
  is_positive = λ f. ltb 0 f;
  is_zero = λ v. v == 0;
  write_bits = write_bits;
  read_bits = read_bits;
  read_write_bits = read_bits-write_bits;
}

abbrev pub fresh : Context engine
fresh = record {
  replicate_instigator = true;
  replicate_effect_causer = true;
  replicate_source_object = true;
  instigator = none;
  effect_causer = none;
  ability_cdo = none;
  source_object = none;
  actors = [];
  hit_result = none;
  has_world_origin = false;
  world_origin = 0;
  is_blocked_hit = false;
  is_critical_hit = false;
  is_successful_debuff = false;
  debuff_damage = 0;
  debuff_duration = 0;
  debuff_frequency = 0;
  damage_type = none;
  death_impulse = 0;
  knockback_force = 0;
  is_radial_damage = false;
  radial_damage_inner_radius = 0;
  radial_damage_outer_radius = 0;
  radial_damage_origin = 0;
}
