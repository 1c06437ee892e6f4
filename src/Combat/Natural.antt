-- ===== src/Combat/Natural.antt =====
-- Natural numbers in place of the floats of the fight, for the tests.
use native.Mathlib.Nat.{mul-le-mul_left}
use unreal5_gas.Base.{
  ℕ, ◌+◌, ◌-◌, ◌*◌, ◌/◌, ◌≤◌, ◌≡◌, ◌↔◌, ◌⊎◌, refl, true, arith, leb, if◌then◌else◌,
}
use unreal5_gas.Combat.Numbers.{Numbers}

-- Natural numbers, whose subtraction stops at 0 and whose division rounds down, are such numbers.
abbrev pub nat_clamp : ℕ → ℕ → ℕ → ℕ
nat_clamp x lo hi = if leb x lo then lo else (if leb hi x then hi else x)

pub leb_iff : (a b : ℕ) → (leb a b ≡ true) ↔ (a ≤ b)
leb_iff a b = ground arith

pub div_mono_nat : (a b : ℕ) → leb a b ≡ true → leb (a / 100) (b / 100) ≡ true
div_mono_nat a b h =
    let le : a ≤ b = (leb_iff a b).0 h in (leb_iff (a / 100) (b / 100)).1 (omega arith)

pub mul_mono_nat : (a p q : ℕ) → leb p q ≡ true → leb (a * p) (a * q) ≡ true
mul_mono_nat a p q h = (leb_iff (a * p) (a * q)).1 (mul-le-mul_left a ((leb_iff p q).0 h))

abbrev pub nat_max : ℕ → ℕ → ℕ
nat_max a b = if leb b a then a else b

pub nat_le_trans : (a b c : ℕ) → leb a b ≡ true → leb b c ≡ true → leb a c ≡ true
nat_le_trans a b c h k = ground arith

pub nat_le_total : (a b : ℕ) → (leb a b ≡ true) ⊎ (leb b a ≡ true)
nat_le_total a b = ground arith

pub nat_le_refl : (a : ℕ) → leb a a ≡ true
nat_le_refl a = ground arith

pub nat_sub_le : (a b : ℕ) → leb 0 b ≡ true → leb (a - b) a ≡ true
nat_sub_le a b h = ground arith

pub nat_sub_nonneg : (a b : ℕ) → leb b a ≡ true → leb 0 (a - b) ≡ true
nat_sub_nonneg a b h = ground arith

pub nat_add_mono : (a b c d : ℕ) → leb a b ≡ true → leb c d ≡ true → leb (a + c) (b + d) ≡ true
nat_add_mono a b c d h k = ground arith

pub nat_clamp_low : (x lo hi : ℕ) → leb lo hi ≡ true → leb lo (nat_clamp x lo hi) ≡ true
nat_clamp_low x lo hi h = ground arith

pub nat_clamp_high : (x lo hi : ℕ) → leb lo hi ≡ true → leb (nat_clamp x lo hi) hi ≡ true
nat_clamp_high x lo hi h = ground arith

pub nat_clamp_within : (x lo hi : ℕ) → leb lo x ≡ true → leb x hi ≡ true → nat_clamp x lo hi ≡ x
nat_clamp_within x lo hi h k = ground arith

pub nat_clamp_below : (x lo hi : ℕ) → leb lo hi ≡ true → leb x lo ≡ true → nat_clamp x lo hi ≡ lo
nat_clamp_below x lo hi h = ground arith

pub nat_mul_one : (a : ℕ) → a * 1 ≡ a
nat_mul_one a = omega arith

pub nat_mul_zero : (a : ℕ) → a * 0 ≡ 0
nat_mul_zero a = omega arith

abbrev pub natural : Numbers ℕ
natural = record {
  zero = 0;
  one = 1;
  two = 2;
  hundred = 100;
  minus_half = 0;
  minus_one = 0;
  of_int = λ i. i;
  add = λ a b. a + b;
  sub = λ a b. a - b;
  mul = λ a b. a * b;
  div = λ a b. a / b;
  le = leb;
  max = nat_max;
  clamp = nat_clamp;
  le_refl = nat_le_refl;
  le_trans = nat_le_trans;
  le_total = nat_le_total;
  zero_hundred = refl;
  minus_one_half = refl;
  sub_le = nat_sub_le;
  sub_nonneg = nat_sub_nonneg;
  div_mono = div_mono_nat;
  zero_div = refl;
  hundred_div = refl;
  mul_mono = λ a p q h k. mul_mono_nat a p q k;
  mul_one = nat_mul_one;
  mul_zero = nat_mul_zero;
  add_mono = nat_add_mono;
  zero_add = refl;
  clamp_low = nat_clamp_low;
  clamp_high = nat_clamp_high;
  clamp_within = nat_clamp_within;
  clamp_below = nat_clamp_below;
}
