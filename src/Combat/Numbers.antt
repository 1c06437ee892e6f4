-- ===== src/Combat/Numbers.antt =====
-- The floats of the damage formula and of the attributes. The values are not NaN. `FMath::Max` and
-- `FMath::Clamp` are the engine's. The laws are those of IEEE arithmetic with rounding: the operations
-- are monotone, and exact where they are stated as equations.
use unreal5_gas.Base.{ℕ, ◌≡◌, ◌⊎◌, inl, inr, Bool, true, false, not, arith, subst}

pub record Numbers (F : Type 0) : Type 0 where
  pub zero : F
  pub one : F
  pub two : F
  pub hundred : F
  pub minus_half : F
  pub minus_one : F
  -- The conversion of an integer.
  pub of_int : ℕ → F
  pub add : F → F → F
  pub sub : F → F → F
  pub mul : F → F → F
  pub div : F → F → F
  -- `a <= b`.
  pub le : F → F → Bool
  pub max : F → F → F
  pub clamp : F → F → F → F
  pub le_refl : (a : F) → le a a ≡ true
  pub le_trans : (a b c : F) → le a b ≡ true → le b c ≡ true → le a c ≡ true
  pub le_total : (a b : F) → (le a b ≡ true) ⊎ (le b a ≡ true)
  pub zero_hundred : le zero hundred ≡ true
  pub minus_one_half : le minus_one minus_half ≡ true
  pub sub_le : (a b : F) → le zero b ≡ true → le (sub a b) a ≡ true
  pub sub_nonneg : (a b : F) → le b a ≡ true → le zero (sub a b) ≡ true
  pub div_mono : (a b : F) → le a b ≡ true → le (div a hundred) (div b hundred) ≡ true
  pub zero_div : div zero hundred ≡ zero
  pub hundred_div : div hundred hundred ≡ one
  pub mul_mono : (a p q : F) → le zero a ≡ true → le p q ≡ true → le (mul a p) (mul a q) ≡ true
  pub mul_one : (a : F) → mul a one ≡ a
  pub mul_zero : (a : F) → mul a zero ≡ zero
  pub add_mono : (a b c d : F) → le a b ≡ true → le c d ≡ true → le (add a c) (add b d) ≡ true
  pub zero_add : add zero zero ≡ zero
  pub clamp_low : (x lo hi : F) → le lo hi ≡ true → le lo (clamp x lo hi) ≡ true
  pub clamp_high : (x lo hi : F) → le lo hi ≡ true → le (clamp x lo hi) hi ≡ true
  pub clamp_within : (x lo hi : F) → le lo x ≡ true → le x hi ≡ true → clamp x lo hi ≡ x
  pub clamp_below : (x lo hi : F) → le lo hi ≡ true → le x lo ≡ true → clamp x lo hi ≡ lo

module _ {F : Type 0} (n : Numbers F) where
  -- `a < b`.
  abbrev pub lt : F → F → Bool
  lt a b = not (n.le b a)

  -- At least zero and at most a bound.
  abbrev pub IsWithin : F → F → Type 0
  IsWithin x bound = (n.le n.zero x ≡ true) × (n.le x bound ≡ true)

  -- What is left of an amount under a percentage.
  abbrev pub reduced : F → F → F
  reduced a percent = n.mul a (n.div (n.sub n.hundred percent) n.hundred)

  -- Between 0 % and 100 %, a reduction leaves between nothing and all.
  pub reduced-IsWithin :
      (a percent : F)
      → n.le n.zero a ≡ true
      → IsWithin percent n.hundred
      → IsWithin (reduced a percent) a
  reduced-IsWithin a percent nonneg (low, high) =
      let factor = n.div (n.sub n.hundred percent) n.hundred in
      let at_least : n.le n.zero factor ≡ true =
        subst (λ x. n.le x factor ≡ true) n.zero_div
          (n.div_mono n.zero (n.sub n.hundred percent) (n.sub_nonneg n.hundred percent high)) in
      let at_most : n.le factor n.one ≡ true =
        subst (λ x. n.le factor x ≡ true) n.hundred_div
          (n.div_mono (n.sub n.hundred percent) n.hundred (n.sub_le n.hundred percent low)) in
      (
        subst (λ x. n.le x (n.mul a factor) ≡ true) (n.mul_zero a)
            (n.mul_mono a n.zero factor nonneg at_least),
        subst (λ x. n.le (n.mul a factor) x ≡ true) (n.mul_one a)
            (n.mul_mono a factor n.one nonneg at_most),
      )

  pub add-IsWithin : (a b c d : F) → IsWithin a b → IsWithin c d → IsWithin (n.add a c) (n.add b d)
  add-IsWithin a b c d (a0, ab) (c0, cd) = (
    subst (λ x. n.le x (n.add a c) ≡ true) n.zero_add (n.add_mono n.zero a n.zero c a0 c0),
    n.add_mono a b c d ab cd,
  )

  pub zero-IsWithin : IsWithin n.zero n.zero
  zero-IsWithin = (n.le_refl n.zero, n.le_refl n.zero)

  pub lt-le : (a b : F) → n.le a b ≡ false → n.le b a ≡ true
  lt-le a b e = elim (n.le_total a b) [ inl h ↦ absurd (ground (arith, h)) | inr h ↦ h ]
