-- ===== src/Base/Unique.antt =====
-- Lists that get an element only if none of its key is there yet, as with `TArray::AddUnique`.
use unreal5_gas.Base.{
  ℕ, ◌≡◌, refl, sym, ap, ◌∙◌, inl, inr, Bool, true, false, Option, none, some, List, [], ◌∷◌, ◌++◌,
  arith, ◌==◌, if◌then◌else◌, Bool-cases, ==_iff,
}

module _ {ℓ} {A : Type ℓ} where
  abbrev pub or_else : Option A → Option A → Option A
  or_else none r = r
  or_else (some a) r = some a

  pub or_else-none : (o : Option A) → or_else o none ≡ o
  or_else-none none = refl
  or_else-none (some a) = refl

  pub or_else_assoc : (a b c : Option A) → or_else (or_else a b) c ≡ or_else a (or_else b c)
  or_else_assoc none b c = refl
  or_else_assoc (some s) b c = refl

module _ {ℓ} {A : Type ℓ} (key : A → ℕ) where
  unfoldable pub has_key : ℕ → List A → Bool
  has_key n [] = false
  has_key n (a ∷ xs) = if key a == n then true else has_key n xs

  unfoldable pub find_key : ℕ → List A → Option A
  find_key n [] = none
  find_key n (a ∷ xs) = if key a == n then some a else find_key n xs

  abbrev pub keyed : ℕ → A → Option A
  keyed n a = if key a == n then some a else none

  abbrev pub add_unique : A → List A → List A
  add_unique a xs = if has_key (key a) xs then xs else xs ++ (a ∷ [])

  -- No two elements have one key.
  abbrev pub Unique : List A → Type 0
  Unique [] = Unit
  Unique (a ∷ xs) = (has_key (key a) xs ≡ false) × Unique xs

  pub find-cons :
      (n : ℕ) (a : A) (xs : List A) → find_key n (a ∷ xs) ≡ or_else (keyed n a) (find_key n xs)
  unfolding find_key
  find-cons n a xs = elim (Bool-cases (key a == n)) [
    | inl hit ↦ rw hit refl
    | inr miss ↦ rw miss refl
  ]

  pub find-has : (n : ℕ) (xs : List A) → has_key n xs ≡ true → (a : A) × (find_key n xs ≡ some a)
  unfolding has_key find_key
  find-has n [] e = cc
  find-has n (s ∷ ss) e = elim (Bool-cases (key s == n)) [
    | inl hit ↦ (s, rw hit refl)
    | inr miss ↦ rw miss (find-has n ss (ground (arith, miss)))
  ]

  pub find-has_not : (n : ℕ) (xs : List A) → has_key n xs ≡ false → find_key n xs ≡ none
  unfolding has_key find_key
  find-has_not n [] e = refl
  find-has_not n (a ∷ xs) e = elim (Bool-cases (key a == n)) [
    | inl hit ↦ absurd (ground (arith, hit))
    | inr miss ↦ rw miss (find-has_not n xs (ground (arith, miss)))
  ]

  pub find-append :
      (n : ℕ) (a : A) (xs : List A)
      → find_key n (xs ++ (a ∷ [])) ≡ or_else (find_key n xs) (keyed n a)
  unfolding find_key
  find-append n a [] = refl
  find-append n a (s ∷ ss) = elim (Bool-cases (key s == n)) [
    | inl hit ↦ rw hit refl
    | inr miss ↦ rw miss (find-append n a ss)
  ]

  pub find-add_unique :
      (n : ℕ) (a : A) (xs : List A)
      → find_key n (add_unique a xs) ≡ or_else (find_key n xs) (keyed n a)
  find-add_unique n a xs = elim (Bool-cases (has_key (key a) xs)) [
    | inr fresh ↦ rw fresh (find-append n a xs)
    | inl there ↦ elim (Bool-cases (key a == n)) [
      | inl same ↦
          let (s, e) =
            find-has n xs (ap (λ m. has_key m xs) (sym ((==_iff (key a) n).0 same)) ∙ there) in
          rw (there, same, e) refl
      | inr other ↦ rw (there, other) (sym (or_else-none (find_key n xs)))
    ]
  ]

  has_key-append :
      (n : ℕ) (a : A) (xs : List A)
      → has_key n xs ≡ false
      → (key a == n) ≡ false
      → has_key n (xs ++ (a ∷ [])) ≡ false
  unfolding has_key
  has_key-append n a [] e ne = rw ne refl
  has_key-append n a (s ∷ ss) e ne = ground (arith, has_key-append n a ss (ground (arith, e)) ne)

  append-Unique :
      (a : A) (xs : List A) → Unique xs → has_key (key a) xs ≡ false → Unique (xs ++ (a ∷ []))
  unfolding has_key
  append-Unique a [] u e = (refl, tt)
  append-Unique a (s ∷ ss) (fresh, u) e = (
    has_key-append (key s) a ss fresh (ground (arith, e)),
    append-Unique a ss u (ground (arith, e)),
  )

  pub add_unique-Unique : (a : A) (xs : List A) → Unique xs → Unique (add_unique a xs)
  add_unique-Unique a xs u = elim (Bool-cases (has_key (key a) xs)) [
    | inl there ↦ rw there u
    | inr fresh ↦ rw fresh (append-Unique a xs u fresh)
  ]
