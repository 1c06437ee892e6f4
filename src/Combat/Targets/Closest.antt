-- ===== src/Combat/Targets/Closest.antt =====
-- AuraAbilitySystemLibrary.cpp: the closest of the actors, and the lists of actors.
use unreal5_gas.Base.{
  ℕ, ◌+◌, ◌≤◌, ◌≡◌, ◌⊎◌, subst, refl, sym, ap, ◌∙◌, inl, inr, Bool, true, false, ◌||◌, List, [],
  ◌∷◌, ◌++◌, arith, ◌==◌, ==_iff, ltb, if◌then◌else◌, Bool-cases, length,
}
use unreal5_gas.Base.Unique.{has_key, Unique}
use unreal5_gas.Combat.Targets.{itself, closer, closest, remove}

abbrev pub has : ℕ → List ℕ → Bool
has a actors = has_key itself a actors

closer-least :
    (distance : ℕ → ℕ) (a b : ℕ)
    → (distance (closer distance a b) ≤ distance a) × (distance (closer distance a b) ≤ distance b)
closer-least distance a b = elim (Bool-cases (ltb (distance b) (distance a))) [
  | inl nearer ↦ rw nearer (ground arith, ground arith)
  | inr farther ↦ rw farther (ground arith, ground arith)
]

-- The closest of `best` and the others is not farther than any of them.
pub closest-least :
    (distance : ℕ → ℕ) (best : ℕ) (actors : List ℕ) (b : ℕ)
    → has b (best ∷ actors) ≡ true
    → distance (closest distance best actors) ≤ distance b
unfolding closest has_key
closest-least distance best [] b h =
    let same : best ≡ b = ground (arith, h) in
    subst (λ x. distance best ≤ distance x) same (omega arith)
closest-least distance best (a ∷ actors) b h =
    let next = closer distance best a in
    let found = closest distance next actors in
    let to_next : distance found ≤ distance next =
      closest-least distance next actors next (ground arith) in
    let (to_best, to_a) = closer-least distance best a in
    elim (Bool-cases (best == b)) [
      | inl is_best ↦
          subst (λ x. distance found ≤ distance x) ((==_iff best b).0 is_best)
            (omega (arith, to_next, to_best))
      | inr not_best ↦ elim (Bool-cases (a == b)) [
        | inl is_a ↦
            subst (λ x. distance found ≤ distance x) ((==_iff a b).0 is_a)
              (omega (arith, to_next, to_a))
        | inr not_a ↦ closest-least distance next actors b (ground (arith, h, not_best, not_a))
      ]
    ]

has-among :
    (c next best a : ℕ) (actors : List ℕ)
    → (next ≡ best) ⊎ (next ≡ a)
    → has c (next ∷ actors) ≡ true
    → has c (best ∷ a ∷ actors) ≡ true
unfolding has_key
has-among c next best a actors from h = ground (arith, from, h)

closer-cases : (distance : ℕ → ℕ) (a b : ℕ) → (closer distance a b ≡ a) ⊎ (closer distance a b ≡ b)
closer-cases distance a b = elim (Bool-cases (ltb (distance b) (distance a))) [
  | inl nearer ↦ inr (rw nearer refl)
  | inr farther ↦ inl (rw farther refl)
]

pub closest-has :
    (distance : ℕ → ℕ) (best : ℕ) (actors : List ℕ)
    → has (closest distance best actors) (best ∷ actors) ≡ true
unfolding closest has_key
closest-has distance best [] = ground arith
closest-has distance best (a ∷ actors) =
    let next = closer distance best a in
    has-among (closest distance next actors) next best a actors (closer-cases distance best a)
      (closest-has distance next actors)

pub has-remove :
    (a b : ℕ) (xs : List ℕ) → has b (remove a xs) ≡ (if b == a then false else has b xs)
unfolding remove has_key
has-remove a b [] = ground arith
has-remove a b (x ∷ xs) = ground (arith, has-remove a b xs)

pub length-remove_absent : (a : ℕ) (xs : List ℕ) → has a xs ≡ false → remove a xs ≡ xs
unfolding remove has_key
length-remove_absent a [] h = refl
length-remove_absent a (x ∷ xs) h = elim (Bool-cases (x == a)) [
  | inl hit ↦ absurd (ground (arith, hit))
  | inr miss ↦ rw miss (ap (◌∷◌ x) (length-remove_absent a xs (ground (arith, miss))))
]

pub length-remove :
    (a : ℕ) (xs : List ℕ)
    → Unique itself xs
    → has a xs ≡ true
    → length (remove a xs) + 1 ≡ length xs
unfolding remove has_key
length-remove a [] u h = absurd (ground (arith, h))
length-remove a (x ∷ xs) (fresh, u) h = elim (Bool-cases (x == a)) [
  | inl hit ↦
      let gone : remove a xs ≡ xs =
        length-remove_absent a xs (ap (λ y. has y xs) (sym ((==_iff x a).0 hit)) ∙ fresh) in
      rw (hit, gone) (omega arith)
  | inr miss ↦ let ih = length-remove a xs u (ground (arith, miss)) in rw miss (omega (arith, ih))
]

pub remove-Unique : (a : ℕ) (xs : List ℕ) → Unique itself xs → Unique itself (remove a xs)
unfolding remove
remove-Unique a [] u = tt
remove-Unique a (x ∷ xs) (fresh, u) = elim (Bool-cases (x == a)) [
  | inl hit ↦ rw hit (remove-Unique a xs u)
  | inr miss ↦ rw miss (has-remove a x xs ∙ rw (miss, fresh) refl, remove-Unique a xs u)
]

pub has-append : (a b : ℕ) (xs : List ℕ) → has b (xs ++ (a ∷ [])) ≡ (has b xs || a == b)
unfolding has_key
has-append a b [] = ground arith
has-append a b (x ∷ xs) = ground (arith, has-append a b xs)
