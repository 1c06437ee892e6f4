-- ===== src/Combat/Targets/Picked.antt =====
-- AuraAbilitySystemLibrary.cpp: `GetClosestTargets` as a whole.
use unreal5_gas.Base.{
  ℕ, zero, suc, ◌+◌, ◌≤◌, ◌≡◌, ◌⊎◌, refl, sym, ap, ◌∙◌, inl, inr, true, false, ◌||◌, List, [], ◌∷◌,
  ◌++◌, arith, ◌==◌, ==_iff, leb, Bool-cases, length, length-append, subst,
}
use unreal5_gas.Base.Unique.{has_key, Unique, add_unique, add_unique-Unique}
use unreal5_gas.Combat.Targets.{itself, closest, remove, pick, get_closest_targets}
use unreal5_gas.Combat.Targets.Closest.{
  has, closest-least, closest-has, has-remove, length-remove, remove-Unique, has-append,
}

-- `picked` are at most `max_targets` of the actors, as many as there are, each once, and none that is
-- left out is closer.
pub record IsClosest (distance : ℕ → ℕ) (max_targets : ℕ) (actors picked : List ℕ) : Type 0 where
  pub unique : Unique itself picked
  pub from_actors : (a : ℕ) → has a picked ≡ true → has a actors ≡ true
  pub none_closer :
      (a b : ℕ)
      → has a picked ≡ true
      → has b actors ≡ true
      → has b picked ≡ false
      → distance a ≤ distance b
  pub at_most : length picked ≤ max_targets
  pub as_many : (length picked ≡ max_targets) ⊎ (length picked ≡ length actors)

-- While `n` more are to be picked: those that are left are as many as were not picked, and not closer.
record IsPicking (distance : ℕ → ℕ) (all actors out : List ℕ) : Type 0 where
  left_unique : Unique itself actors
  out_unique : Unique itself out
  split : (a : ℕ) → has a all ≡ (has a actors || has a out)
  apart : (a : ℕ) → has a actors ≡ true → has a out ≡ false
  farther : (a b : ℕ) → has a out ≡ true → has b actors ≡ true → distance a ≤ distance b
  total : length actors + length out ≡ length all

add_fresh : (a : ℕ) (out : List ℕ) → has a out ≡ false → add_unique itself a out ≡ out ++ (a ∷ [])
add_fresh a out h = rw h refl

pick-IsPicking :
    (distance : ℕ → ℕ) (all actors out : List ℕ) (a : ℕ)
    → has a actors ≡ true
    → ((b : ℕ) → has b actors ≡ true → distance a ≤ distance b)
    → IsPicking distance all actors out
    → IsPicking distance all (remove a actors) (add_unique itself a out)
pick-IsPicking distance all actors out a there least v =
    let fresh = v.apart a there in
    subst (IsPicking distance all (remove a actors)) (sym (add_fresh a out fresh)) (record {
      left_unique = remove-Unique a actors v.left_unique;
      out_unique =
          subst (Unique itself) (add_fresh a out fresh)
            (add_unique-Unique itself a out v.out_unique);
      split = λ b. elim (Bool-cases (b == a)) [
        | inl hit ↦
            let e : has b actors ≡ true = ap (λ x. has x actors) ((==_iff b a).0 hit) ∙ there in
            ground (arith, v.split b, has-remove a b actors, has-append a b out, e, hit)
        | inr miss ↦ ground (arith, v.split b, has-remove a b actors, has-append a b out, miss)
      ];
      apart = λ b h.
          let e : has b out ≡ false = v.apart b (ground (arith, h, has-remove a b actors)) in
          ground (arith, h, has-remove a b actors, has-append a b out, e);
      farther = λ b c h k.
          let left : has c actors ≡ true = ground (arith, k, has-remove a c actors) in
          elim (Bool-cases (has b out)) [
            | inl before ↦ v.farther b c before left
            | inr later ↦
                let same : (a == b) ≡ true = ground (arith, h, later, has-append a b out) in
                subst (λ x. distance x ≤ distance c) ((==_iff a b).0 same) (least c left)
          ];
      total =
          omega (
            arith,
            length-append out (a ∷ []),
            length-remove a actors v.left_unique there,
            v.total,
          );
    })

picking-IsClosest :
    (distance : ℕ → ℕ) (max_targets : ℕ) (all actors out : List ℕ)
    → length out ≤ max_targets
    → (length out ≡ max_targets) ⊎ (length out ≡ length all)
    → IsPicking distance all actors out
    → IsClosest distance max_targets all out
picking-IsClosest distance max_targets all actors out few many v = record {
  unique = v.out_unique;
  from_actors = λ a h. ground (arith, v.split a, h);
  none_closer = λ a b h there missing. v.farther a b h (ground (arith, v.split b, there, missing));
  at_most = few;
  as_many = many;
}

pick-IsClosest :
    (distance : ℕ → ℕ) (n : ℕ) (all actors out : List ℕ)
    → IsPicking distance all actors out
    → IsClosest distance (length out + n) all (pick distance n actors out)
unfolding pick
pick-IsClosest distance zero all actors out v =
    picking-IsClosest distance (length out + 0) all actors out (omega arith) (inl (omega arith)) v
pick-IsClosest distance (suc n) all [] out v =
    picking-IsClosest distance (length out + suc n) all [] out (omega arith)
      (inr (omega (arith, v.total))) v
pick-IsClosest distance (suc n) all (a ∷ actors) out v =
    let best = closest distance a actors in
    let there = closest-has distance a actors in
    let next =
      pick-IsPicking distance all (a ∷ actors) out best there (closest-least distance a actors) v in
    let grown : length (add_unique itself best out) + n ≡ length out + suc n =
      ap (λ xs. length xs + n) (add_fresh best out (v.apart best there))
      ∙ omega (arith, length-append out (best ∷ [])) in
    subst
      (λ m.
        IsClosest distance m all
          (pick distance n (remove best (a ∷ actors)) (add_unique itself best out)))
      grown
      (pick-IsClosest distance n all (remove best (a ∷ actors)) (add_unique itself best out) next)

start-IsPicking :
    (distance : ℕ → ℕ) (actors : List ℕ)
    → Unique itself actors
    → IsPicking distance actors actors []
unfolding has_key
start-IsPicking distance actors u = record {
  left_unique = u;
  out_unique = tt;
  split = λ a. ground arith;
  apart = λ a h. refl;
  farther = λ a b h k. absurd (ground (arith, h));
  total = omega arith;
}

-- Of different actors `GetClosestTargets` picks as many as it may, or all, each once, and no actor that
-- it leaves out is closer than one that it picks.
pub get_closest_targets-IsClosest :
    (max_targets : ℕ) (distance : ℕ → ℕ) (actors : List ℕ)
    → Unique itself actors
    → IsClosest distance max_targets actors (get_closest_targets max_targets distance actors)
unfolding get_closest_targets
get_closest_targets-IsClosest max_targets distance actors u =
    elim (Bool-cases (leb (length actors) max_targets)) [
      | inl few ↦ rw few (record {
        unique = u;
        from_actors = λ a h. h;
        none_closer = λ a b h there missing. absurd (ground (arith, there, missing));
        at_most = ground (arith, few);
        as_many = inr refl;
      })
      | inr many ↦ rw many (
          let from_none : length {A = ℕ} [] + max_targets ≡ max_targets = omega arith in
          subst (λ m. IsClosest distance m actors (pick distance max_targets actors [])) from_none
            (pick-IsClosest distance max_targets actors actors []
              (start-IsPicking distance actors u)))
    ]
