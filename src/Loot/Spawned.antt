-- ===== src/Loot/Spawned.antt =====
-- LootTiers.cpp: how many of each item are dropped.
use unreal5_gas.Base.{
  ℕ, zero, suc, ◌+◌, ◌≤◌, ◌≡◌, refl, sym, ap, ◌∙◌, subst, ◌⊎◌, inl, inr, true, false, List, [], ◌∷◌,
  ◌++◌, arith, append-nil, append_assoc, replicate, if◌then◌else◌, Bool-cases,
}
use unreal5_gas.Combat.Numbers.{Numbers, lt}
use unreal5_gas.Loot.{LootItem, times, new_item, spawn, spawn_all, get_loot_items}

module _ {F : Type 0} (n : Numbers F) (draw : ℕ → F) where
  -- Every draw is at least 1 and at most 100.
  abbrev pub InRange : Type 0
  InRange = (k : ℕ) → (n.le n.one (draw k) ≡ true) × (n.le (draw k) n.hundred ≡ true)

  -- A number of copies out of `most`: none with a chance up to 1, all with one above 100.
  pub record IsChance (chance : F) (most copies : ℕ) : Type 0 where
    pub at_most : copies ≤ most
    pub never : (n.le chance n.one ≡ false) ⊎ (copies ≡ 0)
    pub certain : (n.le chance n.hundred ≡ true) ⊎ (copies ≡ most)

  -- For each item in order, its copies.
  abbrev pub IsLoot : List (LootItem F) → List (LootItem F) → Type 0
  IsLoot [] out = out ≡ []
  IsLoot (item ∷ items) out =
      (copies : ℕ) × (rest : List (LootItem F)) × (out
        ≡ replicate copies (new_item n draw item) ++ rest)
      × IsChance item.chance_to_spawn (times item.max_number_to_spawn) copies
      × IsLoot items rest

  -- A draw below the chance shows that the chance is more than 1.
  lt-never :
      (k : ℕ) (chance : F) → InRange → lt n (draw k) chance ≡ true → n.le chance n.one ≡ false
  lt-never k chance range below = elim (Bool-cases (n.le chance n.one)) [
    | inl small ↦
        let le = n.le_trans chance n.one (draw k) small (range k).0 in absurd (ground (arith, le))
    | inr large ↦ large
  ]

  not_lt-le : (a b : F) → lt n a b ≡ false → n.le b a ≡ true
  not_lt-le a b e = elim (Bool-cases (n.le b a)) [ inl h ↦ h | inr h ↦ absurd (ground (arith, h)) ]

  abbrev Copies : LootItem F → ℕ → ℕ → List (LootItem F) → Type 0
  Copies item more k out =
      (copies : ℕ) × (spawn n draw item more k out ≡ out ++ replicate copies (new_item n draw item))
      × IsChance item.chance_to_spawn more copies

  spawn-Copies :
      (item : LootItem F) (more k : ℕ) (out : List (LootItem F)) → InRange → Copies item more k out
  unfolding spawn
  spawn-Copies item zero k out range = (
    0,
    sym (append-nil out),
    record { at_most = omega arith; never = inr refl; certain = inr refl },
  )
  spawn-Copies item (suc more) k out range =
      let chance = item.chance_to_spawn in
      let one = new_item n draw item in
      elim (Bool-cases (lt n (draw k) chance)) [
        | inl below ↦
            let (copies, e, v) = spawn-Copies item more (k + 1) (out ++ (one ∷ [])) range in
            (
              suc copies,
              ap (λ b. spawn n draw item more (k + 1) (if b then out ++ (one ∷ []) else out)) below
                  ∙ e
                  ∙ append_assoc out (one ∷ []) (replicate copies one),
              record {
                at_most = omega (arith, v.at_most);
                never = inl (lt-never k chance range below);
                certain = elim v.certain [ inl small ↦ inl small | inr all ↦ inr (ap suc all) ];
              },
            )
        | inr above ↦
            let (copies, e, v) = spawn-Copies item more (k + 1) out range in
            (
              copies,
              ap (λ b. spawn n draw item more (k + 1) (if b then out ++ (one ∷ []) else out)) above
                  ∙ e,
              record {
                at_most = omega (arith, v.at_most);
                never = v.never;
                certain = inl (
                    n.le_trans chance (draw k) n.hundred (not_lt-le (draw k) chance above)
                      (range k).1);
              },
            )
      ]

  spawn_all-IsLoot :
      (items : List (LootItem F)) (k : ℕ) (out : List (LootItem F))
      → InRange
      → (found : List (LootItem F)) × (spawn_all n draw items k out ≡ out ++ found)
        × IsLoot items found
  unfolding spawn_all
  spawn_all-IsLoot [] k out range = ([], sym (append-nil out), refl)
  spawn_all-IsLoot (item ∷ items) k out range =
      let number = times item.max_number_to_spawn in
      let (copies, e, v) = spawn-Copies item number k out range in
      let added = replicate copies (new_item n draw item) in
      let (found, e', loot) = spawn_all-IsLoot items (k + number) (out ++ added) range in
      (
        added ++ found,
        ap (spawn_all n draw items (k + number)) e ∙ e' ∙ append_assoc out added found,
        (copies, found, refl, v, loot),
      )

  -- If every draw is between 1 and 100, the loot is, for each item of the table in order, a number of
  -- copies of it: at most its largest number, none if its chance is at most 1, and all of them if its
  -- chance is above 100.
  pub get_loot_items-IsLoot :
      (items : List (LootItem F)) → InRange → IsLoot items (get_loot_items n draw items)
  unfolding get_loot_items
  get_loot_items-IsLoot items range =
      let (found, e, loot) = spawn_all-IsLoot items 0 [] range in subst (IsLoot items) (sym e) loot
