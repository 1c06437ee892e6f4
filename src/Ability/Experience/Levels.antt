-- ===== src/Ability/Experience/Levels.antt =====
-- LevelUpInfo.cpp: the level that `FindLevelForXP` finds.
use unreal5_gas.Base.{
  ℕ, zero, suc, ◌+◌, ◌-◌, ◌≤◌, ◌<◌, ◌≡◌, refl, sym, subst, ◌⊎◌, inl, inr, true, some, List, [], ◌∷◌,
  arith, leb, length, get_elem?, Bool-cases, ◌==◌, ==_iff,
}
use unreal5_gas.Base.Int.{ℤ, ltb_ℤ, ◌≤ℤ◌}
use unreal5_gas.Ability.Experience.{LevelUpInfo, search, find_level_for_xp}

pub get_elem?-lt {ℓ} :
    {A : Type ℓ} (xs : List A) (i : ℕ) → i < length xs → (a : A) × (get_elem? xs i ≡ some a)
get_elem?-lt [] i h = absurd (omega arith)
get_elem?-lt (x ∷ xs) zero h = (x, refl)
get_elem?-lt (x ∷ xs) (suc i) h = get_elem?-lt xs i (omega arith)

-- The requirement at a level is met, or not met.
abbrev pub IsMet : List LevelUpInfo → ℤ → ℕ → Type 0
IsMet infos xp level =
    (i : LevelUpInfo) × (get_elem? infos level ≡ some i) × (i.level_up_requirement ≤ℤ xp)

abbrev pub IsUnmet : List LevelUpInfo → ℤ → ℕ → Type 0
IsUnmet infos xp level =
    (i : LevelUpInfo) × (get_elem? infos level ≡ some i) × (ltb_ℤ xp i.level_up_requirement ≡ true)

-- `level` is the first one from `start` on that is the last of the table or whose requirement is
-- not met.
pub record IsLevel (infos : List LevelUpInfo) (xp : ℤ) (start level : ℕ) : Type 0 where
  pub from_start : start ≤ level
  pub in_table : (level ≤ length infos - 1) ⊎ (level ≡ start)
  pub met_below : (k : ℕ) → start ≤ k → k < level → IsMet infos xp k
  pub stops : (length infos - 1 ≤ level) ⊎ IsUnmet infos xp level

climb :
    (infos : List LevelUpInfo) (xp : ℤ) (level found : ℕ) (i : LevelUpInfo)
    → get_elem? infos level ≡ some i
    → i.level_up_requirement ≤ℤ xp
    → level < length infos - 1
    → IsLevel infos xp (level + 1) found
    → IsLevel infos xp level found
climb infos xp level found i at_level met more v = record {
  from_start = omega (arith, v.from_start);
  in_table = inl (ground (arith, v.in_table));
  met_below = λ k low high. elim (Bool-cases (k == level)) [
    | inl same ↦ subst (IsMet infos xp) (sym ((==_iff k level).0 same)) (i, at_level, met)
    | inr above ↦ v.met_below k (ground arith) high
  ];
  stops = v.stops;
}

search-IsLevel :
    (fuel : ℕ) (infos : List LevelUpInfo) (xp : ℤ) (level : ℕ)
    → length infos - level < fuel
    → (found : ℕ) × (search fuel infos xp level ≡ some found) × IsLevel infos xp level found
unfolding search
search-IsLevel zero infos xp level h = absurd (omega arith)
search-IsLevel (suc fuel) infos xp level h = elim (Bool-cases (leb (length infos - 1) level)) [
  | inl last ↦ (
    level,
    rw last refl,
    record {
      from_start = omega arith;
      in_table = inr refl;
      met_below = λ k low high. absurd (omega arith);
      stops = inl (ground arith);
    },
  )
  | inr more ↦
      let (i, at_level) = get_elem?-lt infos level (ground arith) in
      elim (Bool-cases (ltb_ℤ xp i.level_up_requirement)) [
        | inl unmet ↦ (
          level,
          rw (more, at_level, unmet) refl,
          record {
            from_start = omega arith;
            in_table = inr refl;
            met_below = λ k low high. absurd (omega arith);
            stops = inr (i, at_level, unmet);
          },
        )
        | inr met ↦
            let (found, e, v) = search-IsLevel fuel infos xp (level + 1) (ground arith) in
            (
              found,
              rw (more, at_level, met) e,
              climb infos xp level found i at_level (ground arith) (ground arith) v,
            )
      ]
]

-- `FindLevelForXP` returns, for any table and any experience: the level it returns is the first from 1 on
-- that is the last of the table or whose requirement is not met.
pub find_level_for_xp-IsLevel :
    (infos : List LevelUpInfo) (xp : ℤ)
    → (level : ℕ) × (find_level_for_xp infos xp ≡ some level) × IsLevel infos xp 1 level
unfolding find_level_for_xp
find_level_for_xp-IsLevel infos xp = search-IsLevel (suc (length infos)) infos xp 1 (omega arith)
