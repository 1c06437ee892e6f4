-- ===== src/Ability/Experience/Sums.antt =====
-- AuraAttributeSet.cpp: the awards of levels that are passed in two parts.
use unreal5_gas.Base.{
  ℕ, zero, suc, ◌+◌, ◌≡◌, refl, sym, ap, ◌∙◌, inl, inr, Option, none, some, List, arith, get_elem?,
  Option-cases,
}
use unreal5_gas.Base.Fallible.{◌>>=◌}
use unreal5_gas.Base.Int.{ℤ, pos, ◌+ℤ◌, +ℤ_assoc, int_laws}
use unreal5_gas.Ability.Experience.{LevelUpInfo, award, rewards}

abbrev pub plus : ℤ × ℤ → ℤ × ℤ → ℤ × ℤ
plus (a, b) (c, d) = (a +ℤ c, b +ℤ d)

abbrev pub award_of : LevelUpInfo → ℤ × ℤ
award_of i = (i.attribute_point_award, i.spell_point_award)

plus_assoc : (a b c : ℤ × ℤ) → plus (plus a b) c ≡ plus a (plus b c)
plus_assoc a b c =
    ap (λ x. (x, (plus (plus a b) c).1)) (+ℤ_assoc a.0 b.0 c.0)
    ∙ ap (λ y. ((plus a (plus b c)).0, y)) (+ℤ_assoc a.1 b.1 c.1)

-- The sums after one level, and the rest.
abbrev after_award : List LevelUpInfo → ℕ → ℕ → ℤ × ℤ → Option LevelUpInfo → Option (ℤ × ℤ)
after_award infos n level s o = award o s >>= λ more. rewards infos n (level + 1) more

-- A start is added to the sums.
rewards_shift :
    (infos : List LevelUpInfo) (n level : ℕ) (c s t : ℤ × ℤ)
    → rewards infos n level s ≡ some t
    → rewards infos n level (plus c s) ≡ some (plus c t)
unfolding rewards
rewards_shift infos zero level c s t e =
    let same : s ≡ t = ground (arith, e) in ap (λ x. some (plus c x)) same
rewards_shift infos (suc n) level c s t e = elim (Option-cases (get_elem? infos level)) [
  | inl out ↦
      let never : none ≡ some t = sym (ap (after_award infos n level s) out) ∙ e in
      absurd (ground (arith, never))
  | inr (i, at_level) ↦
      ap (after_award infos n level (plus c s)) at_level
      ∙ ap (rewards infos n (level + 1)) (plus_assoc c s (award_of i))
      ∙ rewards_shift infos n (level + 1) c (plus s (award_of i)) t
          (sym (ap (after_award infos n level s) at_level) ∙ e)
]

rewards-split :
    (infos : List LevelUpInfo) (n m level : ℕ) (s t : ℤ × ℤ)
    → rewards infos n level s ≡ some t
    → rewards infos (n + m) level s ≡ rewards infos m (level + n) t
unfolding rewards
rewards-split infos zero m level s t e =
    let same : s ≡ t = ground (arith, e) in
    ap (λ l. rewards infos l level s) (omega arith)
    ∙ ap (rewards infos m level) same
    ∙ ap (λ l. rewards infos m l t) (omega arith)
rewards-split infos (suc n) m level s t e =
    let apart : suc n + m ≡ suc (n + m) = omega arith in
    let step = ap (λ l. rewards infos l level s) apart in
    elim (Option-cases (get_elem? infos level)) [
      | inl out ↦
          let never : none ≡ some t = sym (ap (after_award infos n level s) out) ∙ e in
          absurd (ground (arith, never))
      | inr (i, at_level) ↦
          step
          ∙ ap (after_award infos (n + m) level s) at_level
          ∙ rewards-split infos n m (level + 1) (plus s (award_of i)) t
              (sym (ap (after_award infos n level s) at_level) ∙ e)
          ∙ ap (λ l. rewards infos m l t) (omega arith)
    ]

pub +ℤ_zero : (a b : ℤ) → b ≡ a → b ≡ a +ℤ pos 0
+ℤ_zero a b e = e ∙ omega int_laws

plus_zero : (s : ℤ × ℤ) → plus s (pos 0, pos 0) ≡ s
plus_zero s =
    ap (λ x. (x, (plus s (pos 0, pos 0)).1)) (sym (+ℤ_zero s.0 s.0 refl))
    ∙ ap (λ y. (s.0, y)) (sym (+ℤ_zero s.1 s.1 refl))

-- The sums over the levels of two parts.
pub sums-plus :
    (infos : List LevelUpInfo) (n m level middle : ℕ) (s t : ℤ × ℤ)
    → middle ≡ level + n
    → rewards infos n level (pos 0, pos 0) ≡ some s
    → rewards infos m middle (pos 0, pos 0) ≡ some t
    → rewards infos (n + m) level (pos 0, pos 0) ≡ some (plus s t)
sums-plus infos n m level middle s t at e e' =
    rewards-split infos n m level (pos 0, pos 0) s e
    ∙ ap (rewards infos m (level + n)) (sym (plus_zero s))
    ∙ ap (λ l. rewards infos m l (plus s (pos 0, pos 0))) (sym at)
    ∙ rewards_shift infos m middle s (pos 0, pos 0) t e'
