-- ===== src/Ability/Experience/Together.antt =====
-- AuraAttributeSet.cpp: experience that comes in one or in two parts.
use unreal5_gas.Base.{
  ℕ, ◌^◌, ◌+◌, ◌-◌, ◌≤◌, ◌≡◌, refl, sym, ap, ◌∙◌, subst, inl, inr, true, some, List, arith, ltb,
  leb, if◌then◌else◌, Bool-cases,
}
use unreal5_gas.Base.Int.{ℤ, pos, ◌+ℤ◌, ◌≤ℤ◌, +ℤ_assoc, int_laws}
use unreal5_gas.Ability.Experience.{
  IsExact, Floats, LevelUpInfo, PlayerState, XpState, rewards, find_level_for_xp,
  handle_incoming_xp,
}
use unreal5_gas.Ability.Experience.Levels.{IsLevel, IsMet, IsUnmet, find_level_for_xp-IsLevel}
use unreal5_gas.Ability.Experience.Rewards.{IsHandled, handle_incoming_xp_whole}
use unreal5_gas.Ability.Experience.Sums.{plus, +ℤ_zero, sums-plus}

met-unmet :
    (infos : List LevelUpInfo) (xp more : ℤ) (k : ℕ)
    → xp ≤ℤ more
    → IsMet infos xp k
    → IsUnmet infos more k
    → ⊥
met-unmet infos xp more k le (i, at_k, met) (j, at_k', unmet) =
    let same : i ≡ j = ground (arith, sym at_k ∙ at_k') in
    let met' = subst (λ l. l.level_up_requirement ≤ℤ xp) same met in ground (arith, met', unmet, le)

-- More experience is worth no lower level.
levels_grow :
    (infos : List LevelUpInfo) (xp more : ℤ) (low high : ℕ)
    → xp ≤ℤ more
    → IsLevel infos xp 1 low
    → IsLevel infos more 1 high
    → low ≤ high
levels_grow infos xp more low high le v w = elim (Bool-cases (leb low high)) [
  | inl fine ↦ ground (arith, fine)
  | inr below ↦ elim w.stops [
    | inl last ↦ absurd (ground (arith, v.in_table, w.from_start, last))
    | inr unmet ↦ absurd (
        met-unmet infos xp more high le (v.met_below high w.from_start (ground (arith, below)))
          unmet)
  ]
]

found_mono :
    (infos : List LevelUpInfo) (xp more : ℤ) (low high : ℕ)
    → xp ≤ℤ more
    → find_level_for_xp infos xp ≡ some low
    → find_level_for_xp infos more ≡ some high
    → low ≤ high
found_mono infos xp more low high le e f =
    let (l, e', v) = find_level_for_xp-IsLevel infos xp in
    let (h, f', w) = find_level_for_xp-IsLevel infos more in
    let below : l ≡ low = ground (arith, sym e' ∙ e) in
    let above : h ≡ high = ground (arith, sym f' ∙ f) in
    omega (arith, levels_grow infos xp more l h le v w, below, above)

-- What one call leaves, in one form for any level: the sums are zero where no level is passed.
record IsGained (infos : List LevelUpInfo) (incoming : ℤ) (x y : XpState) (new : ℕ) : Type 0 where
  sums : ℤ × ℤ
  found : find_level_for_xp infos (x.player.xp +ℤ incoming) ≡ some new
  summed : rewards infos (new - x.player.level) x.player.level (pos 0, pos 0) ≡ some sums
  level : y.player.level ≡ x.player.level + (new - x.player.level)
  xp : y.player.xp ≡ x.player.xp +ℤ incoming
  attribute_points : y.player.attribute_points ≡ x.player.attribute_points +ℤ sums.0
  spell_points : y.player.spell_points ≡ x.player.spell_points +ℤ sums.1
  topped_off : y.top_off_health ≡ (if ltb x.player.level new then true else x.top_off_health)

handled-IsGained :
    (infos : List LevelUpInfo) (incoming : ℤ) (x y : XpState) (new : ℕ)
    → find_level_for_xp infos (x.player.xp +ℤ incoming) ≡ some new
    → IsHandled infos incoming x y new
    → IsGained infos incoming x y new
unfolding rewards
handled-IsGained infos incoming x y new found h = elim h.points [
  | inr (sums, e, attributes, spells) ↦ record {
    sums = sums;
    found = found;
    summed = e;
    level = h.never_down;
    xp = h.xp;
    attribute_points = attributes;
    spell_points = spells;
    topped_off = h.topped_off;
  }
  | inl not_up ↦
      let no_level : new - x.player.level ≡ 0 = omega (arith, not_up) in
      elim h.unchanged [
        | inl up ↦ absurd (omega (arith, not_up, up))
        | inr (attributes, spells) ↦ record {
          sums = (pos 0, pos 0);
          found = found;
          summed = ap (λ n. rewards infos n x.player.level (pos 0, pos 0)) no_level;
          level = h.never_down;
          xp = h.xp;
          attribute_points = +ℤ_zero x.player.attribute_points y.player.attribute_points attributes;
          spell_points = +ℤ_zero x.player.spell_points y.player.spell_points spells;
          topped_off = h.topped_off;
        }
      ]
]

player_eq :
    (p q : PlayerState)
    → p.level ≡ q.level
    → p.xp ≡ q.xp
    → p.attribute_points ≡ q.attribute_points
    → p.spell_points ≡ q.spell_points
    → p ≡ q
player_eq p q a b c d =
    λ i. record { level = a i; xp = b i; attribute_points = c i; spell_points = d i }

sum_of_parts :
    (start first second both middle last : ℤ)
    → middle ≡ start +ℤ first
    → last ≡ middle +ℤ second
    → both ≡ first +ℤ second
    → last ≡ start +ℤ both
sum_of_parts start first second both middle last e e' e'' =
    e' ∙ ap (λ v. v +ℤ second) e ∙ +ℤ_assoc start first second ∙ ap (◌+ℤ◌ start) (sym e'')

gained_together :
    (infos : List LevelUpInfo) (a b : ℤ) (x y z w : XpState) (n m k : ℕ)
    → IsGained infos a x y n
    → IsGained infos b y z m
    → IsGained infos (a +ℤ b) x w k
    → n ≤ k
    → m ≡ k
    → (z.player ≡ w.player) × (z.top_off_health ≡ w.top_off_health)
gained_together infos a b x y z w n m k g h j le same =
    let low = x.player.level in
    let levels : n - low + (m - y.player.level) ≡ k - low = omega (arith, g.level, same, le) in
    let added =
      sym (ap (λ l. rewards infos l low (pos 0, pos 0)) levels)
      ∙ sums-plus infos (n - low) (m - y.player.level) low y.player.level g.sums h.sums g.level
          g.summed h.summed in
    let total : j.sums ≡ plus g.sums h.sums = ground (arith, sym j.summed ∙ added) in
    (
      player_eq z.player w.player (omega (arith, g.level, h.level, j.level, same, le))
          (sum_of_parts x.player.xp a b (a +ℤ b) y.player.xp z.player.xp g.xp h.xp refl ∙ sym j.xp)
          (sum_of_parts x.player.attribute_points g.sums.0 h.sums.0 j.sums.0
              y.player.attribute_points z.player.attribute_points g.attribute_points
              h.attribute_points (ap (λ s. s.0) total)
            ∙ sym j.attribute_points)
          (sum_of_parts x.player.spell_points g.sums.1 h.sums.1 j.sums.1 y.player.spell_points
              z.player.spell_points g.spell_points h.spell_points (ap (λ s. s.1) total)
            ∙ sym j.spell_points),
      ground (arith, g.level, g.topped_off, h.topped_off, j.topped_off, same, le),
    )

-- For a character of level 1 or more, whole experience that comes in two parts, neither of them
-- negative, leaves the same level, experience and points, and the same topping off of health, as
-- their sum in one part, while the experience is not negative and stays up to 2 ^ 24, where floats are
-- exact.
pub handle_incoming_xp_together :
    {F : Type 0} (f : Floats F) (infos : List LevelUpInfo) (a b : ℤ) (x : XpState)
    → 1 ≤ x.player.level
    → pos 0 ≤ℤ x.player.xp
    → pos 0 ≤ℤ a
    → pos 0 ≤ℤ b
    → x.player.xp +ℤ (a +ℤ b) ≤ℤ pos (2 ^ 24)
    → (y : XpState) × (z : XpState) × (w : XpState) × (handle_incoming_xp f infos (f.of_int a) x
        ≡ some y)
      × (handle_incoming_xp f infos (f.of_int b) y ≡ some z)
      × (handle_incoming_xp f infos (f.of_int (a +ℤ b)) x ≡ some w)
      × (z.player ≡ w.player)
      × (z.top_off_health ≡ w.top_off_health)
handle_incoming_xp_together f infos a b x positive start first second small =
    let xp = x.player.xp in
    let exact_xp : IsExact xp = (start, omega (int_laws, small, first, second)) in
    let exact_a : IsExact a = (first, omega (int_laws, small, start, second)) in
    let exact_b : IsExact b = (second, omega (int_laws, small, start, first)) in
    let exact_both : IsExact (a +ℤ b) =
      (omega (int_laws, first, second), omega (int_laws, small, start)) in
    let exact_middle : IsExact (xp +ℤ a) =
      (omega (int_laws, start, first), omega (int_laws, small, second)) in
    let exact_end : IsExact (xp +ℤ (a +ℤ b)) = (omega (int_laws, start, first, second), small) in
    let (n, y, found, e, v) =
      handle_incoming_xp_whole f infos a x positive exact_xp exact_a exact_middle in
    let worth : y.player.xp +ℤ b ≡ xp +ℤ (a +ℤ b) = ap (λ q. q +ℤ b) v.xp ∙ +ℤ_assoc xp a b in
    let (m, z, found', e', v') =
      handle_incoming_xp_whole f infos b y (omega (arith, v.never_down, positive))
        (subst IsExact (sym v.xp) exact_middle) exact_b (subst IsExact (sym worth) exact_end) in
    let (k, w, found'', e'', v'') =
      handle_incoming_xp_whole f infos (a +ℤ b) x positive exact_xp exact_both exact_end in
    let same : m ≡ k = ground (arith, sym found' ∙ ap (find_level_for_xp infos) worth ∙ found'') in
    let (players, topped) =
      gained_together infos a b x y z w n m k (handled-IsGained infos a x y n found v)
        (handled-IsGained infos b y z m found' v')
        (handled-IsGained infos (a +ℤ b) x w k found'' v'')
        (found_mono infos (xp +ℤ a) (xp +ℤ (a +ℤ b)) n k (omega (int_laws, second)) found found'')
        same in
    (y, z, w, e, e', e'', players, topped)
