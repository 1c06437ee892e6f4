-- ===== src/Ability/Experience/Rewards.antt =====
-- AuraAttributeSet.cpp: what incoming experience comes to.
use unreal5_gas.Base.{
  ℕ, zero, suc, ◌+◌, ◌-◌, ◌≤◌, ◌<◌, ◌≡◌, refl, sym, ap, ◌∙◌, subst, ◌⊎◌, inl, inr, true, some, List,
  arith, ltb, if◌then◌else◌, length, Bool-cases,
}
use unreal5_gas.Base.Int.{ℤ, pos, ◌+ℤ◌}
use unreal5_gas.Ability.Experience.{
  LevelUpInfo, rewards, XpState, IsExact, Floats, judged, find_level_for_xp, handle_incoming_xp,
}
use unreal5_gas.Ability.Experience.Levels.{find_level_for_xp-IsLevel, get_elem?-lt}

-- The sums of the awards of `n` levels from `level` on, where each is in the table.
abbrev Sums : List LevelUpInfo → ℕ → ℕ → ℤ × ℤ → Type 0
Sums infos n level start = (sums : ℤ × ℤ) × (rewards infos n level start ≡ some sums)

rewards_in_table :
    (infos : List LevelUpInfo) (n level : ℕ) (start : ℤ × ℤ)
    → level + n ≤ length infos
    → Sums infos n level start
unfolding rewards
rewards_in_table infos zero level start h = (start, refl)
rewards_in_table infos (suc n) level start h =
    let (i, at_level) = get_elem?-lt infos level (omega arith) in
    let (sums, e) =
      rewards_in_table infos n (level + 1)
        (start.0 +ℤ i.attribute_point_award, start.1 +ℤ i.spell_point_award) (omega arith) in
    (sums, rw at_level e)

-- What one call of `HandleIncomingXP` leaves in `y`, for whole experience and the level `new`.
pub record IsHandled (infos : List LevelUpInfo) (incoming : ℤ) (x y : XpState) (new : ℕ)
    : Type 0 where
  pub never_down : y.player.level ≡ x.player.level + (new - x.player.level)
  pub xp : y.player.xp ≡ x.player.xp +ℤ incoming
  pub points :
      (new ≤ x.player.level)
      ⊎ ((sums : ℤ × ℤ) × (rewards infos (new - x.player.level) x.player.level (pos 0, pos 0)
            ≡ some sums)
          × (y.player.attribute_points ≡ x.player.attribute_points +ℤ sums.0)
          × (y.player.spell_points ≡ x.player.spell_points +ℤ sums.1))
  pub unchanged :
      x.player.level < new
      ⊎ ((y.player.attribute_points ≡ x.player.attribute_points)
          × (y.player.spell_points ≡ x.player.spell_points))
  pub topped_off : y.top_off_health ≡ (if ltb x.player.level new then true else x.top_off_health)

-- For a character of level 1 or more `HandleIncomingXP` never leaves the table: the incoming experience
-- is added without its fraction, the level rises to the one that the sum in floats, without its
-- fraction, is worth and never falls, and the points rise by the awards of just the levels passed, or
-- not at all.
pub handle_incoming_xp-IsHandled :
    {F : Type 0} (f : Floats F) (infos : List LevelUpInfo) (incoming : F) (x : XpState)
    → 1 ≤ x.player.level
    → (new : ℕ) × (y : XpState) × (find_level_for_xp infos (judged f incoming x) ≡ some new)
      × (handle_incoming_xp f infos incoming x ≡ some y)
      × IsHandled infos (f.to_int incoming) x y new
unfolding handle_incoming_xp
handle_incoming_xp-IsHandled f infos incoming x positive =
    let (new, found, v) = find_level_for_xp-IsLevel infos (judged f incoming x) in
    elim (Bool-cases (ltb 0 (new - x.player.level))) [
      | inl up ↦
          let (sums, e) =
            rewards_in_table infos (new - x.player.level) x.player.level (pos 0, pos 0)
              (ground (arith, v.in_table)) in
          (
            new,
            record {
              player = record {
                level = x.player.level + (new - x.player.level);
                xp = x.player.xp +ℤ f.to_int incoming;
                attribute_points = x.player.attribute_points +ℤ sums.0;
                spell_points = x.player.spell_points +ℤ sums.1;
              };
              top_off_health = true;
              top_off_mana = true;
            },
            found,
            rw (found, up, e) refl,
            record {
              never_down = refl;
              xp = refl;
              points = inr (sums, e, refl, refl);
              unchanged = inl (ground arith);
              topped_off = ground arith;
            },
          )
      | inr level ↦ (
        new,
        record x { player = record (x.player) { xp = x.player.xp +ℤ f.to_int incoming } },
        found,
        rw (found, level) refl,
        record {
          never_down = ground arith;
          xp = refl;
          points = inl (ground arith);
          unchanged = inr (refl, refl);
          topped_off = ground arith;
        },
      )
    ]

-- Whole experience, while the floats are exact: the level is that of the new experience.
pub handle_incoming_xp_whole :
    {F : Type 0} (f : Floats F) (infos : List LevelUpInfo) (a : ℤ) (x : XpState)
    → 1 ≤ x.player.level
    → IsExact x.player.xp
    → IsExact a
    → IsExact (x.player.xp +ℤ a)
    → (new : ℕ) × (y : XpState) × (find_level_for_xp infos (x.player.xp +ℤ a) ≡ some new)
      × (handle_incoming_xp f infos (f.of_int a) x ≡ some y)
      × IsHandled infos a x y new
handle_incoming_xp_whole f infos a x positive exact_xp exact_a exact =
    let (new, y, found, e, v) = handle_incoming_xp-IsHandled f infos (f.of_int a) x positive in
    let sum : judged f (f.of_int a) x ≡ x.player.xp +ℤ a =
      ap f.to_int (f.add-of_int x.player.xp a exact_xp exact_a exact)
      ∙ f.to_int-of_int (x.player.xp +ℤ a) exact in
    (
      new,
      y,
      sym (ap (find_level_for_xp infos) sum) ∙ found,
      e,
      subst (λ q. IsHandled infos q x y new) (f.to_int-of_int a exact_a) v,
    )
