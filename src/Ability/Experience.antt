-- ===== src/Ability/Experience.antt =====
-- LevelUpInfo.cpp, AuraPlayerState.cpp and `HandleIncomingXP` of AuraAttributeSet.cpp: experience,
-- levels and the points that they award. An int32 is an integer: overflow is not modelled. `none` is an index outside the table, at
-- which the engine stops, or a loop that runs out of fuel.
pub mod Levels
pub mod Rewards
pub mod Sums
pub mod Together
pub mod Examples
use unreal5_gas.Base.{
  ℕ, zero, suc, ◌+◌, ◌-◌, ◌^◌, ◌≡◌, Bool, true, false, not, Option, none, some, List, [], ◌∷◌, ltb,
  leb, if◌then◌else◌, length, get_elem?,
}
use unreal5_gas.Base.Fallible.{◌>>=◌}
use unreal5_gas.Base.Int.{ℤ, pos, ◌+ℤ◌, ◌≤ℤ◌, ltb_ℤ}

-- `FAuraLevelUpInfo`.
pub record LevelUpInfo : Type 0 where
  pub level_up_requirement : ℤ
  pub attribute_point_award : ℤ
  pub spell_point_award : ℤ

abbrev meets : ℤ → Option LevelUpInfo → Option Bool
meets xp none = none
meets xp (some i) = some (not (ltb_ℤ xp i.level_up_requirement))

-- The loop of `FindLevelForXP` from `level` on.
unfoldable pub search : ℕ → List LevelUpInfo → ℤ → ℕ → Option ℕ
search zero infos xp level = none
search (suc fuel) infos xp level =
    let next = search fuel infos xp (level + 1) in
    if leb (length infos - 1) level
    then some level
    else (meets xp (get_elem? infos level) >>= λ met. if met then next else some level)

-- `FindLevelForXP`. The loop stops before the level is the length of the table.
unfoldable pub find_level_for_xp : List LevelUpInfo → ℤ → Option ℕ
find_level_for_xp infos xp = search (suc (length infos)) infos xp 1

-- `AAuraPlayerState`. The delegates only tell the widgets.
pub record PlayerState : Type 0 where
  pub level : ℕ
  pub xp : ℤ
  pub attribute_points : ℤ
  pub spell_points : ℤ

abbrev pub add_to_xp : ℤ → PlayerState → PlayerState
add_to_xp n p = record p { xp = p.xp +ℤ n }

abbrev pub add_to_level : ℕ → PlayerState → PlayerState
add_to_level n p = record p { level = p.level + n }

abbrev pub add_to_attribute_points : ℤ → PlayerState → PlayerState
add_to_attribute_points n p = record p { attribute_points = p.attribute_points +ℤ n }

abbrev pub add_to_spell_points : ℤ → PlayerState → PlayerState
add_to_spell_points n p = record p { spell_points = p.spell_points +ℤ n }

abbrev pub award : Option LevelUpInfo → ℤ × ℤ → Option (ℤ × ℤ)
award none sums = none
award (some i) (attributes, spells) =
    some (attributes +ℤ i.attribute_point_award, spells +ℤ i.spell_point_award)

-- The loop over the level-ups: the sums of the awards of `n` levels from `level` on.
pub rewards : List LevelUpInfo → (n level : ℕ) → ℤ × ℤ → Option (ℤ × ℤ)
rewards infos zero level sums = some sums
rewards infos (suc n) level sums =
    award (get_elem? infos level) sums >>= λ more. rewards infos n (level + 1) more

-- What the attribute set keeps of a level-up, besides the player's state.
pub record XpState : Type 0 where
  pub player : PlayerState
  pub top_off_health : Bool
  pub top_off_mana : Bool

abbrev level_up : ℕ → ℤ × ℤ → XpState → XpState
level_up ups (attributes, spells) x = record {
  player =
      add_to_spell_points spells (add_to_attribute_points attributes (add_to_level ups x.player));
  top_off_health = true;
  top_off_mana = true;
}

-- The floats of incoming experience: the conversions from and to an int32, of which the latter drops
-- the fraction, and the sum. Whole numbers from 0 to 2 ^ 24 are exact.
abbrev pub IsExact : ℤ → Type 0
IsExact a = (pos 0 ≤ℤ a) × (a ≤ℤ pos (2 ^ 24))

pub record Floats (F : Type 0) : Type 0 where
  pub of_int : ℤ → F
  pub to_int : F → ℤ
  pub add : F → F → F
  pub to_int-of_int : (a : ℤ) → IsExact a → to_int (of_int a) ≡ a
  pub add-of_int :
      (a b : ℤ)
      → IsExact a
      → IsExact b
      → IsExact (a +ℤ b)
      → add (of_int a) (of_int b) ≡ of_int (a +ℤ b)

-- The experience that the level is judged by: `CurrentXP + LocalIncomingXP` as an int32.
abbrev pub judged : {F : Type 0} → Floats F → F → XpState → ℤ
judged f incoming x = f.to_int (f.add (f.of_int x.player.xp) incoming)

-- `HandleIncomingXP` of a character that has both interfaces. Its abilities, which `AddToPlayerLevel`
-- brings up to date, are in `Spells`.
unfoldable pub handle_incoming_xp :
    {F : Type 0} → Floats F → List LevelUpInfo → F → XpState → Option XpState
handle_incoming_xp f infos incoming x = do
  new_level ← find_level_for_xp infos (judged f incoming x)
  let ups = new_level - x.player.level
  x' ←
      if ltb 0 ups
      then (rewards infos ups x.player.level (pos 0, pos 0) >>= λ sums. some (level_up ups sums x))
      else some x
  some (record x' { player = add_to_xp (f.to_int incoming) x'.player })
