-- ===== src/Ability/Experience/Examples.antt =====
-- Tests of the model of experience and levels.
use unreal5_gas.Base.{ℕ, suc, ◌+◌, ◌/◌, ap, ◌∙◌, ◌≡◌, refl, some, false, List, [], ◌∷◌, arith}
use unreal5_gas.Base.Int.{ℤ, pos, negsuc, ◌+ℤ◌, ◌-ℤ◌, int_laws}
use unreal5_gas.Ability.Experience.{
  LevelUpInfo, XpState, IsExact, Floats, judged, find_level_for_xp, handle_incoming_xp, search,
}
use unreal5_gas.Ability.Experience.Levels.{IsLevel, find_level_for_xp-IsLevel}
use unreal5_gas.Ability.Experience.Together.{handle_incoming_xp_together}
use unreal5_gas.Ability.Experience.Rewards.{IsHandled, handle_incoming_xp-IsHandled}

abbrev needs : ℕ → LevelUpInfo
needs n = record {
  level_up_requirement = pos n;
  attribute_point_award = pos 2;
  spell_point_award = pos 1;
}

abbrev table : List LevelUpInfo
table = needs 0 ∷ needs 300 ∷ needs 900 ∷ needs 2700 ∷ []

second_level : find_level_for_xp table (pos 450) ≡ some 2
unfolding find_level_for_xp search
second_level = refl

find_level_for_xp-IsLevel_example :
    (level : ℕ) × (find_level_for_xp table (pos 450) ≡ some level) × IsLevel table (pos 450) 1 level
find_level_for_xp-IsLevel_example = find_level_for_xp-IsLevel table (pos 450)

abbrev beginner : XpState
beginner = record {
  player = record { level = 1; xp = pos 100; attribute_points = pos 0; spell_points = pos 0 };
  top_off_health = false;
  top_off_mana = false;
}

-- Numbers of halves, as floats.
abbrev half_of : ℤ → ℤ
half_of (pos n) = pos (n / 2)
half_of (negsuc n) = pos 0 -ℤ pos (suc n / 2)

to_int-of_int_halves : (a : ℤ) → IsExact a → half_of (a +ℤ a) ≡ a
to_int-of_int_halves (pos n) exact =
    let doubled : pos n +ℤ pos n ≡ pos (n + n) = omega int_laws in
    let half : (n + n) / 2 ≡ n = omega arith in ap half_of doubled ∙ ap pos half
to_int-of_int_halves (negsuc n) exact = absurd (omega (arith, exact.0))

add_halves : (a b : ℤ) → a +ℤ a +ℤ (b +ℤ b) ≡ a +ℤ b +ℤ (a +ℤ b)
add_halves a b = omega int_laws

abbrev halves : Floats ℤ
halves = record {
  of_int = λ a. a +ℤ a;
  to_int = half_of;
  add = λ a b. a +ℤ b;
  to_int-of_int = to_int-of_int_halves;
  add-of_int = λ a b exact_a exact_b exact. add_halves a b;
}

handle_incoming_xp-IsHandled_example :
    (new : ℕ) × (y : XpState) × (find_level_for_xp table (judged halves (pos 2001) beginner)
      ≡ some new)
    × (handle_incoming_xp halves table (pos 2001) beginner ≡ some y)
    × IsHandled table (half_of (pos 2001)) beginner y new
handle_incoming_xp-IsHandled_example =
    handle_incoming_xp-IsHandled halves table (pos 2001) beginner (omega arith)

-- Half a point of experience is lost.
half_a_point : handle_incoming_xp halves table (pos 1) beginner ≡ some beginner
unfolding handle_incoming_xp find_level_for_xp search ◌+ℤ◌
half_a_point = refl

-- A beginner who gets 1000 points of experience and then 2000 more.
handle_incoming_xp_together_example :
    (y : XpState) × (z : XpState) × (w : XpState) × (handle_incoming_xp halves table
        (halves.of_int (pos 1000))
        beginner
      ≡ some y)
    × (handle_incoming_xp halves table (halves.of_int (pos 2000)) y ≡ some z)
    × (handle_incoming_xp halves table (halves.of_int (pos 1000 +ℤ pos 2000)) beginner ≡ some w)
    × (z.player ≡ w.player)
    × (z.top_off_health ≡ w.top_off_health)
handle_incoming_xp_together_example =
    handle_incoming_xp_together halves table (pos 1000) (pos 2000) beginner (omega arith)
      (omega arith) (omega arith) (omega arith) (omega int_laws)
