-- ===== src/Combat/Targets.antt =====
-- AuraAbilitySystemLibrary.cpp: the targets of a spell. An actor is a number. A distance, a double in
-- the source, is a natural number below the largest one that a double holds.
pub mod Closest
pub mod Picked
use unreal5_gas.Base.{
  ℕ, zero, suc, ◌+◌, ◌-◌, Bool, true, false, not, ◌&&◌, ◌||◌, Option, none, some, List, [], ◌∷◌,
  ◌++◌, ◌==◌, ltb, leb, if◌then◌else◌, length,
}
use unreal5_gas.Base.Unique.{has_key, add_unique}

-- `IsNotFriend`, of two actors with or without the tags `Player` and `Enemy`.
pub record Side : Type 0 where
  pub is_player : Bool
  pub is_enemy : Bool

abbrev pub is_not_friend : Side → Side → Bool
is_not_friend a b = not ((a.is_player && b.is_player) || (a.is_enemy && b.is_enemy))

-- What an overlap query of the engine finds: an actor, and its avatar if it has the combat interface.
pub record Overlap : Type 0 where
  pub actor : ℕ
  pub avatar : Option ℕ
  pub is_dead : Bool

abbrev pub itself : ℕ → ℕ
itself a = a

abbrev add_live : Option ℕ → Bool → List ℕ → List ℕ
add_live none dead out = out
add_live (some a) dead out = if dead then out else add_unique itself a out

-- The loop of `GetLivePlayersWithinRadius`.
unfoldable pub get_live_players : List Overlap → List ℕ → List ℕ
unfolding has_key
get_live_players [] out = out
get_live_players (o ∷ overlaps) out = get_live_players overlaps (add_live o.avatar o.is_dead out)

-- The inner loop of `GetClosestTargets`: the closest actor so far, with its distance. The first actor
-- is closer than the largest double.
abbrev pub closer : (ℕ → ℕ) → ℕ → ℕ → ℕ
closer distance a b = if ltb (distance b) (distance a) then b else a

unfoldable pub closest : (ℕ → ℕ) → ℕ → List ℕ → ℕ
closest distance best [] = best
closest distance best (a ∷ actors) = closest distance (closer distance best a) actors

-- `TArray::Remove`.
unfoldable pub remove : ℕ → List ℕ → List ℕ
remove a [] = []
remove a (b ∷ bs) = let rest = remove a bs in if b == a then rest else b ∷ rest

-- The outer loop, for `n` more targets.
unfoldable pub pick : (ℕ → ℕ) → ℕ → List ℕ → List ℕ → List ℕ
unfolding closest remove has_key
pick distance zero actors out = out
pick distance (suc n) [] out = out
pick distance (suc n) (a ∷ actors) out =
    let best = closest distance a actors in
    pick distance n (remove best (a ∷ actors)) (add_unique itself best out)

-- `GetClosestTargets` into an empty array.
unfoldable pub get_closest_targets : ℕ → (ℕ → ℕ) → List ℕ → List ℕ
unfolding pick
get_closest_targets max_targets distance actors =
    if leb (length actors) max_targets then actors else pick distance max_targets actors []
