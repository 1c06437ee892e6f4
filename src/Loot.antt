-- ===== src/Loot.antt =====
-- LootTiers.cpp: what a fallen enemy drops. `FMath::FRandRange(1.f, 100.f)` is the engine's: its draws
-- are a parameter, numbered in order.
pub mod Spawned
pub mod Examples
use unreal5_gas.Base.{ℕ, zero, suc, ◌+◌, Bool, List, [], ◌∷◌, ◌++◌, if◌then◌else◌}
use unreal5_gas.Base.Int.{ℤ, pos, negsuc}
use unreal5_gas.Combat.Numbers.{Numbers, lt}

-- `FLootItem`. The class is a number.
pub record LootItem (F : Type 0) : Type 0 where
  pub loot_class : ℕ
  pub chance_to_spawn : F
  pub max_number_to_spawn : ℤ
  pub loot_level_override : Bool

-- How often a loop from 0 below an int32 runs.
abbrev pub times : ℤ → ℕ
times (pos n) = n
times (negsuc n) = 0

module _ {F : Type 0} (n : Numbers F) (draw : ℕ → F) where
  -- `NewItem`, which keeps the default chance and the default number.
  abbrev pub new_item : LootItem F → LootItem F
  new_item item = record {
    loot_class = item.loot_class;
    chance_to_spawn = n.zero;
    max_number_to_spawn = pos 0;
    loot_level_override = item.loot_level_override;
  }

  -- The inner loop, `more` times, from draw `k` on.
  unfoldable pub spawn : LootItem F → (more k : ℕ) → List (LootItem F) → List (LootItem F)
  spawn item zero k out = out
  spawn item (suc more) k out =
      spawn item more (k + 1)
        (if lt n (draw k) item.chance_to_spawn then out ++ (new_item item ∷ []) else out)

  -- The outer loop.
  unfoldable pub spawn_all : List (LootItem F) → ℕ → List (LootItem F) → List (LootItem F)
  unfolding spawn
  spawn_all [] k out = out
  spawn_all (item ∷ items) k out =
      let number = times item.max_number_to_spawn in
      spawn_all items (k + number) (spawn item number k out)

  -- `GetLootItems`.
  unfoldable pub get_loot_items : List (LootItem F) → List (LootItem F)
  unfolding spawn_all
  get_loot_items items = spawn_all items 0 []
