-- ===== src/Loot/Examples.antt =====
-- Tests of the model of the loot.
use unreal5_gas.Base.{ℕ, zero, suc, ◌≡◌, refl, true, false, List, [], ◌∷◌}
use unreal5_gas.Base.Int.{pos, negsuc}
use unreal5_gas.Combat.Natural.{natural}
use unreal5_gas.Loot.{LootItem, spawn, spawn_all, get_loot_items}
use unreal5_gas.Loot.Spawned.{IsLoot, get_loot_items-IsLoot}

-- The draws 41 and 52, then 73 for ever.
abbrev draws : ℕ → ℕ
draws zero = 41
draws (suc zero) = 52
draws (suc (suc k)) = 73

-- Two potions at half the chance, a number below zero, a crystal that never and a key that always drops.
abbrev tiers : List (LootItem ℕ)
tiers =
    record {
      loot_class = 1;
      chance_to_spawn = 50;
      max_number_to_spawn = pos 2;
      loot_level_override = true;
    }
    ∷ record {
      loot_class = 2;
      chance_to_spawn = 101;
      max_number_to_spawn = negsuc 0;
      loot_level_override = true;
    }
    ∷ record {
      loot_class = 3;
      chance_to_spawn = 1;
      max_number_to_spawn = pos 1;
      loot_level_override = true;
    }
    ∷ record {
      loot_class = 4;
      chance_to_spawn = 101;
      max_number_to_spawn = pos 2;
      loot_level_override = false;
    }
    ∷ []

abbrev potion : LootItem ℕ
potion = record {
  loot_class = 1;
  chance_to_spawn = 0;
  max_number_to_spawn = pos 0;
  loot_level_override = true;
}

abbrev key : LootItem ℕ
key = record {
  loot_class = 4;
  chance_to_spawn = 0;
  max_number_to_spawn = pos 0;
  loot_level_override = false;
}

get_loot_items_example_run : get_loot_items natural draws tiers ≡ potion ∷ key ∷ key ∷ []
unfolding get_loot_items spawn_all spawn
get_loot_items_example_run = refl

draws_in_range : (k : ℕ) → (natural.le 1 (draws k) ≡ true) × (natural.le (draws k) 100 ≡ true)
draws_in_range zero = (refl, refl)
draws_in_range (suc zero) = (refl, refl)
draws_in_range (suc (suc k)) = (refl, refl)

get_loot_items-IsLoot_example : IsLoot natural draws tiers (get_loot_items natural draws tiers)
get_loot_items-IsLoot_example = get_loot_items-IsLoot natural draws tiers draws_in_range
