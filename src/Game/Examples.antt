-- ===== src/Game/Examples.antt =====
-- Tests of the model of saved games.
use unreal5_gas.Base.{
  ℕ, ◌≡◌, refl, inl, inr, true, false, Bool, not, ◌==◌, none, some, List, [], ◌∷◌, arith, map,
}
use unreal5_gas.Base.Int.{pos}
use unreal5_gas.Ability.Spells.{Spec, Component, input, status, equipped}
use unreal5_gas.Game.Slots.{offensive, vacant, get_save_slot_data}
use unreal5_gas.Game.Samples.{one_field, new_game, disk_games, has_game}
use unreal5_gas.Game.World.{
  other_class, enemy_spawn_volume, Actor, World, GameInstance, save_world_state, load_world_state,
}
use unreal5_gas.Game.World.Restored.{first_saved}
use unreal5_gas.Game.World.RoundTrip.{reloaded, load_world_state-save}
use unreal5_gas.Game.LoadScreen.{
  LoadSlot, GameMode, find_slot, begin_play, initialize_load_slots, Screen, game_of, named_slot,
}
use unreal5_gas.Game.LoadScreen.Playing.{start_and_play, start_and_play_opens}
use unreal5_gas.Game.Progress.{Info, Character, never}
use unreal5_gas.Game.Checkpoint.{Checkpoint}

-- A chest, 1, a torch, 2, that does not implement the interface, and a volume, 3, that spawns enemies
-- when it is reached, in map 50.
abbrev chest : ℕ → Actor one_field
chest opened = record {
  name = 1;
  actor_class = other_class;
  is_valid = true;
  implements_save_interface = true;
  should_load_transform = false;
  transform = 0;
  fields = (opened, 9);
  is_lit = false;
  loads = 0;
}

abbrev torch : Actor one_field
torch = record (chest 3) { name = 2; implements_save_interface = false }

abbrev volume : ℕ → Actor one_field
volume reached = record (chest reached) { name = 3; actor_class = enemy_spawn_volume }

abbrev camp : ℕ → World one_field
camp opened = record { map_name = 50; actors = chest opened ∷ torch ∷ volume opened ∷ [] }

abbrev playing : GameInstance
playing = record { load_slot_name = 7; load_slot_index = 0; player_start_tag = 0 }

abbrev maps : List (ℕ × ℕ)
maps = (500, 50) ∷ []

load_world_state-save_example :
    load_world_state disk_games playing
      (save_world_state disk_games maps (camp 1) 50 playing [])
      (camp 0)
    ≡ record (camp 0) { actors = map (reloaded (camp 1).actors) (camp 0).actors }
unfolding get_save_slot_data has_game
load_world_state-save_example =
    load_world_state-save disk_games maps (camp 1) (camp 0) 50 playing [] new_game refl refl

-- The chest is open again, and the volume, which was reached, is destroyed.
opened_again :
    map (reloaded (camp 1).actors) (camp 0).actors
    ≡ record (chest 1) { loads = 1 }
      ∷ torch
      ∷ record (volume 1) { is_valid = false; loads = 1 }
      ∷ []
unfolding first_saved
opened_again = refl

abbrev bolt : Spec
bolt = record { ability_tag = 1; level = 3; dynamic_ability_tags = input 5 ∷ status equipped ∷ [] }

abbrev no_component : Component
no_component = record {
  activatable_abilities = [];
  ability_information = [];
  spell_points = pos 0;
  calls = [];
}

abbrev mage : Character ℕ
mage = record {
  has_authority = true;
  player = record { level = 4; xp = pos 950; attribute_points = pos 2; spell_points = pos 1 };
  attributes = record { strength = 10; intelligence = 17; resilience = 12; vigor = 9 };
  initialised = never;
  component = record no_component { activatable_abilities = bolt ∷ [] };
  startup_abilities_given = true;
  startup_abilities = [];
  startup_passive_abilities = [];
}

abbrev newcomer : Character ℕ
newcomer = record mage {
  player = record { level = 1; xp = pos 0; attribute_points = pos 0; spell_points = pos 0 };
  component = no_component;
}

abbrev infos : List Info
infos = record { ability_tag = 1; ability = some 1; ability_type = offensive } ∷ []

abbrev gate : Checkpoint
gate = record { reached = false; player_start_tag = 8; destination_map = none }

-- Activations of class 2 end at once.
abbrev keeps : ℕ → Bool
keeps class = not (class == 2)

abbrev mode : GameMode
mode = record {
  default_map_name = 500;
  default_map_asset_name = 50;
  default_player_start_tag = 6;
  maps = [];
}

abbrev slots : List (ℕ × LoadSlot)
slots = initialize_load_slots 7 8 9

abbrev screen : Screen disk_games
screen = record { load_slots = slots; selected_slot = none; game = playing; disk = [] }

abbrev second : LoadSlot
second = record {
  load_slot_name = 8;
  slot_index = 1;
  slot_status = vacant;
  player_name = 0;
  map_name = 0;
  map_asset_name = 0;
  player_start_tag = 0;
  player_level = 0;
  widget_switcher_index = [];
  enable_select_slot_button = [];
}

start_and_play_opens_example :
    (v' : Screen disk_games) × (start_and_play disk_games (begin_play mode) 1 33 screen
      ≡ some (v', 50))
    × (v'.game ≡ record { load_slot_name = 8; load_slot_index = 1; player_start_tag = 6 })
    × (get_save_slot_data disk_games 8 1 v'.disk
        ≡ some (game_of disk_games (named_slot mode 33 second)))
    × (get_save_slot_data disk_games 9 2 v'.disk ≡ get_save_slot_data disk_games 9 2 [])
unfolding find_slot get_save_slot_data has_game
start_and_play_opens_example =
    start_and_play_opens disk_games mode 1 33 screen second 9 2 refl (ground arith) (
      ((new_game, refl), ((new_game, refl), ((new_game, refl), tt))),
      (inr (ground arith), (inl refl, (inr (ground arith), tt))),
    )
