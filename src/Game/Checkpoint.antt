-- ===== src/Game/Checkpoint.antt =====
-- Checkpoint.cpp, MapEntrance.cpp and `PossessedBy` of AuraCharacter.cpp: a player reaches a
-- checkpoint or an entrance, which saves the world and the player's progress to one slot, and comes
-- back to them.
use unreal5_gas.Base.{ℕ, suc, ◌==◌, Bool, true, Option, none, some, List, [], ◌∷◌, if◌then◌else◌}
use unreal5_gas.Game.Slots.{Name, Serializer, SaveGame, SaveSystem}
use unreal5_gas.Game.World.{GameInstance, World, save_world_state, load_world_state}
use unreal5_gas.Game.Progress.{Info, Character}
use unreal5_gas.Game.Progress.Checkpoint.{retrieve_in_game_save_data, save_progress, load_progress}

-- `ACheckpoint`, or an `AMapEntrance`, whose destination is the asset of another map.
pub record Checkpoint : Type 0 where
  pub reached : Bool
  pub player_start_tag : Name
  pub destination_map : Option Name

-- The map that is written to the saved game: the one that the world is, or the destination.
abbrev pub destination_of : Option Name → Name → Name
destination_of none here = here
destination_of (some asset) here = asset

-- `ChoosePlayerStart`, over the tags of the player starts in the level: the first that has the
-- instance's tag, or the first at all.
unfoldable pub start_with_tag : Name → ℕ → List Name → Option ℕ
start_with_tag tag i [] = none
start_with_tag tag i (t ∷ starts) = if t == tag then some i else start_with_tag tag (suc i) starts

abbrev or_first : Option ℕ → Option ℕ
or_first none = some 0
or_first (some i) = some i

abbrev pub choose_player_start : GameInstance → List Name → Option ℕ
choose_player_start gi [] = none
choose_player_start gi (t ∷ starts) = or_first (start_with_tag gi.player_start_tag 0 (t ∷ starts))

abbrev saved_map_of : {z : Serializer} {F : Type 0} → Option (SaveGame z F) → Option Name
saved_map_of none = none
saved_map_of (some g) = some g.map_asset_name

module _ {z : Serializer} {F : Type 0} (s : SaveSystem (SaveGame z F)) where
  -- `PlayerDied`: the level that is opened.
  abbrev pub player_died : GameInstance → s.Disk → Option Name
  player_died gi d = saved_map_of (retrieve_in_game_save_data s gi d)

  -- `OnSphereOverlap` of the two classes: the checkpoint, what is saved, and the level that is opened.
  -- The world is as the actor iterator finds it, after `bReached` is set.
  pub on_sphere_overlap :
      List (Name × Name)
      → List Info
      → World z
      → Character F
      → Bool
      → Checkpoint
      → GameInstance × s.Disk
      → Checkpoint × Option Name × (GameInstance × s.Disk)
  unfolding save_world_state save_progress
  on_sphere_overlap maps infos w ch is_player c (gi, d) =
      if is_player
      then (
        record c { reached = true },
        c.destination_map,
        save_progress s infos c.player_start_tag ch
            (gi, save_world_state s maps w (destination_of c.destination_map w.map_name) gi d),
      )
      else (c, none, (gi, d))

  -- What `PossessedBy` loads on the server: the character's progress, and the world.
  abbrev pub possessed_by :
      (ℕ → Bool) → GameInstance × s.Disk → Character F × World z → Character F × World z
  possessed_by keeps (gi, d) (ch, w) = (load_progress s keeps (gi, d) ch, load_world_state s gi d w)
