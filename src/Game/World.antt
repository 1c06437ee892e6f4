-- ===== src/Game/World.antt =====
-- AuraGameModeBase.cpp, Checkpoint.cpp and MapEntrance.cpp: the state of a map's actors in the saved
-- game. The actors are in the order of the engine's iterator. What `LoadActor` does
-- to the actors of a blueprint is not modelled. An asset name is compared as a name.
pub mod Restored
pub mod RoundTrip
use unreal5_gas.Base.{
  ℕ, zero, suc, ◌+◌, Bool, true, false, not, ◌&&◌, ◌||◌, Option, none, some, List, [], ◌∷◌, ◌++◌,
  map, ◌==◌, if◌then◌else◌,
}
use unreal5_gas.Base.Unique.{has_key, add_unique}
use unreal5_gas.Game.Slots.{
  Name, Serializer, SavedActor, SavedMap, SaveGame, SaveSystem, has_map,
  get_saved_map_with_map_name, get_save_slot_data,
}

-- `UAuraGameInstance`: the slot of the game that is played.
pub record GameInstance : Type 0 where
  pub load_slot_name : Name
  pub load_slot_index : ℕ
  pub player_start_tag : Name

-- The classes that implement `LoadActor` in C++.
pub data ActorClass : Type 0 where
  checkpoint map_entrance enemy_spawn_volume other_class : ActorClass

-- `AAuraEnemySpawnVolume::LoadActor`, by `bReached`: whether it destroys the actor.
abbrev pub load_destroys : ActorClass → Bool → Bool
load_destroys enemy_spawn_volume reached = reached
load_destroys checkpoint reached = false
load_destroys map_entrance reached = false
load_destroys other_class reached = false

-- `ACheckpoint::LoadActor` and `AMapEntrance::LoadActor`: whether they light the actor.
abbrev pub load_lights : ActorClass → Bool → Bool
load_lights checkpoint reached = reached
load_lights map_entrance reached = false
load_lights enemy_spawn_volume reached = false
load_lights other_class reached = false

pub record Actor (z : Serializer) : Type 0 where
  pub name : Name
  pub actor_class : ActorClass
  -- Not destroyed.
  pub is_valid : Bool
  pub implements_save_interface : Bool
  pub should_load_transform : Bool
  pub transform : z.Transform
  pub fields : z.Fields
  -- `HandleGlowEffects` was called.
  pub is_lit : Bool
  -- How often `LoadActor` was called.
  pub loads : ℕ

-- A level, its name without the prefix of streaming levels.
pub record World (z : Serializer) : Type 0 where
  pub map_name : Name
  pub actors : List (Actor z)

-- `GetMapNameFromMapAssetName`, over the pairs of a map's name and its asset's.
unfoldable pub get_map_name_from_map_asset_name : Name → List (Name × Name) → Name
get_map_name_from_map_asset_name asset [] = 0
get_map_name_from_map_asset_name asset ((name, a) ∷ maps) =
    if a == asset then name else get_map_name_from_map_asset_name asset maps

module _ {z : Serializer} where
  abbrev pub saved_actor : Actor z → SavedActor z
  saved_actor a = record {
    actor_name = a.name;
    transform = a.transform;
    bytes = z.serialize a.fields;
  }

  abbrev pub actor_key : SavedActor z → ℕ
  actor_key s = s.actor_name

  abbrev pub is_saved : Actor z → Bool
  is_saved a = a.is_valid && a.implements_save_interface

  abbrev pub save_actor : Actor z → List (SavedActor z) → List (SavedActor z)
  save_actor a ss = if is_saved a then add_unique actor_key (saved_actor a) ss else ss

  -- The loop over the actors, which adds to those saved so far.
  unfoldable pub save_actors : List (Actor z) → List (SavedActor z) → List (SavedActor z)
  save_actors [] ss = ss
  save_actors (a ∷ as') ss = save_actors as' (save_actor a ss)

  abbrev pub replaced : SavedMap z → SavedMap z → SavedMap z
  replaced new old = if old.map_asset_name == new.map_asset_name then new else old

  unfoldable pub replace_map : SavedMap z → List (SavedMap z) → List (SavedMap z)
  replace_map new [] = []
  replace_map new (m ∷ ms) = replaced new m ∷ replace_map new ms

  abbrev pub with_map : Name → List (SavedMap z) → List (SavedMap z)
  with_map name ms =
      if has_map name ms
      then ms
      else ms ++ (record { map_asset_name = name; saved_actors = [] } ∷ [])

  -- The saved maps once the actors of the world are in.
  pub save_maps : World z → List (SavedMap z) → List (SavedMap z)
  unfolding has_map get_saved_map_with_map_name save_actors replace_map has_key
  save_maps w ms =
      let there = with_map w.map_name ms in
      let old = get_saved_map_with_map_name w.map_name there in
      replace_map (record old { saved_actors = save_actors w.actors [] }) there

  -- `LoadActor`. A destroyed actor stays in the list and is not valid.
  abbrev pub call_load_actor : Actor z → Actor z
  call_load_actor a = record a {
    is_valid = a.is_valid && not (load_destroys a.actor_class (z.reached a.fields));
    is_lit = a.is_lit || load_lights a.actor_class (z.reached a.fields);
    loads = suc a.loads;
  }

  -- One saved actor against one actor of the world.
  abbrev pub load_from : SavedActor z → Actor z → Actor z
  load_from s a = call_load_actor (record a {
    transform = if a.should_load_transform then s.transform else a.transform;
    fields = z.deserialize s.bytes a.fields;
  })

  abbrev pub load_matching : SavedActor z → Actor z → Actor z
  load_matching s a = if s.actor_name == a.name then load_from s a else a

  unfoldable pub load_actor : List (SavedActor z) → Actor z → Actor z
  load_actor [] a = a
  load_actor (s ∷ ss) a = load_actor ss (load_matching s a)

  abbrev pub load_world_actor : List (SavedActor z) → Actor z → Actor z
  load_world_actor ss a = if a.implements_save_interface then load_actor ss a else a

  -- The destination is written to the saved game, unless it is empty.
  unfoldable pub set_destination :
      {F : Type 0} → List (Name × Name) → Name → SaveGame z F → SaveGame z F
  unfolding get_map_name_from_map_asset_name
  set_destination maps destination g = if destination == 0 then g else record g {
    map_asset_name = destination;
    map_name = get_map_name_from_map_asset_name destination maps;
  }

module _ {z : Serializer} {F : Type 0} (s : SaveSystem (SaveGame z F)) where
  abbrev pub save_world_in : List (Name × Name) → World z → Name → SaveGame z F → SaveGame z F
  save_world_in maps w destination g =
      let g' = set_destination maps destination g in
      record g' { saved_maps = save_maps w g'.saved_maps }

  abbrev save_if_found :
      List (Name × Name) → World z → Name → GameInstance → Option (SaveGame z F) → s.Disk → s.Disk
  save_if_found maps w destination gi none d = d
  save_if_found maps w destination gi (some g) d =
      s.save_to_slot (save_world_in maps w destination g) gi.load_slot_name gi.load_slot_index d

  -- `SaveWorldState`.
  unfoldable pub save_world_state :
      List (Name × Name) → World z → Name → GameInstance → s.Disk → s.Disk
  save_world_state maps w destination gi d =
      save_if_found maps w destination gi
        (get_save_slot_data s gi.load_slot_name gi.load_slot_index d) d

  abbrev load_found : Option (SaveGame z F) → World z → World z
  load_found none w = w
  load_found (some g) w = record w {
    actors =
        map (load_world_actor (get_saved_map_with_map_name w.map_name g.saved_maps).saved_actors)
          w.actors;
  }

  -- `LoadWorldState`.
  unfoldable pub load_world_state : GameInstance → s.Disk → World z → World z
  unfolding get_saved_map_with_map_name load_actor
  load_world_state gi d w =
      if s.does_exist gi.load_slot_name gi.load_slot_index d
      then load_found (s.load_from_slot gi.load_slot_name gi.load_slot_index d) w
      else w
