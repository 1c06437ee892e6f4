-- ===== src/Game/Progress/Checkpoint.antt =====
-- AuraCharacter.cpp: `SaveProgress` and `LoadProgress`, a character to a slot and back.
use unreal5_gas.Base.{ℕ, ◌≡◌, refl, Bool, true, false, Option, none, some, List, [], if◌then◌else◌}
use unreal5_gas.Ability.Experience.{PlayerState}
use unreal5_gas.Game.Slots.{
  Name, Serializer, SaveGame, SaveSystem, get_save_slot_data, get_save_slot_data-saved,
}
use unreal5_gas.Game.World.{GameInstance}
use unreal5_gas.Game.Progress.{
  Info, Character, by_default, from_save, save_abilities, saved_ability,
  add_character_abilities_from_save_data, add_character_abilities,
}
use unreal5_gas.Game.Progress.Abilities.{IsConsistent, given_map, respec_found}
use unreal5_gas.Game.Progress.Given.{found, found-saved}

module _ {z : Serializer} {F : Type 0} (s : SaveSystem (SaveGame z F)) where
  -- The game that `SaveProgress` saves.
  abbrev pub progress_of : List Info → Name → Character F → SaveGame z F → SaveGame z F
  progress_of infos checkpoint ch g = record g {
    player_start_tag = checkpoint;
    player_level = ch.player.level;
    xp = ch.player.xp;
    attribute_points = ch.player.attribute_points;
    spell_points = ch.player.spell_points;
    attributes = ch.attributes;
    first_time_load_in = false;
    saved_abilities = save_abilities infos ch.component ch.component.activatable_abilities [];
  }

  -- `SaveInGameProgressData`.
  abbrev pub save_in_game_progress_data :
      SaveGame z F → GameInstance × s.Disk → GameInstance × s.Disk
  save_in_game_progress_data g (gi, d) = (
    record gi { player_start_tag = g.player_start_tag },
    s.save_to_slot g gi.load_slot_name gi.load_slot_index d,
  )

  -- `RetrieveInGameSaveData`: the slot of the game instance.
  abbrev pub retrieve_in_game_save_data : GameInstance → s.Disk → Option (SaveGame z F)
  retrieve_in_game_save_data gi d = get_save_slot_data s gi.load_slot_name gi.load_slot_index d

  abbrev save_found :
      List Info
      → Name
      → Character F
      → Option (SaveGame z F)
      → GameInstance × s.Disk
      → GameInstance × s.Disk
  save_found infos checkpoint ch none st = st
  save_found infos checkpoint ch (some g) st =
      if ch.has_authority
      then save_in_game_progress_data (progress_of infos checkpoint ch g) st
      else st

  -- `SaveProgress`.
  unfoldable pub save_progress :
      List Info → Name → Character F → GameInstance × s.Disk → GameInstance × s.Disk
  save_progress infos checkpoint ch (gi, d) =
      save_found infos checkpoint ch (retrieve_in_game_save_data gi d) (gi, d)

  -- `SetLevel`, `SetXP`, `SetAttributePoints` and `SetSpellPoints` of the player state.
  abbrev pub set_player : SaveGame z F → PlayerState → PlayerState
  set_player g p = record p {
    level = g.player_level;
    xp = g.xp;
    attribute_points = g.attribute_points;
    spell_points = g.spell_points;
  }

  abbrev load_game : (ℕ → Bool) → SaveGame z F → Character F → Character F
  load_game keeps g ch =
      if g.first_time_load_in
      then add_character_abilities keeps (record ch { initialised = by_default })
      else record ch {
        component = add_character_abilities_from_save_data keeps g.saved_abilities ch.component;
        startup_abilities_given = true;
        player = set_player g ch.player;
        initialised = from_save g.attributes;
      }

  abbrev load_found : (ℕ → Bool) → Option (SaveGame z F) → Character F → Character F
  load_found keeps none ch = ch
  load_found keeps (some g) ch = load_game keeps g ch

  -- `LoadProgress`.
  unfoldable pub load_progress : (ℕ → Bool) → GameInstance × s.Disk → Character F → Character F
  load_progress keeps (gi, d) ch = load_found keeps (retrieve_in_game_save_data gi d) ch

  -- The progress that a character with authority saves is loaded into a character without abilities:
  -- its level, experience and points and the attributes given to its effect are those saved, and
  -- each tag finds an ability exactly if it did before, the table calls that offensive or passive,
  -- and the engine keeps it: one with the level, the slot and the status that the ability had. The slot's game is known to be
  -- there, and the table's classes to be those of their tags.
  pub load_progress-save :
      (keeps : ℕ → Bool) (infos : List Info) (checkpoint : Name) (ch fresh : Character F)
      (gi : GameInstance) (d : s.Disk) (g : SaveGame z F) (tag : ℕ)
      → get_save_slot_data s gi.load_slot_name gi.load_slot_index d ≡ some g
      → ch.has_authority ≡ true
      → IsConsistent infos
      → fresh.component.activatable_abilities ≡ []
      → let loaded = load_progress keeps (save_progress infos checkpoint ch (gi, d)) fresh in
        (loaded.player ≡ ch.player)
        × (loaded.initialised ≡ from_save ch.attributes)
        × (found tag loaded.component
            ≡ respec_found keeps
                (given_map (saved_ability infos ch.component) (found tag ch.component)))
        × ((save_progress infos checkpoint ch (gi, d)).0.player_start_tag ≡ checkpoint)
  unfolding save_progress load_progress
  load_progress-save keeps infos checkpoint ch fresh gi d g tag there authority ok empty =
      let g' = progress_of infos checkpoint ch g in
      rw (there, authority, get_save_slot_data-saved s g' gi.load_slot_name gi.load_slot_index d)
        (refl, refl, found-saved keeps tag infos ch.component fresh.component ok empty, refl)
