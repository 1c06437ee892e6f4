-- ===== src/Game/LoadScreen/Playing.antt =====
-- MVVM_LoadScreen.cpp: what the buttons of the load screen do in a row.
use unreal5_gas.Base.{ℕ, ◌≡◌, ◌≢◌, refl, Option, some, List, [], ◌∷◌, All}
use unreal5_gas.Base.Fallible.{◌>>=◌}
use unreal5_gas.Game.Slots.{Name, Serializer, SaveGame, SaveSystem, get_save_slot_data}
use unreal5_gas.Game.LoadScreen.{
  LoadSlot, GameMode, find_slot, set_slot, find_map, begin_play, initialize_slot, named_slot,
  instance_of, enable_buttons, Screen, game_of, save_slot_data, new_slot_button_pressed,
  select_slot_button_pressed, play_button_pressed, loaded_slot, load_slots_from, load_data,
}
use unreal5_gas.Game.LoadScreen.Finding.{
  find-set, All-set, find-enable, find-add_map, IsReadable, IsAlone, load_slots_from-find,
  get-save_slot_data, get-save_slot_data_other, save-IsReadable,
}

module _ {z : Serializer} {F : Type 0} (s : SaveSystem (SaveGame z F)) where
  -- A player starts a game, leaves the screen and comes back, and plays the game.
  abbrev pub start_and_play : GameMode → ℕ → Name → Screen s → Option (Screen s × Name)
  start_and_play gm k entered v = do
    started ← new_slot_button_pressed s (some gm) k entered v
    loaded ← load_data s (some gm) started
    selected ← select_slot_button_pressed s k loaded
    play_button_pressed s gm selected

  -- Every slot can be read, and only slot `k` has its name.
  abbrev pub IsReady : ℕ → Name → Screen s → Type 0
  IsReady k name v = All (IsReadable s v.disk) v.load_slots × All (IsAlone s k name) v.load_slots

  started-IsReadable :
      (l : LoadSlot) (k : ℕ) (d : s.Disk) (slots : List (ℕ × LoadSlot))
      → All (IsReadable s d) slots
      → All (IsAlone s k l.load_slot_name) slots
      → All (IsReadable s (save_slot_data s l k d)) slots
  started-IsReadable l k d [] all alone = tt
  started-IsReadable l k d (e ∷ slots) (r, rs) (a, as') =
      (save-IsReadable s l k d e r a, started-IsReadable l k d slots rs as')

  -- On a screen whose slots can be read and have different names, a game that is started in slot `k`,
  -- loaded with the other slots, selected and played opens the default map, with the slot's name and index
  -- and the default player start; the slot's game is the new one, with the name that was entered, and
  -- a slot of another names keep their games.
  pub start_and_play_opens :
      (gm : GameMode) (k : ℕ) (entered : Name) (v : Screen s) (old : LoadSlot) (m : Name) (j : ℕ)
      → find_slot k v.load_slots ≡ some old
      → old.load_slot_name ≢ m
      → IsReady k old.load_slot_name v
      → (v' : Screen s) × (start_and_play (begin_play gm) k entered v
          ≡ some (v', gm.default_map_asset_name))
        × (v'.game ≡ record {
          load_slot_name = old.load_slot_name;
          load_slot_index = old.slot_index;
          player_start_tag = gm.default_player_start_tag;
        })
        × (get_save_slot_data s old.load_slot_name k v'.disk
            ≡ some (game_of s (named_slot gm entered old)))
        × (get_save_slot_data s m j v'.disk ≡ get_save_slot_data s m j v.disk)
  unfolding find_slot set_slot find_map enable_buttons new_slot_button_pressed
      select_slot_button_pressed play_button_pressed load_data load_slots_from
  start_and_play_opens gm k entered v old m j found other (readable, alone) =
      let l = named_slot gm entered old in
      let d = save_slot_data s l k v.disk in
      let started = set_slot k (initialize_slot l) v.load_slots in
      let (loaded, r, finds) = load_slots_from-find s d started (
        All-set (IsReadable s d) k (initialize_slot l) v.load_slots
          (started-IsReadable l k v.disk v.load_slots readable alone)
          (game_of s l, get-save_slot_data s l k v.disk)) in
      let l2 = loaded_slot s (game_of s l) (initialize_slot l) in
      let there =
        finds k (initialize_slot l) (game_of s l)
          (find-set k (initialize_slot l) old v.load_slots found)
          (get-save_slot_data s l k v.disk) in
      (
        record {
          load_slots = enable_buttons k loaded;
          selected_slot = some k;
          game = instance_of l2;
          disk = d;
        },
        rw
            (
              found,
              r,
              there,
              find-enable k loaded l2 there,
              find-add_map gm.default_map_name gm.default_map_asset_name gm.maps,
            )
            refl,
        refl,
        get-save_slot_data s l k v.disk,
        get-save_slot_data_other s l k m j v.disk other,
      )
