-- ===== src/Game/LoadScreen.antt =====
-- MVVM_LoadScreen.cpp, MVVM_LoadSlot.cpp and AuraGameModeBase.cpp: the load screen, which starts,
-- selects, deletes, plays and loads saved games. `none` is a `FindChecked` of a key that is not there,
-- or a null pointer that is dereferenced.
pub mod Finding
pub mod Playing
use unreal5_gas.Base.{
  ℕ, ◌≡◌, Bool, true, false, not, Option, none, some, List, [], ◌∷◌, ◌++◌, ◌==◌, if◌then◌else◌,
}
use unreal5_gas.Base.Fallible.{◌>>=◌}
use unreal5_gas.Game.Slots.{
  Name, Serializer, SaveSlotStatus, vacant, enter_name, taken, SaveGame, SaveSystem,
  get_save_slot_data, delete_slot,
}
use unreal5_gas.Game.World.{GameInstance}

-- `UMVVM_LoadSlot`, without the character class, which nothing reads.
pub record LoadSlot : Type 0 where
  pub load_slot_name : Name
  pub slot_index : ℕ
  pub slot_status : SaveSlotStatus
  pub player_name : Name
  pub map_name : Name
  pub map_asset_name : Name
  pub player_start_tag : Name
  pub player_level : ℕ
  -- The broadcasts of `SetWidgetSwitcherIndex` and of `EnableSelectSlotButton`, oldest first.
  pub widget_switcher_index : List SaveSlotStatus
  pub enable_select_slot_button : List Bool

-- What the designers set in `AAuraGameModeBase`; `maps` has map names and asset names.
pub record GameMode : Type 0 where
  pub default_map_name : Name
  pub default_map_asset_name : Name
  pub default_player_start_tag : Name
  pub maps : List (Name × Name)

-- `LoadSlots`, a map from indices.
unfoldable pub find_slot : ℕ → List (ℕ × LoadSlot) → Option LoadSlot
find_slot k [] = none
find_slot k ((j, l) ∷ slots) = if j == k then some l else find_slot k slots

-- A write to the object of a slot.
unfoldable pub set_slot : ℕ → LoadSlot → List (ℕ × LoadSlot) → List (ℕ × LoadSlot)
set_slot k l [] = []
set_slot k l ((j, m) ∷ slots) = if j == k then (j, l) ∷ slots else (j, m) ∷ set_slot k l slots

-- `Maps.FindChecked`.
unfoldable pub find_map : Name → List (Name × Name) → Option Name
find_map name [] = none
find_map name ((m, asset) ∷ maps) = if m == name then some asset else find_map name maps

-- `TMap::Add` of `BeginPlay`: a name that is there gets the new map.
unfoldable pub add_map : Name → Name → List (Name × Name) → List (Name × Name)
add_map name asset [] = (name, asset) ∷ []
add_map name asset ((m, a) ∷ maps) =
    if m == name then (m, asset) ∷ maps else (m, a) ∷ add_map name asset maps

abbrev pub begin_play : GameMode → GameMode
begin_play gm = record gm { maps = add_map gm.default_map_name gm.default_map_asset_name gm.maps }

-- `InitializeSlot`.
abbrev pub initialize_slot : LoadSlot → LoadSlot
initialize_slot l = record l {
  widget_switcher_index = l.widget_switcher_index ++ (l.slot_status ∷ []);
}

-- A slot as `InitializeLoadSlots` makes it.
abbrev new_load_slot : Name → ℕ → LoadSlot
new_load_slot name i = record {
  load_slot_name = name;
  slot_index = i;
  slot_status = vacant;
  player_name = 0;
  map_name = 0;
  map_asset_name = 0;
  player_start_tag = 0;
  player_level = 0;
  widget_switcher_index = [];
  enable_select_slot_button = [];
}

-- `InitializeLoadSlots`, given the three names that it writes out.
abbrev pub initialize_load_slots : Name → Name → Name → List (ℕ × LoadSlot)
initialize_load_slots n0 n1 n2 =
    (0, new_load_slot n0 0) ∷ (1, new_load_slot n1 1) ∷ (2, new_load_slot n2 2) ∷ []

-- What `NewSlotButtonPressed` writes to the slot before it is saved.
abbrev pub named_slot : GameMode → Name → LoadSlot → LoadSlot
named_slot gm entered l = record l {
  map_name = gm.default_map_name;
  player_name = entered;
  player_level = 1;
  slot_status = taken;
  player_start_tag = gm.default_player_start_tag;
  map_asset_name = gm.default_map_asset_name;
}

-- The instance of the game that the buttons start.
abbrev pub instance_of : LoadSlot → GameInstance
instance_of l = record {
  load_slot_name = l.load_slot_name;
  load_slot_index = l.slot_index;
  player_start_tag = l.player_start_tag;
}

unfoldable pub enable_buttons : ℕ → List (ℕ × LoadSlot) → List (ℕ × LoadSlot)
enable_buttons k [] = []
enable_buttons k ((j, l) ∷ slots) =
    (j, record l { enable_select_slot_button = l.enable_select_slot_button ++ (not (j == k) ∷ []) })
    ∷ enable_buttons k slots

module _ {z : Serializer} {F : Type 0} (s : SaveSystem (SaveGame z F)) where
  -- The load screen, the instance of the game and the disk. `selected_slot` is the key of the slot
  -- that `SelectedSlot` points to.
  pub record Screen : Type 0 where
    pub load_slots : List (ℕ × LoadSlot)
    pub selected_slot : Option ℕ
    pub game : GameInstance
    pub disk : s.Disk

  -- The game that `SaveSlotData` makes of a slot.
  abbrev pub game_of : LoadSlot → SaveGame z F
  game_of l = record s.new_game {
    player_name = l.player_name;
    save_slot_status = taken;
    map_name = l.map_name;
    map_asset_name = l.map_asset_name;
    player_start_tag = l.player_start_tag;
  }

  -- `SaveSlotData`.
  unfoldable pub save_slot_data : LoadSlot → ℕ → s.Disk → s.Disk
  save_slot_data l i d =
      let cleared =
        if s.does_exist l.load_slot_name i d then s.delete_in_slot l.load_slot_name i d else d in
      s.save_to_slot (game_of l) l.load_slot_name i cleared

  abbrev start_game : GameMode → ℕ → Name → Screen → LoadSlot → Screen
  start_game gm k entered v old =
      let l = named_slot gm entered old in
      record v {
        load_slots = set_slot k (initialize_slot l) v.load_slots;
        game = instance_of l;
        disk = save_slot_data l k v.disk;
      }

  -- `NewSlotButtonPressed`; `none` is a game mode of another class.
  unfoldable pub new_slot_button_pressed : Option GameMode → ℕ → Name → Screen → Option Screen
  unfolding find_slot set_slot
  new_slot_button_pressed none k entered v = some v
  new_slot_button_pressed (some gm) k entered v =
      find_slot k v.load_slots >>= λ old. some (start_game gm k entered v old)

  -- `SelectSlotButtonPressed`.
  unfoldable pub select_slot_button_pressed : ℕ → Screen → Option Screen
  unfolding find_slot enable_buttons
  select_slot_button_pressed k v = find_slot k v.load_slots >>= λ l.
      some (record v { load_slots = enable_buttons k v.load_slots; selected_slot = some k })

  abbrev deleted_slot : LoadSlot → LoadSlot
  deleted_slot l =
      let shown = initialize_slot (record l { slot_status = vacant }) in
      record shown { enable_select_slot_button = shown.enable_select_slot_button ++ (true ∷ []) }

  -- `DeleteButtonPressed`.
  unfoldable pub delete_button_pressed : Screen → Option Screen
  unfolding find_slot set_slot
  delete_button_pressed v = elim v.selected_slot [
    | none ↦ some v
    | some k ↦
        (find_slot k v.load_slots >>= λ l. some (record v {
          load_slots = set_slot k (deleted_slot l) v.load_slots;
          disk = delete_slot s l.load_slot_name l.slot_index v.disk;
        }))
  ]

  -- `PlayButtonPressed` with `TravelToMap`: the screen and the asset of the level that is opened. The
  -- selected slot is read before the test that it is valid.
  unfoldable pub play_button_pressed : GameMode → Screen → Option (Screen × Name)
  unfolding find_slot find_map
  play_button_pressed gm v = do
    k ← v.selected_slot
    l ← find_slot k v.load_slots
    asset ← find_map l.map_name gm.maps
    some (record v { game = instance_of l }, asset)

  abbrev pub loaded_slot : SaveGame z F → LoadSlot → LoadSlot
  loaded_slot g l =
      let shown =
        initialize_slot
          (record l { slot_status = g.save_slot_status; player_name = g.player_name }) in
      record shown {
        map_name = g.map_name;
        player_start_tag = g.player_start_tag;
        player_level = g.player_level;
      }

  unfoldable pub load_slots_from : s.Disk → List (ℕ × LoadSlot) → Option (List (ℕ × LoadSlot))
  load_slots_from d [] = some []
  load_slots_from d ((k, l) ∷ slots) = do
    g ← get_save_slot_data s l.load_slot_name k d
    rest ← load_slots_from d slots
    some ((k, loaded_slot g l) ∷ rest)

  -- `LoadData`.
  unfoldable pub load_data : Option GameMode → Screen → Option Screen
  unfolding load_slots_from
  load_data none v = some v
  load_data (some gm) v =
      load_slots_from v.disk v.load_slots >>= λ slots. some (record v { load_slots = slots })
