-- ===== src/Game/Slots.antt =====
-- LoadScreenSaveGame.h and .cpp, and the slots of AuraGameModeBase.cpp: what a saved game holds and
-- where it is kept. A name, an FString or an FName, is a number: names are only compared, and 0 is the
-- empty one. An int32 that is never negative here is a natural number. The engine's store of saved
-- games and its serialisation of actors are parameters, a `SaveSystem` and a `Serializer`.
use unreal5_gas.Base.{
  ℕ, ◌≡◌, ◌≢◌, refl, inl, inr, Bool-cases, Bool, true, false, Option, some, List, [], ◌∷◌, ◌==◌,
  if◌then◌else◌,
}
use unreal5_gas.Base.Int.{ℤ}
use unreal5_gas.Ability.Spells.{Tag}

abbrev pub Name : Type 0
Name = ℕ

-- The engine's parts of an actor: where it stands, its variables and their bytes in an archive. Of
-- variables that were loaded the saved bytes are the ones that they were loaded from.
pub record Serializer : Type 1 where
  pub Transform : Type 0
  pub Fields : Type 0
  pub Bytes : Type 0
  pub serialize : Fields → Bytes
  pub deserialize : Bytes → Fields → Fields
  -- `bReached`, of the classes that have it.
  pub reached : Fields → Bool
  pub serialize_loaded : (f g : Fields) → serialize (deserialize (serialize f) g) ≡ serialize f

pub data SaveSlotStatus : Type 0 where
  vacant enter_name taken : SaveSlotStatus

-- `FSavedActor`; `==` on it compares the names.
pub record SavedActor (z : Serializer) : Type 0 where
  pub actor_name : Name
  pub transform : z.Transform
  pub bytes : z.Bytes

-- `FSavedMap`.
pub record SavedMap (z : Serializer) : Type 0 where
  pub map_asset_name : Name
  pub saved_actors : List (SavedActor z)

pub data AbilityType : Type 0 where
  offensive passive other_type : AbilityType

-- `FSavedAbility`. An ability class is known by its ability's tag; `none` is no class.
pub record SavedAbility : Type 0 where
  pub gameplay_ability : Option ℕ
  pub ability_tag : ℕ
  pub ability_status : Tag
  pub ability_slot : Tag
  pub ability_type : AbilityType
  pub ability_level : ℕ

-- The primary attributes; `F` is float.
pub record Attributes (F : Type 0) : Type 0 where
  pub strength : F
  pub intelligence : F
  pub resilience : F
  pub vigor : F

-- `ULoadScreenSaveGame`, without the slot's name and index, which nothing sets.
pub record SaveGame (z : Serializer) (F : Type 0) : Type 0 where
  pub player_name : Name
  pub map_name : Name
  pub map_asset_name : Name
  pub player_start_tag : Name
  pub save_slot_status : SaveSlotStatus
  pub first_time_load_in : Bool
  pub player_level : ℕ
  pub xp : ℤ
  pub spell_points : ℤ
  pub attribute_points : ℤ
  pub attributes : Attributes F
  pub saved_abilities : List SavedAbility
  pub saved_maps : List (SavedMap z)

-- `DoesSaveGameExist`, `LoadGameFromSlot`, `SaveGameToSlot` and `DeleteGameInSlot` of the engine, by the
-- name and the index of a slot, and the object that `CreateSaveGameObject` makes. A game that is saved
-- is there and is loaded again, until it is deleted, and slots of other names keep theirs.
pub record SaveSystem (G : Type 0) : Type 1 where
  pub Disk : Type 0
  pub does_exist : Name → ℕ → Disk → Bool
  pub load_from_slot : Name → ℕ → Disk → Option G
  pub save_to_slot : G → Name → ℕ → Disk → Disk
  pub delete_in_slot : Name → ℕ → Disk → Disk
  pub new_game : G
  pub exists_saved :
      (g : G) (n : Name) (i : ℕ) (d : Disk) → does_exist n i (save_to_slot g n i d) ≡ true
  pub load_saved :
      (g : G) (n : Name) (i : ℕ) (d : Disk) → load_from_slot n i (save_to_slot g n i d) ≡ some g
  pub exists_other :
      (g : G) (n m : Name) (i j : ℕ) (d : Disk)
      → n ≢ m
      → does_exist m j (save_to_slot g n i d) ≡ does_exist m j d
  pub load_other :
      (g : G) (n m : Name) (i j : ℕ) (d : Disk)
      → n ≢ m
      → load_from_slot m j (save_to_slot g n i d) ≡ load_from_slot m j d
  pub exists_other_deleted :
      (n m : Name) (i j : ℕ) (d : Disk)
      → n ≢ m
      → does_exist m j (delete_in_slot n i d) ≡ does_exist m j d
  pub load_other_deleted :
      (n m : Name) (i j : ℕ) (d : Disk)
      → n ≢ m
      → load_from_slot m j (delete_in_slot n i d) ≡ load_from_slot m j d
  pub gone_deleted : (n : Name) (i : ℕ) (d : Disk) → does_exist n i (delete_in_slot n i d) ≡ false

module _ {z : Serializer} where
  -- `GetSavedMapWithMapName`.
  unfoldable pub get_saved_map_with_map_name : Name → List (SavedMap z) → SavedMap z
  get_saved_map_with_map_name name [] = record { map_asset_name = 0; saved_actors = [] }
  get_saved_map_with_map_name name (m ∷ ms) =
      if m.map_asset_name == name then m else get_saved_map_with_map_name name ms

  unfoldable pub has_map : Name → List (SavedMap z) → Bool
  has_map name [] = false
  has_map name (m ∷ ms) = if m.map_asset_name == name then true else has_map name ms

module _ {G : Type 0} (s : SaveSystem G) where
  -- `GetSaveSlotData`; `none` is a null pointer.
  unfoldable pub get_save_slot_data : Name → ℕ → s.Disk → Option G
  get_save_slot_data n i d = if s.does_exist n i d then s.load_from_slot n i d else some s.new_game

  -- `DeleteSlot`.
  unfoldable pub delete_slot : Name → ℕ → s.Disk → s.Disk
  delete_slot n i d = if s.does_exist n i d then s.delete_in_slot n i d else d

  pub get_save_slot_data-saved :
      (g : G) (n : Name) (i : ℕ) (d : s.Disk)
      → get_save_slot_data n i (s.save_to_slot g n i d) ≡ some g
  unfolding get_save_slot_data
  get_save_slot_data-saved g n i d = rw (s.exists_saved g n i d) (s.load_saved g n i d)

  pub get_save_slot_data-other :
      (g : G) (n m : Name) (i j : ℕ) (d : s.Disk)
      → n ≢ m
      → get_save_slot_data m j (s.save_to_slot g n i d) ≡ get_save_slot_data m j d
  unfolding get_save_slot_data
  get_save_slot_data-other g n m i j d ne =
      rw (s.exists_other g n m i j d ne, s.load_other g n m i j d ne) refl

  -- A slot that is deleted is read as a new game.
  pub get_save_slot_data-deleted :
      (n : Name) (i : ℕ) (d : s.Disk) → get_save_slot_data n i (delete_slot n i d) ≡ some s.new_game
  unfolding get_save_slot_data delete_slot
  get_save_slot_data-deleted n i d = elim (Bool-cases (s.does_exist n i d)) [
    | inl there ↦ rw (there, s.gone_deleted n i d) refl
    | inr missing ↦ rw (missing, missing) refl
  ]

  pub get_save_slot_data-other_deleted :
      (n m : Name) (i j : ℕ) (d : s.Disk)
      → n ≢ m
      → get_save_slot_data m j (s.delete_in_slot n i d) ≡ get_save_slot_data m j d
  unfolding get_save_slot_data
  get_save_slot_data-other_deleted n m i j d ne =
      rw (s.exists_other_deleted n m i j d ne, s.load_other_deleted n m i j d ne) refl
