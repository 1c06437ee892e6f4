-- ===== src/Game/World/RoundTrip.antt =====
-- AuraGameModeBase.cpp: the state of a world that is saved and loaded.
use unreal5_gas.Base.{
  ◌≡◌, ◌≢◌, refl, sym, ap, ◌∙◌, inl, inr, true, false, some, List, [], ◌∷◌, ◌++◌, map, ◌==◌,
  if◌then◌else◌, arith, Bool-cases, ==_iff,
}
use unreal5_gas.Game.Slots.{
  Name, Serializer, SavedMap, SaveGame, SaveSystem, has_map, get_saved_map_with_map_name,
  get_save_slot_data,
}
use unreal5_gas.Game.World.{
  Actor, World, GameInstance, save_actors, replaced, replace_map, with_map, save_maps,
  load_world_actor, set_destination, save_world_in, save_world_state, load_world_state,
}
use unreal5_gas.Game.World.Restored.{first_saved, restored, load_actor-saved}

module _ {z : Serializer} where
  replaced_ne :
      (n : Name) (new old : SavedMap z)
      → n ≢ new.map_asset_name
      → old.map_asset_name ≢ n
      → (replaced new old).map_asset_name ≢ n
  replaced_ne n new old ne other = elim (Bool-cases (old.map_asset_name == new.map_asset_name)) [
    | inl hit ↦ rw hit (λ e. ne (sym e))
    | inr miss ↦ rw miss other
  ]

  -- Maps of other names are found as before.
  get-replace_other :
      (n : Name) (new : SavedMap z) (ms : List (SavedMap z))
      → n ≢ new.map_asset_name
      → get_saved_map_with_map_name n (replace_map new ms) ≡ get_saved_map_with_map_name n ms
  unfolding get_saved_map_with_map_name replace_map
  get-replace_other n new [] ne = refl
  get-replace_other n new (m ∷ ms) ne = elim (Bool-cases (m.map_asset_name == new.map_asset_name)) [
    | inr miss ↦
        rw miss (ap (λ r. if m.map_asset_name == n then m else r) (get-replace_other n new ms ne))
    | inl hit ↦
        let new_miss : (new.map_asset_name == n) ≡ false = ground arith in
        let old_miss : (m.map_asset_name == n) ≡ false = ground arith in
        rw (hit, new_miss, old_miss) (get-replace_other n new ms ne)
  ]

  get-replace :
      (new : SavedMap z) (ms : List (SavedMap z))
      → has_map new.map_asset_name ms ≡ true
      → get_saved_map_with_map_name new.map_asset_name (replace_map new ms) ≡ new
  unfolding get_saved_map_with_map_name replace_map has_map
  get-replace new [] e = cc
  get-replace new (m ∷ ms) e = elim (Bool-cases (m.map_asset_name == new.map_asset_name)) [
    | inl hit ↦
        let self : (new.map_asset_name == new.map_asset_name) ≡ true = ground arith in
        rw (hit, self) refl
    | inr miss ↦ rw (miss, miss) (get-replace new ms (ground (arith, miss)))
  ]

  abbrev empty_map : Name → SavedMap z
  empty_map n = record { map_asset_name = n; saved_actors = [] }

  has_map-append : (n : Name) (ms : List (SavedMap z)) → has_map n (ms ++ (empty_map n ∷ [])) ≡ true
  unfolding has_map
  has_map-append n [] = ground arith
  has_map-append n (m ∷ ms) = ground (arith, has_map-append n ms)

  has_map-with_map : (n : Name) (ms : List (SavedMap z)) → has_map n (with_map n ms) ≡ true
  has_map-with_map n ms = elim (Bool-cases (has_map n ms)) [
    | inl there ↦ rw (there, there) refl
    | inr missing ↦ rw missing (has_map-append n ms)
  ]

  get-has :
      (n : Name) (ms : List (SavedMap z))
      → has_map n ms ≡ true
      → (get_saved_map_with_map_name n ms).map_asset_name ≡ n
  unfolding get_saved_map_with_map_name has_map
  get-has n [] e = cc
  get-has n (m ∷ ms) e = elim (Bool-cases (m.map_asset_name == n)) [
    | inl hit ↦ rw hit ((==_iff m.map_asset_name n).0 hit)
    | inr miss ↦ rw miss (get-has n ms (ground (arith, miss)))
  ]

  get-append_other :
      (n m : Name) (ms : List (SavedMap z))
      → n ≢ m
      → get_saved_map_with_map_name n (ms ++ (empty_map m ∷ [])) ≡ get_saved_map_with_map_name n ms
  unfolding get_saved_map_with_map_name
  get-append_other n m [] ne = let miss : (m == n) ≡ false = ground arith in rw miss refl
  get-append_other n m (k ∷ ms) ne =
      ap (λ r. if k.map_asset_name == n then k else r) (get-append_other n m ms ne)

  get-with_other :
      (n m : Name) (ms : List (SavedMap z))
      → n ≢ m
      → get_saved_map_with_map_name n (with_map m ms) ≡ get_saved_map_with_map_name n ms
  get-with_other n m ms ne = elim (Bool-cases (has_map m ms)) [
    | inl there ↦ rw there refl
    | inr missing ↦ rw missing (get-append_other n m ms ne)
  ]

  -- The map of the world that is saved.
  abbrev pub world_map : World z → SavedMap z
  world_map w = record { map_asset_name = w.map_name; saved_actors = save_actors w.actors [] }

  save_maps_world :
      (w : World z) (ms : List (SavedMap z))
      → save_maps w ms ≡ replace_map (world_map w) (with_map w.map_name ms)
  unfolding save_maps
  save_maps_world w ms =
      ap
        (λ n.
          replace_map (record { map_asset_name = n; saved_actors = save_actors w.actors [] })
            (with_map w.map_name ms))
        (get-has w.map_name (with_map w.map_name ms) (has_map-with_map w.map_name ms))

  get-save_maps :
      (w : World z) (ms : List (SavedMap z))
      → get_saved_map_with_map_name w.map_name (save_maps w ms) ≡ world_map w
  get-save_maps w ms =
      ap (get_saved_map_with_map_name w.map_name) (save_maps_world w ms)
      ∙ get-replace (world_map w) (with_map w.map_name ms) (has_map-with_map w.map_name ms)

  -- Saving a world leaves what is saved of the maps of other names.
  pub get-save_maps_other :
      (w : World z) (n : Name) (ms : List (SavedMap z))
      → n ≢ w.map_name
      → get_saved_map_with_map_name n (save_maps w ms) ≡ get_saved_map_with_map_name n ms
  get-save_maps_other w n ms ne =
      ap (get_saved_map_with_map_name n) (save_maps_world w ms)
      ∙ get-replace_other n (world_map w) (with_map w.map_name ms) ne
      ∙ get-with_other n w.map_name ms ne

  -- An actor after a load, from the actors that were saved.
  abbrev pub reloaded : List (Actor z) → Actor z → Actor z
  reloaded saved a =
      if a.implements_save_interface then restored (first_saved a.name saved) a else a

  load_world_actor-saved :
      (saved as' : List (Actor z))
      → map (load_world_actor (save_actors saved [])) as' ≡ map (reloaded saved) as'
  load_world_actor-saved saved [] = refl
  load_world_actor-saved saved (a ∷ as') =
      ap (λ b. b ∷ map (load_world_actor (save_actors saved [])) as')
        (ap (λ b. if a.implements_save_interface then b else a) (load_actor-saved saved a))
      ∙ ap (◌∷◌ (reloaded saved a)) (load_world_actor-saved saved as')

module _ {z : Serializer} {F : Type 0} (s : SaveSystem (SaveGame z F)) where
  -- A saved game with the actors of a world in it, loaded into the same map.
  pub load_world_state-maps :
      (w later : World z) (gi : GameInstance) (d : s.Disk) (g : SaveGame z F)
      (ms : List (SavedMap z))
      → s.does_exist gi.load_slot_name gi.load_slot_index d ≡ true
      → s.load_from_slot gi.load_slot_name gi.load_slot_index d ≡ some g
      → g.saved_maps ≡ save_maps w ms
      → later.map_name ≡ w.map_name
      → load_world_state s gi d later
        ≡ record later { actors = map (reloaded w.actors) later.actors }
  unfolding load_world_state
  load_world_state-maps w later gi d g ms there loaded maps same =
      rw (there, loaded)
        (ap (λ m. record later { actors = map (load_world_actor m.saved_actors) later.actors })
            (ap (get_saved_map_with_map_name later.map_name) maps
              ∙ ap (λ n. get_saved_map_with_map_name n (save_maps w ms)) same
              ∙ get-save_maps w ms)
          ∙ ap (λ as'. record later { actors = as' })
              (load_world_actor-saved w.actors later.actors))

  -- Saving a world and loading it, or a later state of the same map, whatever was in the slot: every
  -- actor with the save interface gets the transform, if it wants it, and the variables of the first valid
  -- actor of its name that was saved, and its `LoadActor` is called once, which destroys a spawn volume
  -- that was reached and lights a checkpoint that was; all other actors stay as they are. The slot's
  -- game is known to be there.
  pub load_world_state-save :
      (maps : List (Name × Name)) (w later : World z) (destination : Name) (gi : GameInstance)
      (d : s.Disk) (g : SaveGame z F)
      → get_save_slot_data s gi.load_slot_name gi.load_slot_index d ≡ some g
      → later.map_name ≡ w.map_name
      → load_world_state s gi (save_world_state s maps w destination gi d) later
        ≡ record later { actors = map (reloaded w.actors) later.actors }
  unfolding save_world_state
  load_world_state-save maps w later destination gi d g found same =
      let saved = set_destination maps destination g in
      let g' = save_world_in s maps w destination g in
      rw found (
        load_world_state-maps w later gi (s.save_to_slot g' gi.load_slot_name gi.load_slot_index d)
          g' saved.saved_maps (s.exists_saved g' gi.load_slot_name gi.load_slot_index d)
          (s.load_saved g' gi.load_slot_name gi.load_slot_index d) refl same)
