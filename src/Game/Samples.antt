-- ===== src/Game/Samples.antt =====
-- A store of saved games and an engine for the tests.
use unreal5_gas.Base.{
  ℕ, ◌≡◌, ◌≢◌, refl, Bool, true, false, Option, none, some, List, [], ◌∷◌, ◌==◌, ==_iff, arith,
  if◌then◌else◌,
}
use unreal5_gas.Base.Int.{pos}
use unreal5_gas.Game.Slots.{Serializer, vacant, SaveGame, SaveSystem}

-- An actor has a variable that is saved, 1 if the actor was reached, and one that is not.
abbrev pub one_field : Serializer
one_field = record {
  Transform = ℕ;
  Fields = ℕ × ℕ;
  Bytes = ℕ;
  serialize = λ f. f.0;
  deserialize = λ b f. (b, f.1);
  reached = λ f. f.0 == 1;
  serialize_loaded = λ f g. refl;
}

module _ {G : Type 0} where
  unfoldable pub read_game : ℕ → List (ℕ × G) → Option G
  read_game n [] = none
  read_game n ((m, g) ∷ games) = if m == n then some g else read_game n games

  unfoldable pub has_game : ℕ → List (ℕ × G) → Bool
  has_game n [] = false
  has_game n ((m, g) ∷ games) = if m == n then true else has_game n games

  unfoldable pub drop_game : ℕ → List (ℕ × G) → List (ℕ × G)
  drop_game n [] = []
  drop_game n ((m, g) ∷ games) =
      let rest = drop_game n games in if m == n then rest else (m, g) ∷ rest

  pub read-drop_other :
      (n m : ℕ) (games : List (ℕ × G)) → n ≢ m → read_game m (drop_game n games) ≡ read_game m games
  unfolding read_game drop_game
  read-drop_other n m [] ne = refl
  read-drop_other n m ((k, g) ∷ games) ne =
      ground (arith, read-drop_other n m games ne, ==_iff k n, ==_iff k m)

  pub has-drop_other :
      (n m : ℕ) (games : List (ℕ × G)) → n ≢ m → has_game m (drop_game n games) ≡ has_game m games
  unfolding has_game drop_game
  has-drop_other n m [] ne = refl
  has-drop_other n m ((k, g) ∷ games) ne =
      ground (arith, has-drop_other n m games ne, ==_iff k n, ==_iff k m)

  pub has-drop : (n : ℕ) (games : List (ℕ × G)) → has_game n (drop_game n games) ≡ false
  unfolding has_game drop_game
  has-drop n [] = refl
  has-drop n ((k, g) ∷ games) = ground (arith, has-drop n games)

  pub read_first : (n : ℕ) (g : G) (games : List (ℕ × G)) → read_game n ((n, g) ∷ games) ≡ some g
  unfolding read_game
  read_first n g games = ground arith

  pub has_first : (n : ℕ) (g : G) (games : List (ℕ × G)) → has_game n ((n, g) ∷ games) ≡ true
  unfolding has_game
  has_first n g games = ground arith

  pub read_later :
      (n m : ℕ) (g : G) (games : List (ℕ × G))
      → n ≢ m
      → read_game m ((n, g) ∷ games) ≡ read_game m games
  unfolding read_game
  read_later n m g games ne = ground (arith, ==_iff n m)

  pub has_later :
      (n m : ℕ) (g : G) (games : List (ℕ × G))
      → n ≢ m
      → has_game m ((n, g) ∷ games) ≡ has_game m games
  unfolding has_game
  has_later n m g games ne = ground (arith, ==_iff n m)

-- The newest game of a name is first; the index is not used.
abbrev pub store : {G : Type 0} → G → SaveSystem G
store {G = G} fresh = record {
  Disk = List (ℕ × G);
  does_exist = λ n i d. has_game n d;
  load_from_slot = λ n i d. read_game n d;
  save_to_slot = λ g n i d. (n, g) ∷ d;
  delete_in_slot = λ n i d. drop_game n d;
  new_game = fresh;
  exists_saved = λ g n i d. has_first n g d;
  load_saved = λ g n i d. read_first n g d;
  exists_other = λ g n m i j d ne. has_later n m g d ne;
  load_other = λ g n m i j d ne. read_later n m g d ne;
  exists_other_deleted = λ n m i j d ne. has-drop_other n m d ne;
  load_other_deleted = λ n m i j d ne. read-drop_other n m d ne;
  gone_deleted = λ n i d. has-drop n d;
}

abbrev pub new_game : SaveGame one_field ℕ
new_game = record {
  player_name = 100;
  map_name = 101;
  map_asset_name = 102;
  player_start_tag = 0;
  save_slot_status = vacant;
  first_time_load_in = true;
  player_level = 1;
  xp = pos 0;
  spell_points = pos 0;
  attribute_points = pos 0;
  attributes = record { strength = 0; intelligence = 0; resilience = 0; vigor = 0 };
  saved_abilities = [];
  saved_maps = [];
}

abbrev pub disk_games : SaveSystem (SaveGame one_field ℕ)
disk_games = store new_game
