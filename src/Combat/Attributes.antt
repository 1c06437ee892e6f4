-- ===== src/Combat/Attributes.antt =====
-- AuraAttributeSet.cpp and the death of AuraCharacterBase.cpp: the vital attributes of a character, what
-- an effect on them does, and what they tell others. The engine calls `PreAttributeChange` with every
-- value that it writes. The character implements the combat interface and its components are there.
pub mod Health
pub mod Death
use unreal5_gas.Base.{
  ℕ, Bool, true, false, not, ◌&&◌, Option, none, some, List, [], ◌∷◌, ◌++◌, ◌==◌, if◌then◌else◌,
}
use unreal5_gas.Base.Fallible.{◌>>=◌}
use unreal5_gas.Ability.Context.{Engine, Context}
use unreal5_gas.Combat.Numbers.{Numbers}
use unreal5_gas.Combat.Library.{
  DamageType, lightning, arcane, physical, fire, Tags, Directions, Handle, is_blocked_hit,
  is_critical_hit, is_successful_debuff, get_debuff_damage, get_debuff_duration,
  get_debuff_frequency, get_damage_type, get_death_impulse, get_knockback_force,
}

-- The attributes that an effect changes; the others are not clamped.
pub data Attribute : Type 0 where
  health mana incoming_damage incoming_xp : Attribute

pub record AttributeSet (F : Type 0) : Type 0 where
  pub health : F
  pub mana : F
  pub max_health : F
  pub max_mana : F
  pub incoming_damage : F
  pub incoming_xp : F
  pub top_off_health : Bool
  pub top_off_mana : Bool

-- The gameplay effect that `Debuff` makes: what it is called after, its magnitudes, and whether it
-- blocks the player, as a stun does.
pub record DebuffEffect (F : Type 0) : Type 0 where
  pub damage_type : DamageType
  pub damage : F
  pub duration : F
  pub frequency : F
  pub blocks_player : Bool

-- What others are told.
pub data Event (V F : Type 0) : Type 0 where
  die : V → Event V F
  send_xp_event : ℕ → Event V F
  hit_react : Event V F
  launch_character : V → Event V F
  show_damage_number : ℕ → F → Bool → Bool → Event V F
  debuffed : DebuffEffect F → Event V F
  handle_incoming_xp : F → Event V F

-- A character, and its experience reward for its class and level.
pub record Character (e : Engine) : Type 0 where
  pub attributes : AttributeSet e.Float
  pub dead : Bool
  pub is_being_shocked : Bool
  pub xp_reward : ℕ
  pub events : List (Event e.Vector e.Float)

-- `FEffectProperties`, as far as the floating text needs them: the two characters, where they are
-- valid, and whether a player controls them.
pub record Parties : Type 0 where
  pub source : Option ℕ
  pub target : Option ℕ
  pub source_is_player : Bool
  pub target_is_player : Bool

abbrev is_stun : DamageType → Bool
is_stun lightning = true
is_stun arcane = false
is_stun physical = false
is_stun fire = false

-- `ShowFloatingText`: the character on whose controller the number is shown.
abbrev pub shows_on : Parties → Option ℕ
shows_on p = do
  source ← p.source
  target ← p.target
  if source == target
      then none
      else (if p.source_is_player
          then some source
          else (if p.target_is_player then some target else none))

module _ {e : Engine} (tags : Tags e) (n : Numbers e.Float) (d : Directions e) where
  -- A write of the engine, which `PreAttributeChange` clamps.
  abbrev pub set_health : e.Float → AttributeSet e.Float → AttributeSet e.Float
  set_health f a = record a { health = n.clamp f n.zero a.max_health }

  abbrev pub set_mana : e.Float → AttributeSet e.Float → AttributeSet e.Float
  set_mana f a = record a { mana = n.clamp f n.zero a.max_mana }

  abbrev pub tell : Event e.Vector e.Float → Character e → Character e
  tell event c = record c { events = c.events ++ (event ∷ []) }

  abbrev pub with_attributes : AttributeSet e.Float → Character e → Character e
  with_attributes a c = record c { attributes = a }

  -- `Die` and `SendXPEvent`.
  abbrev pub fatal : Handle e → Character e → Character e
  fatal h c =
      tell (send_xp_event c.xp_reward)
        (record (tell (die (get_death_impulse e h)) c) { dead = true })

  abbrev pub react : Character e → Character e
  react c = if c.is_being_shocked then c else tell hit_react c

  abbrev pub survived : Handle e → Character e → Character e
  survived h c =
      let force = get_knockback_force e h in
      if d.is_nearly_zero force then react c else tell (launch_character force) (react c)

  abbrev pub show : Option ℕ → e.Float → Handle e → Character e → Character e
  show none damage h c = c
  show (some who) damage h c =
      tell (show_damage_number who damage (is_blocked_hit e h) (is_critical_hit e h)) c

  abbrev pub debuff_of : DamageType → Handle e → DebuffEffect e.Float
  debuff_of t h = record {
    damage_type = t;
    damage = get_debuff_damage e h;
    duration = get_debuff_duration e h;
    frequency = get_debuff_frequency e h;
    blocks_player = is_stun t;
  }

  -- `Debuff`. `DamageTypesToDebuffs` has no entry for another tag, which stops the engine.
  abbrev pub debuff : Handle e → Character e → Option (Character e)
  debuff h c = do
    tag ← get_damage_type e h
    t ← tags.type_of tag
    some (tell (debuffed (debuff_of t h)) c)

  -- `HandleIncomingDamage` of damage that is not zero.
  abbrev pub hurt : Parties → Handle e → e.Float → Character e → Option (Character e)
  hurt parties h damage c =
      let new_health = n.sub c.attributes.health damage in
      let lowered = with_attributes (set_health new_health c.attributes) c in
      let told = if n.le new_health n.zero then fatal h lowered else survived h lowered in
      let shown = show (shows_on parties) damage h told in
      if is_successful_debuff e h then debuff h shown else some shown

  -- `HandleIncomingDamage`.
  unfoldable pub handle_incoming_damage : Parties → Handle e → Character e → Option (Character e)
  handle_incoming_damage parties h c =
      let damage = c.attributes.incoming_damage in
      let reset = with_attributes (record c.attributes { incoming_damage = n.zero }) c in
      if n.le damage n.zero then some reset else hurt parties h damage reset

  -- The attribute's part of `PostGameplayEffectExecute`.
  abbrev pub post_effect : Parties → Handle e → Attribute → Character e → Option (Character e)
  post_effect parties h health c =
      some (with_attributes (set_health c.attributes.health c.attributes) c)
  post_effect parties h mana c = some (with_attributes (set_mana c.attributes.mana c.attributes) c)
  post_effect parties h incoming_damage c = handle_incoming_damage parties h c
  post_effect parties h incoming_xp c = some (
      tell (handle_incoming_xp c.attributes.incoming_xp)
        (with_attributes (record c.attributes { incoming_xp = n.zero }) c))

  -- `PostGameplayEffectExecute`: nothing is done for the dead.
  unfoldable pub post_gameplay_effect_execute :
      Parties → Handle e → Attribute → Character e → Option (Character e)
  unfolding handle_incoming_damage
  post_gameplay_effect_execute parties h attribute c =
      if c.dead then some c else post_effect parties h attribute c

  -- The engine adds a magnitude to an attribute, through `PreAttributeChange`.
  abbrev pub add_to : Attribute → e.Float → AttributeSet e.Float → AttributeSet e.Float
  add_to health f a = set_health (n.add a.health f) a
  add_to mana f a = set_mana (n.add a.mana f) a
  add_to incoming_damage f a = record a { incoming_damage = n.add a.incoming_damage f }
  add_to incoming_xp f a = record a { incoming_xp = n.add a.incoming_xp f }

  -- An effect on one attribute, by its parties, its context and its magnitude.
  pub record Effect : Type 0 where
    pub parties : Parties
    pub context : Handle e
    pub attribute : Attribute
    pub magnitude : e.Float

  abbrev pub apply_effect : Effect → Character e → Option (Character e)
  apply_effect f c =
      post_gameplay_effect_execute f.parties f.context f.attribute
        (with_attributes (add_to f.attribute f.magnitude c.attributes) c)

  unfoldable pub apply_effects : List Effect → Character e → Option (Character e)
  unfolding post_gameplay_effect_execute
  apply_effects [] c = some c
  apply_effects (f ∷ fs) c = apply_effect f c >>= λ c'. apply_effects fs c'

  -- `PostAttributeChange`, after the maxima are changed: a level-up fills them once.
  unfoldable pub post_attribute_change_health : AttributeSet e.Float → AttributeSet e.Float
  post_attribute_change_health a =
      if a.top_off_health then record (set_health a.max_health a) { top_off_health = false } else a

  unfoldable pub post_attribute_change_mana : AttributeSet e.Float → AttributeSet e.Float
  post_attribute_change_mana a =
      if a.top_off_mana then record (set_mana a.max_mana a) { top_off_mana = false } else a
