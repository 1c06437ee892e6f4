-- ===== src/Game/World/Restored.antt =====
-- AuraGameModeBase.cpp: the actors that are saved, and what loading them does to an actor.
use unreal5_gas.Base.{
  ◌≡◌, refl, sym, ap, ◌∙◌, inl, inr, suc, Bool, true, false, not, ◌&&◌, ◌||◌, Option, none, some,
  List, [], ◌∷◌, ◌==◌, if◌then◌else◌, arith, Bool-cases, ==_iff,
}
use unreal5_gas.Base.Unique.{
  or_else, or_else-none, or_else_assoc, has_key, find_key, Unique, find-add_unique,
  add_unique-Unique,
}
use unreal5_gas.Game.Slots.{Name, Serializer, SavedActor}
use unreal5_gas.Game.World.{
  ActorClass, checkpoint, map_entrance, enemy_spawn_volume, other_class, load_destroys, load_lights,
  Actor, saved_actor, actor_key, is_saved, save_actor, save_actors, load_from, load_matching,
  load_actor,
}

abbrev pub is_class : ActorClass → ActorClass → Bool
is_class checkpoint checkpoint = true
is_class map_entrance map_entrance = true
is_class enemy_spawn_volume enemy_spawn_volume = true
is_class other_class other_class = true
is_class _ _ = false

abbrev by_code : ActorClass → Bool → Bool × Bool
by_code k reached = (load_destroys k reached, load_lights k reached)

abbrev by_name : ActorClass → Bool → Bool × Bool
by_name k reached = (is_class enemy_spawn_volume k && reached, is_class checkpoint k && reached)

load_class : (k : ActorClass) (reached : Bool) → by_code k reached ≡ by_name k reached
load_class checkpoint reached = refl
load_class map_entrance reached = refl
load_class enemy_spawn_volume reached = refl
load_class other_class reached = refl

module _ {z : Serializer} where
  -- The first actor of a name that is saved.
  unfoldable pub first_saved : Name → List (Actor z) → Option (SavedActor z)
  first_saved n [] = none
  first_saved n (a ∷ as') =
      if is_saved a && a.name == n then some (saved_actor a) else first_saved n as'

  -- A saved actor's transform, if it is wanted, and variables; a spawn volume that they call reached is
  -- destroyed, and a checkpoint is lit.
  abbrev pub restored : Option (SavedActor z) → Actor z → Actor z
  restored none a = a
  restored (some s) a =
      let fields = z.deserialize s.bytes a.fields in
      record a {
        transform = if a.should_load_transform then s.transform else a.transform;
        fields = fields;
        is_valid =
            a.is_valid && not (is_class enemy_spawn_volume a.actor_class && z.reached fields);
        is_lit = a.is_lit || (is_class checkpoint a.actor_class && z.reached fields);
        loads = suc a.loads;
      }

  -- What `load_from` makes of an actor.
  load_from-restored : (s : SavedActor z) (a : Actor z) → load_from s a ≡ restored (some s) a
  load_from-restored s a =
      ap
        (λ (bs : Bool × Bool). record a {
          transform = if a.should_load_transform then s.transform else a.transform;
          fields = z.deserialize s.bytes a.fields;
          is_valid = a.is_valid && not bs.0;
          is_lit = a.is_lit || bs.1;
          loads = suc a.loads;
        })
        (load_class a.actor_class (z.reached (z.deserialize s.bytes a.fields)))

  load_actor_absent :
      (ss : List (SavedActor z)) (a : Actor z)
      → has_key actor_key a.name ss ≡ false
      → load_actor ss a ≡ a
  unfolding load_actor has_key
  load_actor_absent [] a e = refl
  load_actor_absent (s ∷ ss) a e = elim (Bool-cases (s.actor_name == a.name)) [
    | inl hit ↦ absurd (ground (arith, hit))
    | inr miss ↦ rw (load_matching, miss) (load_actor_absent ss a (ground (arith, miss)))
  ]

  load_actor-find :
      (ss : List (SavedActor z)) (a : Actor z)
      → Unique actor_key ss
      → load_actor ss a ≡ restored (find_key actor_key a.name ss) a
  unfolding load_actor find_key
  load_actor-find [] a u = refl
  load_actor-find (s ∷ ss) a (fresh, u) = elim (Bool-cases (s.actor_name == a.name)) [
    | inl hit ↦
        rw (load_matching, hit)
          (load_actor_absent ss (load_from s a)
              (ap (λ n. has_key actor_key n ss) (sym ((==_iff s.actor_name a.name).0 hit)) ∙ fresh)
            ∙ load_from-restored s a)
    | inr miss ↦ rw (load_matching, miss) (load_actor-find ss a u)
  ]

  save_actor-Unique :
      (a : Actor z) (ss : List (SavedActor z))
      → Unique actor_key ss
      → Unique actor_key (save_actor a ss)
  save_actor-Unique a ss u = elim (Bool-cases (is_saved a)) [
    | inr out ↦ rw out u
    | inl saved ↦ rw saved (add_unique-Unique actor_key (saved_actor a) ss u)
  ]

  save_actors-Unique :
      (as' : List (Actor z)) (ss : List (SavedActor z))
      → Unique actor_key ss
      → Unique actor_key (save_actors as' ss)
  unfolding save_actors
  save_actors-Unique [] ss u = u
  save_actors-Unique (a ∷ as') ss u =
      save_actors-Unique as' (save_actor a ss) (save_actor-Unique a ss u)

  abbrev own : Name → Actor z → Option (SavedActor z)
  own n a = if is_saved a && a.name == n then some (saved_actor a) else none

  find-save :
      (n : Name) (a : Actor z) (ss : List (SavedActor z))
      → find_key actor_key n (save_actor a ss) ≡ or_else (find_key actor_key n ss) (own n a)
  find-save n a ss = elim (Bool-cases (is_saved a)) [
    | inr out ↦ rw out (sym (or_else-none (find_key actor_key n ss)))
    | inl saved ↦ rw saved (find-add_unique actor_key n (saved_actor a) ss)
  ]

  first_saved-cons :
      (n : Name) (a : Actor z) (as' : List (Actor z))
      → first_saved n (a ∷ as') ≡ or_else (own n a) (first_saved n as')
  unfolding first_saved
  first_saved-cons n a as' = elim (Bool-cases (is_saved a && a.name == n)) [
    | inl hit ↦ rw hit refl
    | inr miss ↦ rw miss refl
  ]

  find-save_actors :
      (n : Name) (as' : List (Actor z)) (ss : List (SavedActor z))
      → find_key actor_key n (save_actors as' ss)
        ≡ or_else (find_key actor_key n ss) (first_saved n as')
  unfolding save_actors first_saved
  find-save_actors n [] ss = sym (or_else-none (find_key actor_key n ss))
  find-save_actors n (a ∷ as') ss =
      find-save_actors n as' (save_actor a ss)
      ∙ ap (λ r. or_else r (first_saved n as')) (find-save n a ss)
      ∙ or_else_assoc (find_key actor_key n ss) (own n a) (first_saved n as')
      ∙ ap (or_else (find_key actor_key n ss)) (sym (first_saved-cons n a as'))

  -- What loading the saved actors of a world does to an actor: the first saved one of its name is
  -- loaded into it, once.
  pub load_actor-saved :
      (as' : List (Actor z)) (a : Actor z)
      → load_actor (save_actors as' []) a ≡ restored (first_saved a.name as') a
  unfolding find_key
  load_actor-saved as' a =
      load_actor-find (save_actors as' []) a (save_actors-Unique as' [] tt)
      ∙ ap (λ r. restored r a) (find-save_actors a.name as' [])
