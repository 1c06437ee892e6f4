-- ===== src/Ability/EffectActor.antt =====
-- AuraEffectActor.cpp: an actor that applies effects to what overlaps it and takes some of them back.
-- The handles that the engine gives to applied effects, and whether an effect is infinite, are
-- arguments. `none` is a `check` that fails.
pub mod Overlap
pub mod Examples
use unreal5_gas.Base.{
  ℕ, Bool, true, false, not, ◌&&◌, Option, none, some, List, [], ◌∷◌, ◌++◌, ◌==◌, if◌then◌else◌,
  map,
}
use unreal5_gas.Base.Fallible.{◌>>=◌}

pub data EffectApplicationPolicy : Type 0 where
  apply_on_overlap apply_on_end_overlap do_not_apply : EffectApplicationPolicy

pub data EffectRemovalPolicy : Type 0 where
  remove_on_end_overlap do_not_remove : EffectRemovalPolicy

pub record EffectActor : Type 0 where
  pub apply_effects_to_enemies : Bool
  pub instant_class : Option ℕ
  pub instant_policy : EffectApplicationPolicy
  pub duration_class : Option ℕ
  pub duration_policy : EffectApplicationPolicy
  pub infinite_class : Option ℕ
  pub infinite_policy : EffectApplicationPolicy
  pub removal_policy : EffectRemovalPolicy
  -- `ActiveEffectHandles`: handle and component.
  pub active_effect_handles : List (ℕ × ℕ)
  pub destroyed : Bool
  -- The effects applied to components, and the handles removed from them, oldest first.
  pub applied : List (ℕ × ℕ)
  pub removed : List ℕ

-- `none` is an actor without an ability system component.
pub record Target : Type 0 where
  pub is_enemy : Bool
  pub component : Option ℕ

abbrev pub is_barred : Target → EffectActor → Bool
is_barred t a = t.is_enemy && not a.apply_effects_to_enemies

abbrev pub removes : EffectRemovalPolicy → Bool
removes remove_on_end_overlap = true
removes do_not_remove = false

-- The entries of other keys, and those of other components.
pub without_key : ℕ → List (ℕ × ℕ) → List (ℕ × ℕ)
without_key h [] = []
without_key h ((k, c) ∷ m) = let rest = without_key h m in if k == h then rest else (k, c) ∷ rest

pub without_component : ℕ → List (ℕ × ℕ) → List (ℕ × ℕ)
without_component c [] = []
without_component c ((k, d) ∷ m) =
    let rest = without_component c m in if c == d then rest else (k, d) ∷ rest

pub handles_of : ℕ → List (ℕ × ℕ) → List ℕ
handles_of c [] = []
handles_of c ((k, d) ∷ m) = let rest = handles_of c m in if c == d then k ∷ rest else rest

-- `ActiveEffectHandles.Add`.
abbrev pub remember : ℕ → ℕ → EffectActor → EffectActor
remember h c a = record a {
  active_effect_handles = without_key h a.active_effect_handles ++ ((h, c) ∷ []);
}

abbrev apply_class : (ℕ → Bool) → ℕ → ℕ → Option ℕ → EffectActor → Option EffectActor
apply_class is_infinite h c none a = none
apply_class is_infinite h c (some class) a =
    let told = record a { applied = a.applied ++ ((class, c) ∷ []) } in
    let kept = if is_infinite class && removes a.removal_policy then remember h c told else told in
    some (if not (is_infinite class) then record kept { destroyed = true } else kept)

abbrev apply_to_component : (ℕ → Bool) → ℕ → Option ℕ → Option ℕ → EffectActor → Option EffectActor
apply_to_component is_infinite h none class a = some a
apply_to_component is_infinite h (some c) class a = apply_class is_infinite h c class a

unfoldable pub apply_effect_to_target :
    (ℕ → Bool) → ℕ → Target → Option ℕ → EffectActor → Option EffectActor
unfolding without_key
apply_effect_to_target is_infinite h t class a =
    if is_barred t a then some a else apply_to_component is_infinite h t.component class a

abbrev is_on_overlap : EffectApplicationPolicy → Bool
is_on_overlap apply_on_overlap = true
is_on_overlap apply_on_end_overlap = false
is_on_overlap do_not_apply = false

abbrev is_on_end_overlap : EffectApplicationPolicy → Bool
is_on_end_overlap apply_on_overlap = false
is_on_end_overlap apply_on_end_overlap = true
is_on_end_overlap do_not_apply = false

abbrev pub apply_if : Bool → (ℕ → Bool) → ℕ → Target → Option ℕ → EffectActor → Option EffectActor
apply_if b is_infinite h t class a =
    if b then apply_effect_to_target is_infinite h t class a else some a

-- `handles` are those that the engine gives to the instant, the duration and the infinite effect.
unfoldable pub on_overlap : (ℕ → Bool) → ℕ × (ℕ × ℕ) → Target → EffectActor → Option EffectActor
on_overlap is_infinite handles t a = if is_barred t a then some a else do
  b ← apply_if (is_on_overlap a.instant_policy) is_infinite handles.0 t a.instant_class a
  c ← apply_if (is_on_overlap b.duration_policy) is_infinite handles.1.0 t b.duration_class b
  apply_if (is_on_overlap c.infinite_policy) is_infinite handles.1.1 t c.infinite_class c

abbrev pub remove_from : Option ℕ → EffectActor → EffectActor
remove_from none a = a
remove_from (some c) a = record a {
  active_effect_handles = without_component c a.active_effect_handles;
  removed = a.removed ++ handles_of c a.active_effect_handles;
}

unfoldable pub on_end_overlap : (ℕ → Bool) → ℕ × (ℕ × ℕ) → Target → EffectActor → Option EffectActor
unfolding without_component handles_of
on_end_overlap is_infinite handles t a = if is_barred t a then some a else do
  b ← apply_if (is_on_end_overlap a.instant_policy) is_infinite handles.0 t a.instant_class a
  c ← apply_if (is_on_end_overlap b.duration_policy) is_infinite handles.1.0 t b.duration_class b
  d ← apply_if (is_on_end_overlap c.infinite_policy) is_infinite handles.1.1 t c.infinite_class c
  some (if removes d.removal_policy then remove_from t.component d else d)
