-- ===== src/Game/Progress/Abilities.antt =====
-- AuraAbilitySystemComponent.cpp and AuraCharacter.cpp: the abilities of a save, given again.
use unreal5_gas.Base.{
  ℕ, ◌≡◌, ◌⊎◌, refl, sym, ap, ◌∙◌, inl, inr, Bool, true, false, Option, none, some, List, [], ◌∷◌,
  ◌++◌, ◌==◌, if◌then◌else◌, Bool-cases, ==_iff, All,
}
use unreal5_gas.Base.Unique.{
  or_else, or_else-none, or_else_assoc, has_key, find_key, keyed, Unique, find-add_unique,
  add_unique, add_unique-Unique,
}
use unreal5_gas.Ability.Spells.{
  Tag, Spec, Component, is_ability, first_spec, equipped, status, tag_eq,
}
use unreal5_gas.Game.Slots.{AbilityType, offensive, passive, other_type, SavedAbility}
use unreal5_gas.Game.Progress.{
  Info, find_ability_info_for_tag, saved_ability, ability_key, save_abilities, loaded_spec,
  give_typed, give_class, give_saved,
}

-- Every entry's class is the class of its ability.
abbrev pub IsConsistent : List Info → Type 0
IsConsistent infos = All (λ i. i.ability ≡ some i.ability_tag) infos

-- Whether an ability of a type, a status and a tag has a spec after a save is loaded: an offensive one,
-- a passive one, unless it is activated and its spec removed, and no other.
abbrev pub is_kept : (ℕ → Bool) → AbilityType → Tag → ℕ → Bool
is_kept keeps offensive state tag = true
is_kept keeps passive state tag = if tag_eq state (status equipped) then keeps tag else true
is_kept keeps other_type state tag = false

-- An ability that is given again has its class, and one without a class is not given.
abbrev pub IsGivable : Option ℕ → AbilityType → ℕ → Type 0
IsGivable class type tag = (class ≡ some tag) ⊎ (type ≡ other_type)

info_for-IsGivable :
    (tag : ℕ) (infos : List Info)
    → IsConsistent infos
    → IsGivable
        (find_ability_info_for_tag tag infos).ability
        (find_ability_info_for_tag tag infos).ability_type
        tag
unfolding find_ability_info_for_tag
info_for-IsGivable tag [] all = inr refl
info_for-IsGivable tag (i ∷ infos) (h, hs) = elim (Bool-cases (i.ability_tag == tag)) [
  | inl hit ↦ rw hit (inl (h ∙ ap some ((==_iff i.ability_tag tag).0 hit)))
  | inr miss ↦ rw miss (info_for-IsGivable tag infos hs)
]

abbrev pub IsSavedGivable : SavedAbility → Type 0
IsSavedGivable a = IsGivable a.gameplay_ability a.ability_type a.ability_tag

All-append {ℓ κ} :
    {A : Type ℓ} (P : A → Type κ) (xs : List A) (a : A) → All P xs → P a → All P (xs ++ (a ∷ []))
All-append P [] a all h = (h, tt)
All-append P (x ∷ xs) a (p, ps) h = (p, All-append P xs a ps h)

abbrev pub given_map {ℓ κ} : {A : Type ℓ} {B : Type κ} → (A → B) → Option A → Option B
given_map f none = none
given_map f (some a) = some (f a)

module _ (infos : List Info) (c : Component) where
  pub save_abilities-IsSavedGivable :
      (specs : List Spec) (saved : List SavedAbility)
      → IsConsistent infos
      → All IsSavedGivable saved
      → All IsSavedGivable (save_abilities infos c specs saved)
  unfolding save_abilities
  save_abilities-IsSavedGivable [] saved ok all = all
  save_abilities-IsSavedGivable (s ∷ ss) saved ok all =
      save_abilities-IsSavedGivable ss (add_unique ability_key (saved_ability infos c s) saved) ok
        (elim (Bool-cases (has_key ability_key s.ability_tag saved)) [
          | inl there ↦ rw there all
          | inr fresh ↦ rw fresh (
              All-append IsSavedGivable saved (saved_ability infos c s) all
                (info_for-IsGivable s.ability_tag infos ok))
        ])

  pub save_abilities-Unique :
      (specs : List Spec) (saved : List SavedAbility)
      → Unique ability_key saved
      → Unique ability_key (save_abilities infos c specs saved)
  unfolding save_abilities
  save_abilities-Unique [] saved u = u
  save_abilities-Unique (s ∷ ss) saved u =
      save_abilities-Unique ss (add_unique ability_key (saved_ability infos c s) saved)
        (add_unique-Unique ability_key (saved_ability infos c s) saved u)

  first_spec-cons :
      (tag : ℕ) (s : Spec) (ss : List Spec)
      → given_map (saved_ability infos c) (first_spec (is_ability tag) (s ∷ ss))
        ≡ or_else
            (keyed ability_key tag (saved_ability infos c s))
            (given_map (saved_ability infos c) (first_spec (is_ability tag) ss))
  unfolding first_spec
  first_spec-cons tag s ss = elim (Bool-cases (s.ability_tag == tag)) [
    | inl hit ↦ rw hit refl
    | inr miss ↦ rw miss refl
  ]

  pub find-save_abilities :
      (tag : ℕ) (specs : List Spec) (saved : List SavedAbility)
      → find_key ability_key tag (save_abilities infos c specs saved)
        ≡ or_else
            (find_key ability_key tag saved)
            (given_map (saved_ability infos c) (first_spec (is_ability tag) specs))
  unfolding save_abilities first_spec
  find-save_abilities tag [] saved = sym (or_else-none (find_key ability_key tag saved))
  find-save_abilities tag (s ∷ ss) saved =
      let rest = given_map (saved_ability infos c) (first_spec (is_ability tag) ss) in
      find-save_abilities tag ss (add_unique ability_key (saved_ability infos c s) saved)
      ∙ ap (λ r. or_else r rest) (find-add_unique ability_key tag (saved_ability infos c s) saved)
      ∙ or_else_assoc (find_key ability_key tag saved)
          (keyed ability_key tag (saved_ability infos c s)) rest
      ∙ ap (or_else (find_key ability_key tag saved)) (sym (first_spec-cons tag s ss))

module _ (keeps : ℕ → Bool) where
  abbrev pub is_loaded : SavedAbility → Bool
  is_loaded a = is_kept keeps a.ability_type a.ability_status a.ability_tag

  -- The spec that a saved ability becomes, where it is given and kept.
  abbrev pub respec : SavedAbility → Option Spec
  respec a = if is_loaded a then some (loaded_spec a.ability_tag a) else none

  abbrev pub respec_found : Option SavedAbility → Option Spec
  respec_found none = none
  respec_found (some a) = respec a

  give_typed-specs :
      (type : AbilityType) (a : SavedAbility) (s : Spec) (c : Component)
      → (give_typed keeps type a s c).activatable_abilities ≡ (
          if is_kept keeps type a.ability_status s.ability_tag
          then c.activatable_abilities ++ (s ∷ [])
          else c.activatable_abilities)
  give_typed-specs offensive a s c = refl
  give_typed-specs passive a s c = elim (Bool-cases (tag_eq a.ability_status (status equipped))) [
    | inl on ↦ elim (Bool-cases (keeps s.ability_tag)) [
      | inl kept ↦ rw (on, kept) refl
      | inr removed ↦ rw (on, removed) refl
    ]
    | inr off ↦ rw off refl
  ]
  give_typed-specs other_type a s c = refl

  give_class-other :
      (class : Option ℕ) (a : SavedAbility) (c : Component)
      → a.ability_type ≡ other_type
      → give_class keeps class a c ≡ c
  give_class-other none a c e = refl
  give_class-other (some n) a c e = ap (λ t. give_typed keeps t a (loaded_spec n a) c) e

  pub give_saved-specs :
      (a : SavedAbility) (c : Component)
      → IsSavedGivable a
      → (give_saved keeps a c).activatable_abilities ≡ (
          if is_loaded a
          then c.activatable_abilities ++ (loaded_spec a.ability_tag a ∷ [])
          else c.activatable_abilities)
  give_saved-specs a c (inl class) =
      ap (λ k. (give_class keeps k a c).activatable_abilities) class
      ∙ give_typed-specs a.ability_type a (loaded_spec a.ability_tag a) c
  give_saved-specs a c (inr other) =
      ap (λ d. d.activatable_abilities) (give_class-other a.gameplay_ability a c other)
      ∙ sym (
          ap
            (λ t.
              if is_kept keeps t a.ability_status a.ability_tag
              then c.activatable_abilities ++ (loaded_spec a.ability_tag a ∷ [])
              else c.activatable_abilities)
            other)
