-- ===== src/Game/Progress/Given.antt =====
-- AuraAbilitySystemComponent.cpp: which ability a tag finds after the abilities of a save are given.
use unreal5_gas.Base.{
  ℕ, Bool, ◌≡◌, refl, sym, ap, ◌∙◌, inl, inr, Option, none, some, List, [], ◌∷◌, ◌++◌, ◌==◌,
  if◌then◌else◌, Bool-cases, ==_iff, All,
}
use unreal5_gas.Base.Unique.{
  or_else, or_else-none, or_else_assoc, has_key, find_key, keyed, Unique, find-has_not,
}
use unreal5_gas.Ability.Spells.{Spec, Component, is_ability, first_spec}
use unreal5_gas.Game.Slots.{SavedAbility}
use unreal5_gas.Game.Progress.{
  Info, saved_ability, ability_key, save_abilities, loaded_spec, give_saved,
  add_character_abilities_from_save_data,
}
use unreal5_gas.Game.Progress.Abilities.{
  IsConsistent, is_loaded, IsSavedGivable, given_map, respec, respec_found, give_saved-specs,
  save_abilities-IsSavedGivable, save_abilities-Unique, find-save_abilities,
}

abbrev pub found : ℕ → Component → Option Spec
found tag c = first_spec (is_ability tag) c.activatable_abilities

first_spec-append :
    (tag : ℕ) (ss : List Spec) (s : Spec)
    → first_spec (is_ability tag) (ss ++ (s ∷ []))
      ≡ or_else (first_spec (is_ability tag) ss) (if s.ability_tag == tag then some s else none)
unfolding first_spec
first_spec-append tag [] s = refl
first_spec-append tag (r ∷ ss) s = elim (Bool-cases (r.ability_tag == tag)) [
  | inl hit ↦ rw hit refl
  | inr miss ↦ rw miss (first_spec-append tag ss s)
]

module _ (keeps : ℕ → Bool) where
  abbrev own : ℕ → SavedAbility → Option Spec
  own tag a = respec_found keeps (keyed ability_key tag a)

  found-give_saved :
      (tag : ℕ) (a : SavedAbility) (c : Component)
      → IsSavedGivable a
      → found tag (give_saved keeps a c) ≡ or_else (found tag c) (own tag a)
  found-give_saved tag a c ok =
      ap (first_spec (is_ability tag)) (give_saved-specs keeps a c ok)
      ∙ elim (Bool-cases (is_loaded keeps a)) [
        | inr off ↦ elim (Bool-cases (a.ability_tag == tag)) [
          | inl hit ↦ rw (off, hit, off) (sym (or_else-none (found tag c)))
          | inr miss ↦ rw (off, miss) (sym (or_else-none (found tag c)))
        ]
        | inl on ↦
            let s = loaded_spec a.ability_tag a in
            let appended : first_spec (is_ability tag) (c.activatable_abilities ++ (s ∷ []))
                ≡ or_else (found tag c) (if a.ability_tag == tag then some s else none) =
              first_spec-append tag c.activatable_abilities s in
            elim (Bool-cases (a.ability_tag == tag)) [
              | inl hit ↦ rw (on, hit, on) (rw hit at appended)
              | inr miss ↦ rw (on, miss) (rw miss at appended)
            ]
      ]

  own-cons :
      (tag : ℕ) (a : SavedAbility) (saved : List SavedAbility)
      → Unique ability_key (a ∷ saved)
      → or_else (own tag a) (respec_found keeps (find_key ability_key tag saved))
        ≡ respec_found keeps (find_key ability_key tag (a ∷ saved))
  unfolding find_key
  own-cons tag a saved (fresh, u) = elim (Bool-cases (a.ability_tag == tag)) [
    | inr miss ↦ rw miss refl
    | inl hit ↦
        let gone : find_key ability_key tag saved ≡ none = find-has_not ability_key tag saved (
          ap (λ n. has_key ability_key n saved) (sym ((==_iff a.ability_tag tag).0 hit)) ∙ fresh) in
        rw (hit, gone) (or_else-none (respec keeps a))
  ]

  found-load :
      (tag : ℕ) (saved : List SavedAbility) (c : Component)
      → All IsSavedGivable saved
      → Unique ability_key saved
      → found tag (add_character_abilities_from_save_data keeps saved c)
        ≡ or_else (found tag c) (respec_found keeps (find_key ability_key tag saved))
  unfolding add_character_abilities_from_save_data find_key
  found-load tag [] c all u = sym (or_else-none (found tag c))
  found-load tag (a ∷ saved) c (ok, oks) (fresh, u) =
      let rest = respec_found keeps (find_key ability_key tag saved) in
      found-load tag saved (give_saved keeps a c) oks u
      ∙ ap (λ r. or_else r rest) (found-give_saved tag a c ok)
      ∙ or_else_assoc (found tag c) (own tag a) rest
      ∙ ap (or_else (found tag c)) (own-cons tag a saved (fresh, u))

  -- Abilities that are saved and given to a component without abilities: a tag finds what it found
  -- before, as a save keeps it.
  pub found-saved :
      (tag : ℕ) (infos : List Info) (c fresh : Component)
      → IsConsistent infos
      → fresh.activatable_abilities ≡ []
      → found tag (
          add_character_abilities_from_save_data keeps
            (save_abilities infos c c.activatable_abilities [])
            fresh)
        ≡ respec_found keeps (given_map (saved_ability infos c) (found tag c))
  unfolding first_spec find_key
  found-saved tag infos c fresh ok empty =
      let saved = save_abilities infos c c.activatable_abilities [] in
      found-load tag saved fresh
        (save_abilities-IsSavedGivable infos c c.activatable_abilities [] ok tt)
        (save_abilities-Unique infos c c.activatable_abilities [] tt)
      ∙ ap
          (λ ss.
            or_else (first_spec (is_ability tag) ss)
              (respec_found keeps (find_key ability_key tag saved)))
          empty
      ∙ ap (respec_found keeps) (find-save_abilities infos c tag c.activatable_abilities [])
