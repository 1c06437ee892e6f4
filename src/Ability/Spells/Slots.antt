-- ===== src/Ability/Spells/Slots.antt =====
-- AuraAbilitySystemComponent.cpp: which abilities hold a slot, after one of them is changed.
use unreal5_gas.Base.{
  ℕ, ◌+◌, ◌≤◌, ◌≡◌, refl, ap, ◌∙◌, subst, inl, inr, Bool, true, false, none, some, List, [], ◌∷◌,
  ◌==◌, if◌then◌else◌, arith, Bool-cases, All,
}
use unreal5_gas.Ability.Spells.{
  Spec, input, equipped, has_tag, get_status_from_spec, ability_has_slot, ability_has_any_slot,
  is_ability, first_spec, update_spec, clear_slot, assign_slot_to_ability, equip_spec, set_status,
}
use unreal5_gas.Ability.Spells.Tags.{
  HasNoInput, HasOneInput, remove_input-HasNoInput, add_input-HasOneInput, set_status-HasNoInput,
}

abbrev pub held : ℕ → Spec → ℕ
held slot s = if ability_has_slot slot s then 1 else 0

unfoldable pub holders : ℕ → List Spec → ℕ
holders slot [] = 0
holders slot (s ∷ ss) = held slot s + holders slot ss

abbrev pub OneSlot : Spec → Type 0
OneSlot s = HasOneInput s.dynamic_ability_tags

-- No slot has two abilities, and no ability has two slots.
pub record IsOrderly (specs : List Spec) : Type 0 where
  pub one_holder : (slot : ℕ) → holders slot specs ≤ 1
  pub one_slot : All OneSlot specs

pub holders-update :
    (slot : ℕ) (p : Spec → Bool) (f : Spec → Spec) (specs : List Spec) (a : Spec)
    → first_spec p specs ≡ some a
    → holders slot (update_spec p f specs) + held slot a ≡ holders slot specs + held slot (f a)
unfolding holders first_spec update_spec
holders-update slot p f [] a e = cc
holders-update slot p f (s ∷ ss) a e = elim (Bool-cases (p s)) [
  | inl hit ↦
      let same : s ≡ a = ground (arith, hit) in
      subst
        (λ x.
          holders slot (update_spec p f (s ∷ ss)) + held slot x
          ≡ holders slot (s ∷ ss) + held slot (f x))
        same (rw hit (omega arith))
  | inr miss ↦
      let ih = holders-update slot p f ss a (ground (arith, miss)) in rw miss (omega (arith, ih))
]

pub All-update {ℓ} :
    (P : Spec → Type ℓ) (p : Spec → Bool) (f : Spec → Spec) (specs : List Spec)
    → All P specs
    → ((s : Spec) → P s → p s ≡ true → P (f s))
    → All P (update_spec p f specs)
unfolding update_spec
All-update P p f [] all kept = tt
All-update P p f (s ∷ ss) (h, hs) kept = elim (Bool-cases (p s)) [
  | inl hit ↦ rw hit (kept s h hit, hs)
  | inr miss ↦ rw miss (h, All-update P p f ss hs kept)
]

pub first_spec-holds {ℓ} :
    (P : Spec → Type ℓ) (p : Spec → Bool) (specs : List Spec) (a : Spec)
    → All P specs
    → first_spec p specs ≡ some a
    → P a × (p a ≡ true)
unfolding first_spec
first_spec-holds P p [] a all e = cc
first_spec-holds P p (s ∷ ss) a (h, hs) e = elim (Bool-cases (p s)) [
  | inl hit ↦ subst (λ x. P x × (p x ≡ true)) (ground (arith, hit)) (h, hit)
  | inr miss ↦ first_spec-holds P p ss a hs (ground (arith, miss))
]

-- A slot that no loop finds has no ability.
pub holders-free :
    (slot : ℕ) (specs : List Spec)
    → first_spec (ability_has_slot slot) specs ≡ none
    → holders slot specs ≡ 0
unfolding holders first_spec
holders-free slot [] e = refl
holders-free slot (s ∷ ss) e = elim (Bool-cases (ability_has_slot slot s)) [
  | inl hit ↦ absurd (ground (arith, hit))
  | inr miss ↦ let ih = holders-free slot ss (ground (arith, miss)) in rw miss (omega (arith, ih))
]

-- A change of an ability of another tag does not change which one is found by its tag.
pub first_spec-update :
    (tag : ℕ) (p : Spec → Bool) (f : Spec → Spec) (specs : List Spec) (a : Spec)
    → ((s : Spec) → (f s).ability_tag ≡ s.ability_tag)
    → first_spec p specs ≡ some a
    → is_ability tag a ≡ false
    → first_spec (is_ability tag) (update_spec p f specs) ≡ first_spec (is_ability tag) specs
unfolding first_spec update_spec
first_spec-update tag p f [] a keeps e other = refl
first_spec-update tag p f (s ∷ ss) a keeps e other = elim (Bool-cases (p s)) [
  | inl hit ↦
      let same : s ≡ a = ground (arith, hit) in
      let miss : (s.ability_tag == tag) ≡ false = ap (is_ability tag) same ∙ other in
      rw hit (rw (keeps s) (rw miss refl))
  | inr miss ↦ rw miss (
      ap (λ r. if is_ability tag s then some s else r)
        (first_spec-update tag p f ss a keeps (ground (arith, miss)) other))
]

-- In a free slot the loop finds the ability that is put there.
pub first_spec-taken :
    (slot : ℕ) (p : Spec → Bool) (f : Spec → Spec) (specs : List Spec) (a : Spec)
    → first_spec p specs ≡ some a
    → holders slot specs ≡ 0
    → ability_has_slot slot (f a) ≡ true
    → first_spec (ability_has_slot slot) (update_spec p f specs) ≡ some (f a)
unfolding first_spec update_spec holders
first_spec-taken slot p f [] a e free takes = cc
first_spec-taken slot p f (s ∷ ss) a e free takes = elim (Bool-cases (p s)) [
  | inl hit ↦
      let same : s ≡ a = ground (arith, hit) in
      rw hit (rw (ap (λ x. ability_has_slot slot (f x)) same ∙ takes) (ap (λ x. some (f x)) same))
  | inr miss ↦
      let not_it : ability_has_slot slot s ≡ false = ground (arith, free) in
      rw miss (
        rw not_it
          (first_spec-taken slot p f ss a (ground (arith, miss)) (ground (arith, free)) takes))
]

-- An ability whose slot is cleared has none.
pub clear_slot-HasNoInput : (s : Spec) → OneSlot s → HasNoInput (clear_slot s).dynamic_ability_tags
unfolding clear_slot
clear_slot-HasNoInput s one = remove_input-HasNoInput s.dynamic_ability_tags one

no_input-HasOneInput : (s : Spec) → HasNoInput s.dynamic_ability_tags → OneSlot s
no_input-HasOneInput s absent i h = absurd (ground (arith, absent i))

pub clear_slot-OneSlot : (s : Spec) → OneSlot s → OneSlot (clear_slot s)
clear_slot-OneSlot s one = no_input-HasOneInput (clear_slot s) (clear_slot-HasNoInput s one)

abbrev pub HoldsJust : ℕ → Spec → Type 0
HoldsJust slot s = OneSlot s × ((i : ℕ) → ability_has_slot i s ≡ (i == slot))

assign-HoldsJust :
    (slot : ℕ) (s : Spec) → OneSlot s → HoldsJust slot (assign_slot_to_ability slot s)
unfolding assign_slot_to_ability ability_has_slot
assign-HoldsJust slot s one =
    add_input-HasOneInput (clear_slot s).dynamic_ability_tags slot (clear_slot-HasNoInput s one)

-- An ability that is equipped in a slot has that slot and no other.
pub equip_spec-HoldsJust : (slot : ℕ) (s : Spec) → OneSlot s → HoldsJust slot (equip_spec slot s)
unfolding equip_spec
equip_spec-HoldsJust slot s one = elim (Bool-cases (ability_has_any_slot s)) [
  | inl placed ↦ rw placed (assign-HoldsJust slot s one)
  | inr unplaced ↦
      let old = get_status_from_spec s.dynamic_ability_tags in
      let absent : HasNoInput s.dynamic_ability_tags = λ i.
        elim (Bool-cases (has_tag (input i) s.dynamic_ability_tags)) [
          | inl there ↦ absurd (ground (arith, one i there))
          | inr missing ↦ missing
        ] in
      rw unplaced (
        assign-HoldsJust slot (set_status old equipped s) (
          no_input-HasOneInput (set_status old equipped s)
            (set_status-HasNoInput s.dynamic_ability_tags old equipped absent)))
]

pub clear_slot_absent : (s : Spec) → OneSlot s → (i : ℕ) → ability_has_slot i (clear_slot s) ≡ false
unfolding ability_has_slot
clear_slot_absent s one i = clear_slot-HasNoInput s one i

pub clear_slot-ability_tag : (s : Spec) → (clear_slot s).ability_tag ≡ s.ability_tag
unfolding clear_slot
clear_slot-ability_tag s = refl

pub equip_spec-ability_tag : (slot : ℕ) (s : Spec) → (equip_spec slot s).ability_tag ≡ s.ability_tag
unfolding equip_spec clear_slot
equip_spec-ability_tag slot s = elim (Bool-cases (ability_has_any_slot s)) [
  | inl placed ↦ rw placed refl
  | inr unplaced ↦ rw unplaced refl
]
