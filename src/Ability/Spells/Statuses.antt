-- ===== src/Ability/Spells/Statuses.antt =====
-- AuraAbilitySystemComponent.cpp: the abilities that a level makes eligible. The number 0 is the empty
-- tag of an ability.
use unreal5_gas.Base.{
  ℕ, ◌≡◌, refl, sym, ap, subst, ◌∙◌, inl, inr, Bool, true, not, ◌&&◌, Option, none, some, List, [],
  ◌∷◌, ◌++◌, ◌==◌, leb, if◌then◌else◌, arith, Bool-cases, All,
}
use unreal5_gas.Ability.Spells.{
  eligible, status, Spec, AbilityInfo, Component, client_update_ability_status, tell, first_spec,
  get_spec_from_ability_tag,
}

-- `GiveAbility` of a new spec.
abbrev give_ability : Spec → Component → Component
give_ability s c = record c { activatable_abilities = c.activatable_abilities ++ (s ∷ []) }

abbrev eligible_spec : ℕ → Spec
eligible_spec tag = record {
  ability_tag = tag;
  level = 1;
  dynamic_ability_tags = status eligible ∷ [];
}

-- An ability without a class is refused by the engine.
abbrev give_class : Option ℕ → Component → Component
give_class none c = c
give_class (some class) c = give_ability (eligible_spec class) c

-- The body of the loop, for an ability whose spec was looked up.
abbrev make_eligible : AbilityInfo → Option Spec → Component → Component
make_eligible i (some s) c = c
make_eligible i none c =
    tell (client_update_ability_status i.ability_tag (status eligible) 1) (give_class i.ability c)

abbrev is_due : ℕ → AbilityInfo → Bool
is_due level i = not (i.ability_tag == 0) && leb i.level_requirement level

abbrev update_one : ℕ → AbilityInfo → Component → Component
update_one level i c =
    if is_due level i then make_eligible i (get_spec_from_ability_tag i.ability_tag c) c else c

-- The loop of `UpdateAbilityStatuses`.
update_from : ℕ → List AbilityInfo → Component → Component
update_from level [] c = c
update_from level (i ∷ infos) c = update_from level infos (update_one level i c)

unfoldable pub update_ability_statuses : ℕ → Component → Component
unfolding update_from
update_ability_statuses level c = update_from level c.ability_information c

-- The ability has a spec.
abbrev pub IsGiven : ℕ → Component → Type 0
IsGiven tag c = (s : Spec) × (get_spec_from_ability_tag tag c ≡ some s)

first_spec-append :
    (p : Spec → Bool) (specs more : List Spec) (a : Spec)
    → first_spec p specs ≡ some a
    → first_spec p (specs ++ more) ≡ some a
unfolding first_spec
first_spec-append p [] more a e = cc
first_spec-append p (s ∷ ss) more a e = elim (Bool-cases (p s)) [
  | inl hit ↦ ground (arith, hit)
  | inr miss ↦ rw miss (first_spec-append p ss more a (ground (arith, miss)))
]

first_spec-new :
    (p : Spec → Bool) (specs : List Spec) (a : Spec)
    → first_spec p specs ≡ none
    → p a ≡ true
    → first_spec p (specs ++ (a ∷ [])) ≡ some a
unfolding first_spec
first_spec-new p [] a e h = rw h refl
first_spec-new p (s ∷ ss) a e h = elim (Bool-cases (p s)) [
  | inl hit ↦ absurd (ground (arith, hit))
  | inr miss ↦ rw miss (first_spec-new p ss a (ground (arith, miss)) h)
]

give_class-keeps :
    (other : ℕ) (class : Option ℕ) (c : Component)
    → IsGiven other c
    → IsGiven other (give_class class c)
give_class-keeps other none c given = given
give_class-keeps other (some class) c (a, e) =
    (a, first_spec-append _ c.activatable_abilities _ a e)

make_eligible-keeps :
    (i : AbilityInfo) (other : ℕ) (o : Option Spec) (c : Component)
    → IsGiven other c
    → IsGiven other (make_eligible i o c)
make_eligible-keeps i other (some s) c given = given
make_eligible-keeps i other none c given = give_class-keeps other i.ability c given

-- The entry's class is that of its tag.
abbrev pub IsOwn : AbilityInfo → Type 0
IsOwn i = i.ability ≡ some i.ability_tag

make_eligible-IsGiven :
    (i : AbilityInfo) (o : Option Spec) (c : Component)
    → IsOwn i
    → get_spec_from_ability_tag i.ability_tag c ≡ o
    → IsGiven i.ability_tag (make_eligible i o c)
make_eligible-IsGiven i (some s) c own e = (s, e)
make_eligible-IsGiven i none c own e =
    subst (λ class. IsGiven i.ability_tag (give_class class c)) (sym own)
      (eligible_spec i.ability_tag, first_spec-new _ c.activatable_abilities _ e (ground arith))

update_one-keeps :
    (level other : ℕ) (i : AbilityInfo) (c : Component)
    → IsGiven other c
    → IsGiven other (update_one level i c)
update_one-keeps level other i c given = elim (Bool-cases (is_due level i)) [
  | inl due ↦
      rw due (make_eligible-keeps i other (get_spec_from_ability_tag i.ability_tag c) c given)
  | inr early ↦ rw early given
]

update_from-keeps :
    (level other : ℕ) (infos : List AbilityInfo) (c : Component)
    → IsGiven other c
    → IsGiven other (update_from level infos c)
unfolding update_from
update_from-keeps level other [] c given = given
update_from-keeps level other (i ∷ infos) c given =
    update_from-keeps level other infos (update_one level i c)
      (update_one-keeps level other i c given)

update_one-IsGiven :
    (level : ℕ) (i : AbilityInfo) (c : Component)
    → IsOwn i
    → is_due level i ≡ true
    → IsGiven i.ability_tag (update_one level i c)
update_one-IsGiven level i c own due =
    rw due (make_eligible-IsGiven i (get_spec_from_ability_tag i.ability_tag c) c own refl)

-- Each ability of the list that the level allows has a spec.
abbrev pub AllGiven : ℕ → List AbilityInfo → Component → Type 0
AllGiven level infos c = All (λ i. is_due level i ≡ true → IsGiven i.ability_tag c) infos

update_from-AllGiven :
    (level : ℕ) (infos : List AbilityInfo) (c : Component)
    → All IsOwn infos
    → AllGiven level infos (update_from level infos c)
unfolding update_from
update_from-AllGiven level [] c own = tt
update_from-AllGiven level (i ∷ infos) c (own, owns) = (
  λ due.
      update_from-keeps level i.ability_tag infos (update_one level i c)
        (update_one-IsGiven level i c own due),
  update_from-AllGiven level infos (update_one level i c) owns,
)

update_from-unchanged :
    (level : ℕ) (infos : List AbilityInfo) (c : Component)
    → AllGiven level infos c
    → update_from level infos c ≡ c
unfolding update_from
update_from-unchanged level [] c h = refl
update_from-unchanged level (i ∷ infos) c (h, hs) = elim (Bool-cases (is_due level i)) [
  | inl due ↦ let (s, e) = h due in rw (due, e) (update_from-unchanged level infos c hs)
  | inr early ↦ rw early (update_from-unchanged level infos c hs)
]

give_class-information :
    (class : Option ℕ) (c : Component)
    → (give_class class c).ability_information ≡ c.ability_information
give_class-information none c = refl
give_class-information (some class) c = refl

make_eligible-information :
    (i : AbilityInfo) (o : Option Spec) (c : Component)
    → (make_eligible i o c).ability_information ≡ c.ability_information
make_eligible-information i (some s) c = refl
make_eligible-information i none c = give_class-information i.ability c

update_one-information :
    (level : ℕ) (i : AbilityInfo) (c : Component)
    → (update_one level i c).ability_information ≡ c.ability_information
update_one-information level i c = elim (Bool-cases (is_due level i)) [
  | inl due ↦
      ap
        (λ b.
          (if b
            then make_eligible i (get_spec_from_ability_tag i.ability_tag c) c
            else c).ability_information)
        due
      ∙ make_eligible-information i (get_spec_from_ability_tag i.ability_tag c) c
  | inr early ↦
      ap
        (λ b.
          (if b
            then make_eligible i (get_spec_from_ability_tag i.ability_tag c) c
            else c).ability_information)
        early
]

update_from-information :
    (level : ℕ) (infos : List AbilityInfo) (c : Component)
    → (update_from level infos c).ability_information ≡ c.ability_information
unfolding update_from
update_from-information level [] c = refl
update_from-information level (i ∷ infos) c =
    update_from-information level infos (update_one level i c) ∙ update_one-information level i c

-- Where the class of every entry is that of its tag, after an update for a level every ability that the
-- level allows has a spec, and a second update for that level changes nothing and tells the client
-- nothing.
pub update_ability_statuses-AllGiven :
    (level : ℕ) (c : Component)
    → All IsOwn c.ability_information
    → let d = update_ability_statuses level c in
      AllGiven level c.ability_information d × (update_ability_statuses level d ≡ d)
unfolding update_ability_statuses
update_ability_statuses-AllGiven level c own =
    let given = update_from-AllGiven level c.ability_information c own in
    (
      given,
      ap (λ infos. update_from level infos (update_from level c.ability_information c))
            (update_from-information level c.ability_information c)
          ∙ update_from-unchanged level c.ability_information
              (update_from level c.ability_information c) given,
    )
