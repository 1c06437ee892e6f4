-- ===== src/Ability/Spells/Tags.antt =====
-- AuraAbilitySystemComponent.cpp: the tags of an ability after they are changed.
use unreal5_gas.Base.{
  ℕ, ◌≡◌, refl, ap, ◌∙◌, inl, inr, true, false, not, ◌&&◌, ◌||◌, List, [], ◌∷◌, ◌++◌, ◌==◌, arith,
  Bool-cases,
}
use unreal5_gas.Ability.Spells.{
  Status, locked, eligible, unlocked, equipped, Tag, no_tag, input, status, status_eq, tag_eq,
  has_tag, add_tag, remove_tag, get_input_tag_from_spec,
}

status_eq-true : (s t : Status) → status_eq s t ≡ true → s ≡ t
status_eq-true locked locked e = refl
status_eq-true eligible eligible e = refl
status_eq-true unlocked unlocked e = refl
status_eq-true equipped equipped e = refl
status_eq-true s t e = ground arith

status_eq_self : (s : Status) → status_eq s s ≡ true
status_eq_self locked = refl
status_eq_self eligible = refl
status_eq_self unlocked = refl
status_eq_self equipped = refl

pub tag_eq-true : (t u : Tag) → tag_eq t u ≡ true → t ≡ u
tag_eq-true no_tag no_tag e = refl
tag_eq-true (input i) (input j) e = ground arith
tag_eq-true (status s) (status t) e = ap status (status_eq-true s t e)
tag_eq-true t u e = ground arith

pub tag_eq_self : (t : Tag) → tag_eq t t ≡ true
tag_eq_self no_tag = refl
tag_eq_self (input i) = ground arith
tag_eq_self (status s) = status_eq_self s

pub has_tag-remove_tag :
    (t u : Tag) (ts : List Tag) → has_tag t (remove_tag u ts) ≡ (not (tag_eq u t) && has_tag t ts)
unfolding has_tag remove_tag
has_tag-remove_tag t u [] = ground arith
has_tag-remove_tag t u (v ∷ ts) =
    let ih = has_tag-remove_tag t u ts in
    elim (Bool-cases (tag_eq t v)) [
      | inl same ↦
          let e : tag_eq u t ≡ tag_eq u v = ap (tag_eq u) (tag_eq-true t v same) in
          ground (arith, ih, e)
      | inr apart ↦ ground (arith, ih)
    ]

has_tag-append :
    (t u : Tag) (ts : List Tag) → has_tag t (ts ++ (u ∷ [])) ≡ (has_tag t ts || tag_eq t u)
unfolding has_tag
has_tag-append t u [] = ground arith
has_tag-append t u (v ∷ ts) = ground (arith, has_tag-append t u ts)

-- No slot among the tags.
abbrev pub HasNoInput : List Tag → Type 0
HasNoInput ts = (i : ℕ) → has_tag (input i) ts ≡ false

-- At most one slot: each that is there is the one that is found.
abbrev pub HasOneInput : List Tag → Type 0
HasOneInput ts = (i : ℕ) → has_tag (input i) ts ≡ true → get_input_tag_from_spec ts ≡ input i

pub remove_input-HasNoInput :
    (ts : List Tag) → HasOneInput ts → HasNoInput (remove_tag (get_input_tag_from_spec ts) ts)
remove_input-HasNoInput ts one i = elim (Bool-cases (has_tag (input i) ts)) [
  | inl held ↦ has_tag-remove_tag (input i) _ ts ∙ rw (one i held) (rw (tag_eq_self (input i)) refl)
  | inr absent ↦ has_tag-remove_tag (input i) _ ts ∙ ground arith
]

get_input-append :
    (ts : List Tag) (i : ℕ)
    → HasNoInput ts
    → get_input_tag_from_spec (ts ++ (input i ∷ [])) ≡ input i
unfolding get_input_tag_from_spec has_tag
get_input-append [] i none_held = refl
get_input-append (no_tag ∷ ts) i none_held = get_input-append ts i none_held
get_input-append (status s ∷ ts) i none_held = get_input-append ts i none_held
get_input-append (input j ∷ ts) i none_held = absurd (ground (arith, none_held j))

-- A slot added to tags without one is the one slot among them.
pub add_input-HasOneInput :
    (ts : List Tag) (i : ℕ)
    → HasNoInput ts
    → HasOneInput (add_tag (input i) ts)
      × ((j : ℕ) → has_tag (input j) (add_tag (input i) ts) ≡ (j == i))
unfolding add_tag
add_input-HasOneInput ts i none_held = rw (none_held i) (
  λ j held.
      get_input-append ts i none_held
      ∙ ap input (ground (arith, has_tag-append (input j) (input i) ts, none_held j)),
  λ j. has_tag-append (input j) (input i) ts ∙ rw (none_held j) refl,
)

-- A status that is set changes no slot.
pub set_status-HasNoInput :
    (ts : List Tag) (old : Tag) (new : Status)
    → HasNoInput ts
    → HasNoInput (add_tag (status new) (remove_tag old ts))
unfolding add_tag
set_status-HasNoInput ts old new none_held i = ground (
  arith,
  none_held i,
  has_tag-remove_tag (input i) old ts,
  has_tag-append (input i) (status new) (remove_tag old ts),
)
