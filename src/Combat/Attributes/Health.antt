-- ===== src/Combat/Attributes/Health.antt =====
-- AuraAttributeSet.cpp: what a hit does to the character that it hits.
use unreal5_gas.Base.{
  ℕ, ◌+◌, ◌≡◌, ◌⊎◌, refl, inl, inr, Bool, true, false, ◌||◌, Option, none, some, List, [], ◌∷◌,
  ◌++◌, if◌then◌else◌, arith, Bool-cases,
}
use unreal5_gas.Ability.Context.{Engine}
use unreal5_gas.Combat.Numbers.{Numbers}
use unreal5_gas.Combat.Library.{
  DamageType, Tags, Directions, Handle, is_successful_debuff, get_damage_type, get_knockback_force,
  get_death_impulse,
}
use unreal5_gas.Combat.Attributes.{
  AttributeSet, Event, die, send_xp_event, hit_react, launch_character, debuffed, Character,
  Parties, shows_on, set_health, tell, fatal, survived, show, debuff_of, debuff, react,
  with_attributes, hurt,
}

abbrev pub is_death : {V F : Type 0} → Event V F → ℕ
is_death (die v) = 1
is_death _ = 0

abbrev pub is_reward : {V F : Type 0} → Event V F → ℕ
is_reward (send_xp_event xp) = 1
is_reward _ = 0

either-holds {ℓ κ} :
    {A : Type ℓ} (P : A → Type κ) (b : Bool) (x y : A) → P x → P y → P (if b then x else y)
either-holds P true x y p q = p
either-holds P false x y p q = q

module _ {V F : Type 0} where
  -- How often a character died, and how often its reward was sent.
  unfoldable pub count : (Event V F → ℕ) → List (Event V F) → ℕ
  count p [] = 0
  count p (event ∷ events) = p event + count p events

  pub count-append :
      (p : Event V F → ℕ) (events : List (Event V F)) (event : Event V F)
      → count p (events ++ (event ∷ [])) ≡ count p events + p event
  unfolding count
  count-append p [] event = omega arith
  count-append p (x ∷ events) event = omega (arith, count-append p events event)

module _ {e : Engine} (tags : Tags e) (n : Numbers e.Float) (d : Directions e) where
  -- What a character is after a hit that killed it or did not.
  pub record IsHit (c c' : Character e) (a : AttributeSet e.Float) (killed : Bool) : Type 0 where
    pub attributes : c'.attributes ≡ a
    pub dead : c'.dead ≡ (killed || c.dead)
    pub deaths : count is_death c'.events ≡ count is_death c.events + (if killed then 1 else 0)
    pub rewards : count is_reward c'.events ≡ count is_reward c.events + (if killed then 1 else 0)

  -- Other events change nothing of that.
  pub tell-IsHit :
      (event : Event e.Vector e.Float) (c c' : Character e) (a : AttributeSet e.Float)
      (killed : Bool)
      → is_death event ≡ 0
      → is_reward event ≡ 0
      → IsHit c c' a killed
      → IsHit c (tell tags n d event c') a killed
  tell-IsHit event c c' a killed no_death no_reward h = record {
    attributes = h.attributes;
    dead = h.dead;
    deaths = omega (arith, count-append is_death c'.events event, h.deaths, no_death);
    rewards = omega (arith, count-append is_reward c'.events event, h.rewards, no_reward);
  }

  fatal-IsHit : (h : Handle e) (c : Character e) → IsHit c (fatal tags n d h c) c.attributes true
  fatal-IsHit h c =
      let death = die (get_death_impulse e h) in
      let events = c.events ++ (death ∷ []) in
      record {
        attributes = refl;
        dead = refl;
        deaths = omega (
          arith,
          count-append is_death events (send_xp_event c.xp_reward),
          count-append is_death c.events death,
        );
        rewards = omega (
          arith,
          count-append is_reward events (send_xp_event c.xp_reward),
          count-append is_reward c.events death,
        );
      }

  pub unhurt-IsHit : (c : Character e) → IsHit c c c.attributes false
  unhurt-IsHit c = record {
    attributes = refl;
    dead = refl;
    deaths = omega arith;
    rewards = omega arith;
  }

  react-IsHit : (c : Character e) → IsHit c (react tags n d c) c.attributes false
  react-IsHit c =
      either-holds (λ c'. IsHit c c' c.attributes false) c.is_being_shocked c
        (tell tags n d hit_react c) (unhurt-IsHit c)
        (tell-IsHit hit_react c c c.attributes false refl refl (unhurt-IsHit c))

  survived-IsHit :
      (h : Handle e) (c : Character e) → IsHit c (survived tags n d h c) c.attributes false
  survived-IsHit h c = elim (Bool-cases (d.is_nearly_zero (get_knockback_force e h))) [
    | inl still ↦ rw still (react-IsHit c)
    | inr thrown ↦ rw thrown (
        tell-IsHit (launch_character (get_knockback_force e h)) c (react tags n d c) c.attributes
          false refl refl (react-IsHit c))
  ]

  show-IsHit :
      (who : Option ℕ) (damage : e.Float) (h : Handle e) (c c' : Character e)
      (a : AttributeSet e.Float) (killed : Bool)
      → IsHit c c' a killed
      → IsHit c (show tags n d who damage h c') a killed
  show-IsHit none damage h c c' a killed hit = hit
  show-IsHit (some w) damage h c c' a killed hit = tell-IsHit _ c c' a killed refl refl hit

  -- The debuff of a context, if it has one, is of a damage type.
  abbrev pub HasType : Handle e → Type 0
  HasType h =
      (is_successful_debuff e h ≡ false)
      ⊎ ((t : DamageType) × (get_damage_type e h ≡ some (tags.tag_of t)))

  debuff-IsHit :
      (h : Handle e) (c c' : Character e) (a : AttributeSet e.Float) (killed : Bool)
      → HasType h
      → IsHit c c' a killed
      → (c'' : Character e) × ((if is_successful_debuff e h then debuff tags n d h c' else some c')
          ≡ some c'')
        × IsHit c c'' a killed
  debuff-IsHit h c c' a killed (inl none_there) hit = (c', rw none_there refl, hit)
  debuff-IsHit h c c' a killed (inr (t, typed)) hit = elim (Bool-cases (is_successful_debuff e h)) [
    | inr off ↦ (c', rw off refl, hit)
    | inl on ↦ (
      tell tags n d (debuffed (debuff_of tags n d t h)) c',
      rw (on, typed, tags.type_of_tag t) refl,
      tell-IsHit (debuffed (debuff_of tags n d t h)) c c' a killed refl refl hit,
    )
  ]

  before-IsHit :
      (b a : AttributeSet e.Float) (c c' : Character e) (killed : Bool)
      → IsHit (with_attributes tags n d b c) c' a killed
      → IsHit c c' a killed
  before-IsHit b a c c' killed hit = record {
    attributes = hit.attributes;
    dead = hit.dead;
    deaths = hit.deaths;
    rewards = hit.rewards;
  }

  -- Damage takes its part of the health, down to zero. It kills exactly if it is all of the health.
  pub hurt-IsHit :
      (parties : Parties) (h : Handle e) (damage : e.Float) (c : Character e)
      → HasType h
      → (c' : Character e) × (hurt tags n d parties h damage c ≡ some c')
        × IsHit c c'
            (set_health tags n d (n.sub c.attributes.health damage) c.attributes)
            (n.le (n.sub c.attributes.health damage) n.zero)
  hurt-IsHit parties h damage c typed =
      let new_health = n.sub c.attributes.health damage in
      let a = set_health tags n d new_health c.attributes in
      let lowered = with_attributes tags n d a c in
      let killed = n.le new_health n.zero in
      let told = if killed then fatal tags n d h lowered else survived tags n d h lowered in
      let hit : IsHit c told a killed = elim (Bool-cases killed) [
        | inl lethal ↦ rw lethal (before-IsHit a a c _ true (fatal-IsHit h lowered))
        | inr mild ↦ rw mild (before-IsHit a a c _ false (survived-IsHit h lowered))
      ] in
      debuff-IsHit h c (show tags n d (shows_on parties) damage h told) a killed typed
        (show-IsHit (shows_on parties) damage h c told a killed hit)
