-- ===== src/Combat/Attributes/Death.antt =====
-- AuraAttributeSet.cpp: effects in a row on one character.
use unreal5_gas.Base.{
  ◌≡◌, refl, sym, ap, ◌∙◌, subst, inl, inr, Bool, true, false, some, List, [], ◌∷◌, if◌then◌else◌,
  arith, Bool-cases, All,
}
use unreal5_gas.Ability.Context.{Engine}
use unreal5_gas.Combat.Numbers.{Numbers, IsWithin}
use unreal5_gas.Combat.Library.{Tags, Directions, Handle}
use unreal5_gas.Combat.Attributes.{
  AttributeSet, Attribute, health, mana, incoming_damage, incoming_xp, Character, Parties,
  handle_incoming_xp, set_health, set_mana, add_to, Effect, apply_effect, apply_effects,
  post_effect, post_gameplay_effect_execute, handle_incoming_damage, with_attributes,
}
use unreal5_gas.Combat.Attributes.Health.{
  is_death, is_reward, count, IsHit, HasType, hurt-IsHit, tell-IsHit, unhurt-IsHit,
}

module _ {e : Engine} (tags : Tags e) (n : Numbers e.Float) (d : Directions e) where
  -- Health and mana are between zero and their maxima.
  pub record IsVital (a : AttributeSet e.Float) : Type 0 where
    pub health_within : IsWithin n a.health a.max_health
    pub mana_within : IsWithin n a.mana a.max_mana

  -- A character is vital, and the dead died once and gave their reward once.
  pub record IsSound (c : Character e) : Type 0 where
    pub vital : IsVital c.attributes
    pub deaths : count is_death c.events ≡ (if c.dead then 1 else 0)
    pub rewards : count is_reward c.events ≡ (if c.dead then 1 else 0)

  clamp-IsWithin :
      (f bound : e.Float) → n.le n.zero bound ≡ true → IsWithin n (n.clamp f n.zero bound) bound
  clamp-IsWithin f bound h = (n.clamp_low f n.zero bound h, n.clamp_high f n.zero bound h)

  room : (x bound : e.Float) → IsWithin n x bound → n.le n.zero bound ≡ true
  room x bound (low, high) = n.le_trans n.zero x bound low high

  set_health-IsVital :
      (f : e.Float) (a : AttributeSet e.Float) → IsVital a → IsVital (set_health tags n d f a)
  set_health-IsVital f a v = record {
    health_within = clamp-IsWithin f a.max_health (room a.health a.max_health v.health_within);
    mana_within = v.mana_within;
  }

  set_mana-IsVital :
      (f : e.Float) (a : AttributeSet e.Float) → IsVital a → IsVital (set_mana tags n d f a)
  set_mana-IsVital f a v = record {
    health_within = v.health_within;
    mana_within = clamp-IsWithin f a.max_mana (room a.mana a.max_mana v.mana_within);
  }

  add_to-IsVital :
      (attribute : Attribute) (f : e.Float) (a : AttributeSet e.Float)
      → IsVital a
      → IsVital (add_to tags n d attribute f a)
  add_to-IsVital health f a v = set_health-IsVital (n.add a.health f) a v
  add_to-IsVital mana f a v = set_mana-IsVital (n.add a.mana f) a v
  add_to-IsVital incoming_damage f a v = record {
    health_within = v.health_within;
    mana_within = v.mana_within;
  }
  add_to-IsVital incoming_xp f a v = record {
    health_within = v.health_within;
    mana_within = v.mana_within;
  }

  -- A hit on a living character that is sound leaves it sound.
  hit-IsSound :
      (c c' : Character e) (a : AttributeSet e.Float) (killed : Bool)
      → IsSound c
      → c.dead ≡ false
      → IsVital a
      → IsHit tags n d c c' a killed
      → IsSound c'
  hit-IsSound c c' a killed ok alive v hit = record {
    vital = subst IsVital (sym hit.attributes) v;
    deaths = ground (arith, hit.deaths, hit.dead, ok.deaths, alive);
    rewards = ground (arith, hit.rewards, hit.dead, ok.rewards, alive);
  }

  with_attributes-IsSound :
      (a : AttributeSet e.Float) (c : Character e)
      → IsSound c
      → IsVital a
      → IsSound (with_attributes tags n d a c)
  with_attributes-IsSound a c ok v = record { vital = v; deaths = ok.deaths; rewards = ok.rewards }

  damaged-IsSound :
      (parties : Parties) (h : Handle e) (c : Character e)
      → HasType tags n d h
      → IsSound c
      → c.dead ≡ false
      → (c' : Character e) × (handle_incoming_damage tags n d parties h c ≡ some c') × IsSound c'
  unfolding handle_incoming_damage
  damaged-IsSound parties h c typed ok alive =
      let reset = record c.attributes { incoming_damage = n.zero } in
      let c1 = with_attributes tags n d reset c in
      let v1 : IsVital reset = record {
        health_within = ok.vital.health_within;
        mana_within = ok.vital.mana_within;
      } in
      let ok1 = with_attributes-IsSound reset c ok v1 in
      elim (Bool-cases (n.le c.attributes.incoming_damage n.zero)) [
        | inl none_there ↦ (c1, rw none_there refl, ok1)
        | inr real ↦
            let (c', run, hit) =
              hurt-IsHit tags n d parties h c.attributes.incoming_damage c1 typed in
            (
              c',
              rw real run,
              hit-IsSound c1 c' _ _ ok1 alive
                  (set_health-IsVital (n.sub c.attributes.health c.attributes.incoming_damage) reset
                    v1)
                  hit,
            )
      ]

  post_effect-IsSound :
      (parties : Parties) (h : Handle e) (attribute : Attribute) (c : Character e)
      → HasType tags n d h
      → IsSound c
      → c.dead ≡ false
      → (c' : Character e) × (post_effect tags n d parties h attribute c ≡ some c') × IsSound c'
  post_effect-IsSound parties h health c typed ok alive = (
    _,
    refl,
    with_attributes-IsSound _ c ok (set_health-IsVital c.attributes.health c.attributes ok.vital),
  )
  post_effect-IsSound parties h mana c typed ok alive = (
    _,
    refl,
    with_attributes-IsSound _ c ok (set_mana-IsVital c.attributes.mana c.attributes ok.vital),
  )
  post_effect-IsSound parties h incoming_damage c typed ok alive =
      damaged-IsSound parties h c typed ok alive
  post_effect-IsSound parties h incoming_xp c typed ok alive =
      let reset = record c.attributes { incoming_xp = n.zero } in
      let c1 = with_attributes tags n d reset c in
      let v1 : IsVital reset = record {
        health_within = ok.vital.health_within;
        mana_within = ok.vital.mana_within;
      } in
      let ok1 = with_attributes-IsSound reset c ok v1 in
      (
        _,
        refl,
        hit-IsSound c1 _ reset false ok1 alive v1 (
            tell-IsHit tags n d (handle_incoming_xp c.attributes.incoming_xp) c1 c1 reset false refl
              refl (unhurt-IsHit tags n d c1)),
      )

  apply_effect-IsSound :
      (f : Effect tags n d) (c : Character e)
      → HasType tags n d f.context
      → IsSound c
      → (c' : Character e) × (apply_effect tags n d f c ≡ some c') × IsSound c'
  unfolding post_gameplay_effect_execute
  apply_effect-IsSound f c typed ok =
      let a = add_to tags n d f.attribute f.magnitude c.attributes in
      let c1 = with_attributes tags n d a c in
      let ok1 =
        with_attributes-IsSound a c ok
          (add_to-IsVital f.attribute f.magnitude c.attributes ok.vital) in
      elim (Bool-cases c.dead) [
        | inl dead ↦ (c1, simp dead, ok1)
        | inr alive ↦
            let (c', run, sound) =
              post_effect-IsSound f.parties f.context f.attribute c1 typed ok1 alive in
            (
              c',
              ap
                    (λ b.
                      if b
                      then some c1
                      else post_effect tags n d f.parties f.context f.attribute c1)
                    alive
                  ∙ run,
              sound,
            )
      ]

  -- Effects in a row on health, mana, damage and experience, whose debuffs are of damage types, are
  -- all carried out: health and mana stay between zero and their maxima, and a character dies, and
  -- gives its reward, once if it is dead and not at all if it is not.
  pub apply_effects-IsSound :
      (fs : List (Effect tags n d)) (c : Character e)
      → All (λ f. HasType tags n d f.context) fs
      → IsSound c
      → (c' : Character e) × (apply_effects tags n d fs c ≡ some c') × IsSound c'
  unfolding apply_effects
  apply_effects-IsSound [] c typed ok = (c, refl, ok)
  apply_effects-IsSound (f ∷ fs) c (t, ts) ok =
      let (c1, first, ok1) = apply_effect-IsSound f c t ok in
      let (c2, rest, ok2) = apply_effects-IsSound fs c1 ts ok1 in (c2, rw first rest, ok2)
