-- ===== src/Combat/Damage/Bounds.antt =====
-- ExecCalc_Damage.cpp: bounds of the damage.
use unreal5_gas.Base.{
  ℕ, ◌≡◌, refl, inl, inr, Bool, true, false, some, List, [], ◌∷◌, if◌then◌else◌, Bool-cases, All,
}
use unreal5_gas.Ability.Context.{Engine}
use unreal5_gas.Combat.Numbers.{
  Numbers, IsWithin, reduced, reduced-IsWithin, add-IsWithin, zero-IsWithin, lt-le,
}
use unreal5_gas.Combat.Library.{
  DamageType, damage_types, Tags, Handle, Spec, is_radial_damage, set_is_critical_hit,
  set_is_blocked_hit,
}
use unreal5_gas.Combat.Damage.{
  Captured, Coefficients, Rolls, Avatar, level_of, or_value, last_of, determine_debuff,
  damage_of_type, typed_damage, armor_percent, is_blocked, is_critical, armored, critical_damage,
  execute,
}

module _ {F : Type 0} (n : Numbers F) where
  -- Radial damage falls off: what is broadcast is at most what was dealt.
  abbrev pub FallsOff : (F → List F) → Type 0
  FallsOff broadcast = (f : F) → All (λ g. IsWithin n g f) (broadcast f)

  last-IsWithin :
      (bound f : F) (gs : List F)
      → IsWithin n f bound
      → All (λ g. IsWithin n g bound) gs
      → IsWithin n (last_of f gs) bound
  last-IsWithin bound f [] h all = h
  last-IsWithin bound f (g ∷ gs) h (p, ps) = last-IsWithin bound g gs p ps

  settled-IsWithin :
      (broadcast : F → List F) (f bound : F) (radial : Bool)
      → FallsOff broadcast
      → IsWithin n f bound
      → IsWithin n (if radial then last_of f (broadcast f) else f) bound
  settled-IsWithin broadcast f bound false falls h = h
  settled-IsWithin broadcast f bound true falls (f0, fb) =
      let (g0, gf) = last-IsWithin f f (broadcast f) (f0, n.le_refl f) (falls f) in
      (g0, n.le_trans (last_of f (broadcast f)) f bound gf fb)

module _ {e : Engine} (tags : Tags e) (n : Numbers e.Float) where
  -- The damage that the caller set, of the types of a list.
  unfoldable pub raw_damage : Spec e → List DamageType → e.Float → e.Float
  raw_damage spec [] sum = sum
  raw_damage spec (t ∷ ts) sum = raw_damage spec ts (
      if n.le (or_value n.zero (spec.magnitude t)) n.zero
      then sum
      else n.add sum (or_value n.zero (spec.magnitude t)))

  damage_of_type-IsWithin :
      (captured : Captured e.Float) (spec : Spec e) (h : Handle e)
      (broadcast : e.Float → List e.Float) (t : DamageType)
      → FallsOff n broadcast
      → n.le (or_value n.zero (spec.magnitude t)) n.zero ≡ false
      → IsWithin n
          (damage_of_type tags n captured spec h broadcast t)
          (or_value n.zero (spec.magnitude t))
  damage_of_type-IsWithin captured spec h broadcast t falls positive =
      let value = or_value n.zero (spec.magnitude t) in
      let r = or_value n.zero (captured.resistance t) in
      let resistance = n.clamp r n.zero n.hundred in
      settled-IsWithin n broadcast (reduced n value resistance) value (is_radial_damage e h) falls (
        reduced-IsWithin n value resistance (lt-le n value n.zero positive) (
          n.clamp_low r n.zero n.hundred n.zero_hundred,
          n.clamp_high r n.zero n.hundred n.zero_hundred,
        ))

  typed_damage-IsWithin :
      (captured : Captured e.Float) (spec : Spec e) (h : Handle e)
      (broadcast : e.Float → List e.Float) (ts : List DamageType) (damage sum : e.Float)
      → FallsOff n broadcast
      → IsWithin n damage sum
      → IsWithin n
          (typed_damage tags n captured spec h broadcast ts damage)
          (raw_damage spec ts sum)
  unfolding typed_damage raw_damage
  typed_damage-IsWithin captured spec h broadcast [] damage sum falls ok = ok
  typed_damage-IsWithin captured spec h broadcast (t ∷ ts) damage sum falls ok =
      typed_damage-IsWithin captured spec h broadcast ts
        (if n.le (or_value n.zero (spec.magnitude t)) n.zero
          then damage
          else n.add damage (damage_of_type tags n captured spec h broadcast t))
        (if n.le (or_value n.zero (spec.magnitude t)) n.zero
          then sum
          else n.add sum (or_value n.zero (spec.magnitude t)))
        falls
        (elim (Bool-cases (n.le (or_value n.zero (spec.magnitude t)) n.zero)) [
          | inl skipped ↦ rw skipped ok
          | inr positive ↦ rw positive (
              add-IsWithin n damage sum (damage_of_type tags n captured spec h broadcast t)
                (or_value n.zero (spec.magnitude t)) ok
                (damage_of_type-IsWithin captured spec h broadcast t falls positive))
        ])

  -- The damage between two avatars, before a critical hit is added.
  abbrev pub plain_damage :
      Captured e.Float
      → Coefficients e.Float
      → Rolls
      → (e.Float → List e.Float)
      → (source_level target_level : ℕ) → Spec e
      → e.Float
  plain_damage captured k rolls broadcast source_level target_level spec =
      let h = determine_debuff tags n captured spec rolls.debuff damage_types spec.context in
      armored tags n captured k source_level target_level
        (typed_damage tags n captured spec h broadcast damage_types n.zero)

  abbrev pub context_of : Captured e.Float → Rolls → Spec e → Handle e
  context_of captured rolls spec = set_is_critical_hit e (is_critical tags n captured rolls) (
      set_is_blocked_hit e (is_blocked tags n captured rolls)
        (determine_debuff tags n captured spec rolls.debuff damage_types spec.context))

  -- Between two avatars the calculation returns.
  pub execute_levels :
      (captured : Captured e.Float) (k : Coefficients e.Float) (rolls : Rolls)
      (broadcast : e.Float → List e.Float) (source target : Avatar) (source_level target_level : ℕ)
      (spec : Spec e)
      → level_of source ≡ some source_level
      → level_of target ≡ some target_level
      → execute tags n captured k rolls broadcast source target spec
        ≡ some (
          critical_damage tags n captured rolls
              (plain_damage captured k rolls broadcast source_level target_level spec),
          context_of captured rolls spec,
        )
  unfolding execute
  execute_levels captured k rolls broadcast source target source_level target_level spec from to =
      rw (from, to) refl

  -- Between two avatars the calculation returns. Where radial damage falls off and what the armor takes
  -- off is between 0 % and 100 %, what is left by resistances and armor is between nothing and the
  -- damage that the caller set; the damage is that, and after a critical hit twice that and the bonus.
  pub execute-IsBounded :
      (captured : Captured e.Float) (k : Coefficients e.Float) (rolls : Rolls)
      (broadcast : e.Float → List e.Float) (source target : Avatar) (source_level target_level : ℕ)
      (spec : Spec e)
      → level_of source ≡ some source_level
      → level_of target ≡ some target_level
      → FallsOff n broadcast
      → IsWithin n (armor_percent tags n captured k source_level target_level) n.hundred
      → (plain : e.Float) × (damage : e.Float) × (h : Handle e) × (execute tags n captured k rolls
            broadcast source target spec
          ≡ some (damage, h))
        × IsWithin n plain (raw_damage spec damage_types n.zero)
        × (damage ≡ (
            if is_critical tags n captured rolls
            then n.add
                (n.mul n.two plain)
                (n.max (or_value n.zero captured.critical_hit_damage) n.zero)
            else plain))
  execute-IsBounded captured k rolls broadcast source target source_level target_level spec from to
        falls percent =
      let h = determine_debuff tags n captured spec rolls.debuff damage_types spec.context in
      let sum = typed_damage tags n captured spec h broadcast damage_types n.zero in
      let raw = raw_damage spec damage_types n.zero in
      let (low, high) =
        typed_damage-IsWithin captured spec h broadcast damage_types n.zero n.zero falls
          (zero-IsWithin n) in
      let armor = armor_percent tags n captured k source_level target_level in
      let (left_low, left_high) = reduced-IsWithin n sum armor low percent in
      (
        reduced n sum armor,
        critical_damage tags n captured rolls (reduced n sum armor),
        context_of captured rolls spec,
        execute_levels captured k rolls broadcast source target source_level target_level spec from
            to,
        (left_low, n.le_trans (reduced n sum armor) sum raw left_high high),
        refl,
      )
