-- ===== src/Ability/EffectActor/Examples.antt =====
-- Tests of the model of AuraEffectActor.cpp.
use unreal5_gas.Base.{ℕ, ◌≡◌, refl, false, Bool, none, some, [], ◌∷◌, arith, ◌==◌}
use unreal5_gas.Base.Fallible.{◌>>=◌}
use unreal5_gas.Ability.EffectActor.{
  EffectActor, Target, apply_on_overlap, do_not_apply, remove_on_end_overlap, on_overlap,
  on_end_overlap,
}
use unreal5_gas.Ability.EffectActor.Overlap.{on_end_overlap-on_overlap}

-- A fire that already burns the component 9 under the handle 4.
abbrev fire : EffectActor
fire = record {
  apply_effects_to_enemies = false;
  instant_class = none;
  instant_policy = do_not_apply;
  duration_class = none;
  duration_policy = do_not_apply;
  infinite_class = some 7;
  infinite_policy = apply_on_overlap;
  removal_policy = remove_on_end_overlap;
  active_effect_handles = (4, 9) ∷ [];
  destroyed = false;
  applied = (7, 9) ∷ [];
  removed = [];
}

abbrev mage : Target
mage = record { is_enemy = false; component = some 2 }

abbrev seventh : ℕ → Bool
seventh n = n == 7

on_end_overlap-on_overlap_example :
    (on_overlap seventh (0, (0, 5)) mage fire >>= on_end_overlap seventh (0, (0, 0)) mage)
    ≡ some (record fire { applied = (7, 9) ∷ (7, 2) ∷ []; removed = 5 ∷ [] })
on_end_overlap-on_overlap_example =
    on_end_overlap-on_overlap seventh 7 2 5 (0, 0) (0, 0) 0 mage fire
      (record {
        instant = refl;
        duration = refl;
        infinite = refl;
        removal = refl;
        class_set = refl;
        is_infinite_class = refl;
      })
      refl refl ((λ e. omega arith), tt) ((λ e. omega arith), tt)
