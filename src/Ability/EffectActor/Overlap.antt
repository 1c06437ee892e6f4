-- ===== src/Ability/EffectActor/Overlap.antt =====
-- AuraEffectActor.cpp: what is left of the effects when an overlap ends.
use unreal5_gas.Base.{ℕ, ◌≡◌, ◌≢◌, refl, Bool, true, false, some, List, [], ◌∷◌, ◌++◌, arith, All}
use unreal5_gas.Base.Fallible.{◌>>=◌}
use unreal5_gas.Ability.EffectActor.{
  EffectActor, Target, apply_on_overlap, do_not_apply, remove_on_end_overlap, is_barred,
  without_key, without_component, handles_of, on_overlap, on_end_overlap, apply_effect_to_target,
}

without_key-fresh : (h : ℕ) (m : List (ℕ × ℕ)) → All (λ p. p.0 ≢ h) m → without_key h m ≡ m
unfolding without_key
without_key-fresh h [] fresh = refl
without_key-fresh h ((k, c) ∷ m) (apart, rest) =
    let ih = without_key-fresh h m rest in ground (arith, ih)

without_component-append :
    (c h : ℕ) (m : List (ℕ × ℕ))
    → All (λ p. p.1 ≢ c) m
    → without_component c (m ++ ((h, c) ∷ [])) ≡ m
unfolding without_component
without_component-append c h [] fresh = ground arith
without_component-append c h ((k, d) ∷ m) (apart, rest) =
    let ih = without_component-append c h m rest in ground (arith, ih)

handles_of-append :
    (c h : ℕ) (m : List (ℕ × ℕ)) → All (λ p. p.1 ≢ c) m → handles_of c (m ++ ((h, c) ∷ [])) ≡ h ∷ []
unfolding handles_of
handles_of-append c h [] fresh = ground arith
handles_of-append c h ((k, d) ∷ m) (apart, rest) =
    let ih = handles_of-append c h m rest in ground (arith, ih)

-- An actor that only applies an infinite effect, on overlap, and takes it back at its end.
pub record IsAura (is_infinite : ℕ → Bool) (class : ℕ) (a : EffectActor) : Type 0 where
  pub instant : a.instant_policy ≡ do_not_apply
  pub duration : a.duration_policy ≡ do_not_apply
  pub infinite : a.infinite_policy ≡ apply_on_overlap
  pub removal : a.removal_policy ≡ remove_on_end_overlap
  pub class_set : a.infinite_class ≡ some class
  pub is_infinite_class : is_infinite class ≡ true

-- For such an actor, a target with a component that no effect is kept for, and a new handle: an
-- overlap and its end apply the effect to the target once and remove just its handle, and leave the
-- handles of others, and the actor, as they were.
pub on_end_overlap-on_overlap :
    (is_infinite : ℕ → Bool) (class c h : ℕ) (others others' : ℕ × ℕ) (k : ℕ) (t : Target)
    (a : EffectActor)
    → IsAura is_infinite class a
    → is_barred t a ≡ false
    → t.component ≡ some c
    → All (λ p. p.0 ≢ h) a.active_effect_handles
    → All (λ p. p.1 ≢ c) a.active_effect_handles
    → (on_overlap is_infinite (others.0, (others.1, h)) t a
        >>= on_end_overlap is_infinite (others'.0, (others'.1, k)) t)
      ≡ some
          (record a { applied = a.applied ++ ((class, c) ∷ []); removed = a.removed ++ (h ∷ []) })
unfolding on_overlap on_end_overlap apply_effect_to_target
on_end_overlap-on_overlap is_infinite class c h others others' k t a aura open_to at new_handle
      new_target =
    simp (
      open_to,
      aura.instant,
      aura.duration,
      aura.infinite,
      aura.removal,
      aura.class_set,
      aura.is_infinite_class,
      at,
      without_key-fresh h a.active_effect_handles new_handle,
      without_component-append c h a.active_effect_handles new_target,
      handles_of-append c h a.active_effect_handles new_target,
    )
