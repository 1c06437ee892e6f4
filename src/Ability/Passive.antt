-- ===== src/Ability/Passive.antt =====
-- PassiveNiagaraComponent.cpp and DebuffNiagaraComponent.cpp: the visible effect of a passive ability
-- and of a debuff. Whether an effect is active is the engine's `IsActive`.
pub mod Heard
pub mod Steps
pub mod Following
pub mod Examples
use unreal5_gas.Base.{
  ℕ, Bool, true, false, not, ◌&&◌, Option, none, some, List, [], ◌∷◌, ◌==◌, if◌then◌else◌,
}
use unreal5_gas.Base.Int.{ℤ, pos, ltb_ℤ}
use unreal5_gas.Ability.Spells.{
  equipped, Tag, no_tag, status, tag_eq, Call, client_equip_ability, client_update_ability_status,
  multicast_activate_passive_effect, deactivate_passive_ability, try_activate_ability, Spec,
  Component, get_status_from_spec, first_spec, get_spec_from_ability_tag,
}

-- `UPassiveNiagaraComponent`, and whether it listens to `ActivatePassiveEffect`.
pub record PassiveNiagara : Type 0 where
  pub passive_spell_tag : ℕ
  pub is_active : Bool
  pub is_bound : Bool

-- `OnPassiveActivate`.
abbrev pub on_passive_activate : ℕ → Bool → PassiveNiagara → PassiveNiagara
on_passive_activate ability_tag activate p =
    if ability_tag == p.passive_spell_tag
    then record p { is_active = activate && not p.is_active }
    else p

-- `GetStatusFromAbilityTag`.
abbrev pub status_from : Option Spec → Tag
status_from none = no_tag
status_from (some s) = get_status_from_spec s.dynamic_ability_tags

-- `ActivateIfEquipped`, with `bStartupAbilitiesGiven`.
abbrev pub activate_if_equipped : Bool → Component → PassiveNiagara → PassiveNiagara
activate_if_equipped given c p =
    if given
      && tag_eq (status_from (get_spec_from_ability_tag p.passive_spell_tag c)) (status equipped)
    then record p { is_active = true }
    else p

-- `BeginPlay` of an owner that has an ability system, and what an owner without one runs as soon as it
-- is registered.
unfoldable pub passive_begin_play : Bool → Component → PassiveNiagara → PassiveNiagara
unfolding first_spec get_status_from_spec
passive_begin_play given c p = activate_if_equipped given c (record p { is_bound = true })

-- A call of the server, as far as the effect listens to it: `MulticastActivatePassiveEffect` broadcasts
-- it to the handler.
unfoldable pub hear : Call → PassiveNiagara → PassiveNiagara
hear (multicast_activate_passive_effect tag activate) p =
    if p.is_bound then on_passive_activate tag activate p else p
hear (client_equip_ability tag s slot previous) p = p
hear (client_update_ability_status tag s level) p = p
hear (deactivate_passive_ability tag) p = p
hear (try_activate_ability tag) p = p

unfoldable pub hear_all : List Call → PassiveNiagara → PassiveNiagara
unfolding hear
hear_all [] p = p
hear_all (call ∷ calls) p = hear_all calls (hear call p)

-- `DebuffTagChanged`: whether the effect is active after the count of the debuff's tag on the owner
-- has changed.
unfoldable pub debuff_tag_changed : ℤ → (owner_valid owner_alive : Bool) → Bool
debuff_tag_changed new_count owner_valid owner_alive =
    ltb_ℤ (pos 0) new_count && owner_valid && owner_alive
