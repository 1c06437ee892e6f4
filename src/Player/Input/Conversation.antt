-- ===== src/Player/Input/Conversation.antt =====
-- AuraPlayerController.cpp: the left mouse button in a conversation.
use unreal5_gas.Base.{
  ℕ, ◌≡◌, refl, sym, ap, ◌∙◌, subst, Bool, true, false, not, ◌||◌, Option, none, some, List, [],
  ◌∷◌, ◌==◌, arith, leb, if◌then◌else◌,
}
use unreal5_gas.Player.Input.{
  Actor, Blocks, Call, Controller, is_blocked, tell_to, tell_asc, targets_enemy, press_on,
  end_click, input_pressed, input_held, input_released, ability_input_tag_pressed,
  ability_input_tag_held, ability_input_tag_released,
}

-- One event of the left mouse button, with what the engine finds.
pub data Button : Type 0 where
  pressed : Button
  held : Option ℕ → ℕ → Button
  released : (ℕ → Option (List ℕ)) → Button

abbrev pub on_button : ℕ → Button → Controller → Controller
on_button lmb pressed c = ability_input_tag_pressed lmb lmb c
on_button lmb (held hit delta) c = ability_input_tag_held lmb lmb hit delta c
on_button lmb (released path) c = ability_input_tag_released lmb lmb path c

unfoldable pub on_buttons : ℕ → List Button → Controller → Controller
unfolding ability_input_tag_pressed ability_input_tag_held ability_input_tag_released
on_buttons lmb [] c = c
on_buttons lmb (b ∷ bs) c = on_buttons lmb bs (on_button lmb b c)

-- In a conversation that is no aim at an enemy, with the shift key up, the way is that of before.
pub record IsTalking (before c : Controller) : Type 0 where
  pub in_conversation : c.in_conversation ≡ true
  pub no_enemy : targets_enemy c.targeting_status ≡ false
  pub no_shift : c.shift_key_down ≡ false
  pub same_running : c.auto_running ≡ before.auto_running
  pub same_destination : c.cached_destination ≡ before.cached_destination
  pub same_spline : c.spline ≡ before.spline

tell_to-IsTalking :
    (o : Option Blocks) (call : Call) (before c : Controller)
    → IsTalking before c
    → IsTalking before (tell_to o call c)
tell_to-IsTalking none call before c v = v
tell_to-IsTalking (some b) call before c v = record {
  in_conversation = v.in_conversation;
  no_enemy = v.no_enemy;
  no_shift = v.no_shift;
  same_running = v.same_running;
  same_destination = v.same_destination;
  same_spline = v.same_spline;
}

either-IsTalking :
    (before : Controller) (b : Bool) (x y : Controller)
    → IsTalking before x
    → IsTalking before y
    → IsTalking before (if b then x else y)
either-IsTalking before true x y p q = p
either-IsTalking before false x y p q = q

then-IsTalking :
    (before : Controller) (b : Bool) (x y : Controller)
    → b ≡ true
    → IsTalking before x
    → IsTalking before (if b then x else y)
then-IsTalking before true x y e p = p
then-IsTalking before false x y e p = cc

on_button-IsTalking :
    (lmb : ℕ) (button : Button) (before c : Controller)
    → IsTalking before c
    → IsTalking before (on_button lmb button c)
unfolding ability_input_tag_pressed ability_input_tag_held ability_input_tag_released
on_button-IsTalking lmb pressed before c v = either-IsTalking before _ c _ v (
    either-IsTalking before _ _ _ (then-IsTalking before _ c _ v.in_conversation v)
      (tell_to-IsTalking c.asc (input_pressed lmb) before c v))
on_button-IsTalking lmb (held hit delta) before c v = either-IsTalking before _ c _ v (
    either-IsTalking before _ _ _ (tell_to-IsTalking c.asc (input_held lmb) before c v)
      (then-IsTalking before _ c _ v.in_conversation v))
on_button-IsTalking lmb (released path) before c v =
    let told = tell_asc (input_released lmb) c in
    let stays =
      not (lmb == lmb)
      || targets_enemy c.targeting_status
      || c.shift_key_down
      || c.in_conversation in
    either-IsTalking before (is_blocked (λ b. b.input_released) c.asc) c
      (if stays then told else end_click path told) v
      (then-IsTalking before stays told (end_click path told) (ground (arith, v.in_conversation))
        (tell_to-IsTalking c.asc (input_released lmb) before c v))

on_buttons-IsTalking :
    (lmb : ℕ) (buttons : List Button) (before c : Controller)
    → IsTalking before c
    → IsTalking before (on_buttons lmb buttons c)
unfolding on_buttons
on_buttons-IsTalking lmb [] before c v = v
on_buttons-IsTalking lmb (b ∷ bs) before c v =
    on_buttons-IsTalking lmb bs before (on_button lmb b c) (on_button-IsTalking lmb b before c v)

-- An actor that starts a conversation when it is clicked.
pub record IsSpeaker (c : Controller) (a : Actor) : Type 0 where
  pub pointed_at : c.this_actor ≡ some a
  pub npc : a.is_npc ≡ true
  pub no_enemy : a.is_enemy ≡ false
  pub in_range : leb a.distance c.can_clicked_distance ≡ true
  pub unblocked : is_blocked (λ b. b.input_pressed) c.asc ≡ false

press_on-IsTalking :
    (lmb : ℕ) (c : Controller) (a : Actor)
    → IsSpeaker c a
    → c.shift_key_down ≡ false
    → IsTalking c (press_on lmb (some a) c)
press_on-IsTalking lmb c a v up =
    rw (v.npc, v.in_range, v.no_enemy)
      (record {
        in_conversation = refl;
        no_enemy = refl;
        no_shift = up;
        same_running = refl;
        same_destination = refl;
        same_spline = refl;
      })

-- A click on a character that speaks, in range, starts a conversation, unless there is one. With the
-- shift key up, no later event of the left mouse button ends it or moves the player elsewhere; and a
-- player who was running automatically still is.
pub conversation_keeps_running :
    (lmb : ℕ) (buttons : List Button) (c : Controller) (a : Actor)
    → IsSpeaker c a
    → c.shift_key_down ≡ false
    → c.in_conversation ≡ false
    → IsTalking c (on_buttons lmb buttons (ability_input_tag_pressed lmb lmb c))
unfolding ability_input_tag_pressed
conversation_keeps_running lmb buttons c a v up silent =
    let own : (lmb == lmb) ≡ true = ground arith in
    let e : ability_input_tag_pressed lmb lmb c ≡ press_on lmb (some a) c =
      ap
        (λ b.
          if b
          then c
          else (if lmb == lmb
              then (if c.in_conversation then c else press_on lmb c.this_actor c)
              else tell_asc (input_pressed lmb) c))
        v.unblocked
      ∙ ap
          (λ b.
            if b
            then (if c.in_conversation then c else press_on lmb c.this_actor c)
            else tell_asc (input_pressed lmb) c)
          own
      ∙ ap (λ b. if b then c else press_on lmb c.this_actor c) silent
      ∙ ap (λ o. press_on lmb o c) v.pointed_at in
    on_buttons-IsTalking lmb buttons c (ability_input_tag_pressed lmb lmb c)
      (subst (IsTalking c) (sym e) (press_on-IsTalking lmb c a v up))
