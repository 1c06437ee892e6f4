-- ===== src/Player/Input/Examples.antt =====
-- Tests of the model of the player's input.
use unreal5_gas.Base.{refl, true, false, none, some, [], ◌∷◌}
use unreal5_gas.Player.Input.{Actor, Controller, not_targeting, ability_input_tag_pressed}
use unreal5_gas.Player.Input.Conversation.{
  pressed, held, released, on_buttons, IsTalking, conversation_keeps_running,
}

-- A smith, who speaks, and a barrel.
abbrev smith : Actor
smith = record {
  id = 1;
  is_highlightable = true;
  is_enemy = false;
  is_npc = true;
  distance = 90;
  move_to = none;
}

abbrev barrel : Actor
barrel = record smith { id = 2; is_highlightable = false; is_npc = false }

abbrev idle : Controller
idle = record {
  last_actor = none;
  this_actor = none;
  highlighted = λ i. false;
  targeting_status = not_targeting;
  in_conversation = false;
  auto_running = true;
  shift_key_down = false;
  follow_time = 0;
  short_press_threshold = 500;
  can_clicked_distance = 100;
  auto_run_acceptance_radius = 50;
  cached_destination = 70;
  spline = 60 ∷ 70 ∷ [];
  asc = none;
  calls = [];
}

abbrev facing : Controller
facing = record idle { this_actor = some smith }

-- He is clicked, and then the player clicks elsewhere.
conversation_keeps_running_example : IsTalking facing (
    on_buttons 1
      (released (λ p. some (p ∷ [])) ∷ pressed ∷ held (some 3) 20 ∷ [])
      (ability_input_tag_pressed 1 1 facing))
conversation_keeps_running_example =
    conversation_keeps_running 1 (released (λ p. some (p ∷ [])) ∷ pressed ∷ held (some 3) 20 ∷ [])
      facing smith
      (record { pointed_at = refl; npc = refl; no_enemy = refl; in_range = refl; unblocked = refl })
      refl refl
