-- ===== src/Player/Input.antt =====
-- AuraPlayerController.cpp: what the player points at, and where the left mouse button leads. A place
-- is a number, a time a number of milliseconds. What the cursor and the navigation of the engine find
-- are arguments. An actor is valid as long as it is pointed at.
pub mod Highlight
pub mod Conversation
pub mod Examples
use unreal5_gas.Base.{
  ℕ, ◌+◌, Bool, true, false, not, ◌&&◌, ◌||◌, Option, none, some, List, [], ◌∷◌, ◌++◌, ◌==◌, leb,
  if◌then◌else◌,
}

pub data TargetingStatus : Type 0 where
  targeting_enemy targeting_non_enemy not_targeting : TargetingStatus

-- An actor, by the interfaces that it implements, its distance from the player, and the place that
-- `SetMoveToLocation` sets, if it sets one.
pub record Actor : Type 0 where
  pub id : ℕ
  pub is_highlightable : Bool
  pub is_enemy : Bool
  pub is_npc : Bool
  pub distance : ℕ
  pub move_to : Option ℕ

-- What the controller asks of others, oldest first.
pub data Call : Type 0 where
  input_pressed input_held input_released : ℕ → Call
  start_dialogue : ℕ → Call
  spawn_click move_towards : ℕ → Call

-- The tags of the ability system component that block input.
pub record Blocks : Type 0 where
  pub cursor_trace : Bool
  pub input_pressed : Bool
  pub input_held : Bool
  pub input_released : Bool

pub record Controller : Type 0 where
  pub last_actor : Option Actor
  pub this_actor : Option Actor
  -- Which actors are highlighted.
  pub highlighted : ℕ → Bool
  pub targeting_status : TargetingStatus
  pub in_conversation : Bool
  pub auto_running : Bool
  pub shift_key_down : Bool
  pub follow_time : ℕ
  pub short_press_threshold : ℕ
  pub can_clicked_distance : ℕ
  pub auto_run_acceptance_radius : ℕ
  pub cached_destination : ℕ
  pub spline : List ℕ
  -- `none` without an ability system component; then nothing blocks.
  pub asc : Option Blocks
  pub calls : List Call

abbrev pub mark : ℕ → Bool → (ℕ → Bool) → ℕ → Bool
mark i b old j = if i == j then b else old j

-- `HighlightActor` and `UnHighlightActor`.
abbrev pub set_highlight : Bool → Option Actor → (ℕ → Bool) → ℕ → Bool
set_highlight b none old = old
set_highlight b (some a) old = if a.is_highlightable then mark a.id b old else old

abbrev pub is_highlightable_actor : Option Actor → Bool
is_highlightable_actor none = false
is_highlightable_actor (some a) = a.is_highlightable

abbrev pub same_actor : Option Actor → Option Actor → Bool
same_actor none none = true
same_actor (some a) (some b) = a.id == b.id
same_actor _ _ = false

abbrev pub pointed : Option Actor → Option Actor
pointed hit = if is_highlightable_actor hit then hit else none

abbrev pub is_blocked : (Blocks → Bool) → Option Blocks → Bool
is_blocked tag none = false
is_blocked tag (some b) = tag b

-- A trace that is blocked. The test stands before the reset of the last actor only.
abbrev pub trace_blocked : Controller → Controller
trace_blocked c = record c {
  highlighted = set_highlight false c.this_actor (set_highlight false c.last_actor c.highlighted);
  last_actor = if is_highlightable_actor c.this_actor then none else c.last_actor;
  this_actor = none;
}

abbrev pub trace_hit : Option Actor → Controller → Controller
trace_hit hit c =
    let next = pointed hit in
    record c {
      last_actor = c.this_actor;
      this_actor = next;
      highlighted =
          if same_actor c.this_actor next
          then c.highlighted
          else set_highlight true next (set_highlight false c.this_actor c.highlighted);
    }

abbrev pub trace_found : Option (Option Actor) → Controller → Controller
trace_found none c = c
trace_found (some hit) c = trace_hit hit c

-- `CursorTrace`; `none` is a cursor over nothing that blocks, and `some none` over no actor.
unfoldable pub cursor_trace : Option (Option Actor) → Controller → Controller
cursor_trace found c =
    if is_blocked (λ b. b.cursor_trace) c.asc then trace_blocked c else trace_found found c

abbrev pub tell : Call → Controller → Controller
tell call c = record c { calls = c.calls ++ (call ∷ []) }

abbrev pub tell_to : Option Blocks → Call → Controller → Controller
tell_to none call c = c
tell_to (some b) call c = tell call c

abbrev pub tell_asc : Call → Controller → Controller
tell_asc call c = tell_to c.asc call c

abbrev stop_and_press : ℕ → Controller → Controller
stop_and_press lmb c = tell_asc (input_pressed lmb) (record c { auto_running = false })

abbrev pub press_on : ℕ → Option Actor → Controller → Controller
press_on lmb none c = stop_and_press lmb (record c { targeting_status = not_targeting })
press_on lmb (some a) c =
    let aimed = record c {
      targeting_status = if a.is_enemy then targeting_enemy else targeting_non_enemy;
    } in
    if a.is_npc && leb a.distance c.can_clicked_distance
    then tell (start_dialogue a.id) (record aimed { in_conversation = true })
    else stop_and_press lmb aimed

-- `AbilityInputTagPressed`, of the left mouse button and of other tags.
unfoldable pub ability_input_tag_pressed : (lmb tag : ℕ) → Controller → Controller
ability_input_tag_pressed lmb tag c =
    if is_blocked (λ b. b.input_pressed) c.asc
    then c
    else (if tag == lmb
        then (if c.in_conversation then c else press_on lmb c.this_actor c)
        else tell_asc (input_pressed tag) c)

abbrev pub targets_enemy : TargetingStatus → Bool
targets_enemy targeting_enemy = true
targets_enemy targeting_non_enemy = false
targets_enemy not_targeting = false

abbrev place_or : ℕ → Option ℕ → ℕ
place_or old none = old
place_or old (some place) = place

abbrev pub follow : Option ℕ → ℕ → Controller → Controller
follow hit delta c =
    let destination = place_or c.cached_destination hit in
    tell (move_towards destination)
      (record c { follow_time = c.follow_time + delta; cached_destination = destination })

-- `AbilityInputTagHeld`; `hit` is the place under the cursor, and `delta` the time since the last frame.
unfoldable pub ability_input_tag_held :
    (lmb tag : ℕ) → Option ℕ → (delta : ℕ) → Controller → Controller
ability_input_tag_held lmb tag hit delta c =
    if is_blocked (λ b. b.input_held) c.asc
    then c
    else (if not (tag == lmb) || targets_enemy c.targeting_status || c.shift_key_down
        then tell_asc (input_held tag) c
        else (if c.in_conversation then c else follow hit delta c))

abbrev last_point : ℕ → List ℕ → ℕ
last_point p [] = p
last_point p (q ∷ qs) = last_point q qs

abbrev run_along : Option (List ℕ) → Controller → Controller
run_along none c = c
run_along (some []) c = record c { spline = [] }
run_along (some (p ∷ ps)) c = record c {
  spline = p ∷ ps;
  cached_destination = last_point p ps;
  auto_running = true;
}

-- The destination of a click: that of an actor that is highlighted, or the cursor's, with an effect.
abbrev click_at : Option Actor → Controller → Controller
click_at none c = elim c.asc [
  | none ↦ c
  | some b ↦ if b.input_pressed then c else tell (spawn_click c.cached_destination) c
]
click_at (some a) c = elim a.move_to [
  | none ↦ c
  | some place ↦ record c { cached_destination = place }
]

abbrev pub release_click : (ℕ → Option (List ℕ)) → Controller → Controller
release_click path c =
    if leb c.follow_time c.short_press_threshold
    then (let clicked = click_at (pointed c.this_actor) c in
        run_along (path clicked.cached_destination) clicked)
    else c

abbrev pub end_click : (ℕ → Option (List ℕ)) → Controller → Controller
end_click path c = record (release_click path c) {
  follow_time = 0;
  targeting_status = not_targeting;
}

-- `AbilityInputTagReleased`; `path` is what navigation finds from the pawn to a place.
unfoldable pub ability_input_tag_released :
    (lmb tag : ℕ) → (ℕ → Option (List ℕ)) → Controller → Controller
ability_input_tag_released lmb tag path c =
    if is_blocked (λ b. b.input_released) c.asc
    then c
    else (let told = tell_asc (input_released tag) c in
        if not (tag == lmb)
          || targets_enemy c.targeting_status
          || c.shift_key_down
          || c.in_conversation
        then told
        else end_click path told)

-- `AutoRun`: `direction` and the distance to the destination are those of the spline.
unfoldable pub auto_run : (direction distance : ℕ) → Controller → Controller
auto_run direction distance c =
    if c.auto_running
    then (let moved = tell (move_towards direction) c in
        if leb distance c.auto_run_acceptance_radius
        then record moved { auto_running = false }
        else moved)
    else c
