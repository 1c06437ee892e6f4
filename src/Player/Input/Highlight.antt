-- ===== src/Player/Input/Highlight.antt =====
-- AuraPlayerController.cpp: which actors are highlighted.
use unreal5_gas.Base.{ℕ, ◌≡◌, Bool, true, false, Option, none, some, List, [], ◌∷◌, ◌==◌}
use unreal5_gas.Player.Input.{Actor, Controller, cursor_trace}

abbrev is_that : ℕ → Option Actor → Bool
is_that i none = false
is_that i (some a) = a.id == i

abbrev CanBeShown : Option Actor → Type 0
CanBeShown none = Unit
CanBeShown (some a) = a.is_highlightable ≡ true

-- Just the actor that is pointed at is highlighted, and it can be.
pub record IsShown (c : Controller) : Type 0 where
  pub shown : (i : ℕ) → c.highlighted i ≡ is_that i c.this_actor
  pub can : CanBeShown c.this_actor

-- Frame after frame.
unfoldable pub traces : List (Option (Option Actor)) → Controller → Controller
unfolding cursor_trace
traces [] c = c
traces (found ∷ more) c = traces more (cursor_trace found c)
