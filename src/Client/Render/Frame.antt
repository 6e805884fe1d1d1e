-- ===== src/Client/Render/Frame.antt =====
-- The data of cmd/client/internal/ui/hud/hud.go.
use chattui.Common.{ℕ, ◌-◌, String, List, [], ◌∷◌, if◌then◌else◌, ltb}
use Prim.Native.String.{◌++◌}

-- Height
abbrev pub frame_height : ℕ
frame_height = 4

-- Status
pub data Status : Type 0 where
  offline connecting live : Status

-- Session
pub record Session : Type 0 where
  pub username : String
  pub status : Status

abbrev pub set_status : Status → Session → Session
set_status s session = record session { status = s }

abbrev pub set_username : String → Session → Session
set_username name session = record session { username = name }

-- Key
pub record Hint : Type 0 where
  pub key : String
  pub label : String

-- Frame, with the badges of the three tabs as a function.
pub record Frame : Type 0 where
  pub width : ℕ
  pub height : ℕ
  pub active_tab : String
  pub badges : String → ℕ
  pub title : String
  pub subtitle : String
  pub keys : List Hint
  pub err : String
  pub notice : String

unfoldable pub body_height : ℕ → ℕ
body_height height = if ltb (height - frame_height) 1 then 1 else height - frame_height

-- strings.Join
abbrev pub join : String → List String → String
join sep [] = ""
join sep (x ∷ []) = x
join sep (x ∷ y ∷ r) = x ++ (sep ++ join sep (y ∷ r))
