-- ===== src/Client/Theme.antt =====
-- cmd/client/internal/ui/theme/theme.go: the names of the themes. A theme is its name.
pub mod Palettes
use chattui.Common.{String, List, [], ◌∷◌, if◌then◌else◌, ◌==◌, ◌||◌, string_key}

abbrev pub names : List String
names = "catppuccin" ∷ "rose-pine" ∷ "kanagawa" ∷ []

-- The name of `Current` behind `SetTheme(name)`.
unfoldable pub set_theme : String → String
set_theme name =
    if name == "rose-pine" || name == "rosepine"
    then "rose-pine"
    else if name == "kanagawa" || name == "kanagawa-dragon"
    then "kanagawa"
    else "catppuccin"
