-- ===== src/Client/Render.antt =====
-- What cmd/client/internal/ui/{components,hud,chatview} use of lipgloss and x/ansi: a style that a
-- line of text is rendered in, the width of a line, and cutting one. A block of text is the list of
-- its lines.
pub mod Components
pub mod Frame
pub mod Hud
pub mod Overlay
pub mod Help
pub mod Transcript
mod Tests
use chattui.Common.{
  ℕ, ◌+◌, ◌≤◌, ◌<◌, String, Bool, true, false, Option, none, some, List, length, get_elem?, ◌≡◌,
}
use Prim.Native.String.{◌++◌}

-- lipgloss.Style, as far as it is set. `padded` is Padding(0, 1).
pub record Style : Type 0 where
  pub foreground : Option String
  pub background : Option String
  pub bold : Bool
  pub italic : Bool
  pub padded : Bool
  pub width : Option ℕ

-- lipgloss.NewStyle() and its setters.
abbrev pub new_style : Style
new_style = record {
  foreground = none;
  background = none;
  bold = false;
  italic = false;
  padded = false;
  width = none;
}

abbrev pub fg : String → Style
fg c = record new_style { foreground = some c }

abbrev pub fg_bold : String → Style
fg_bold c = record new_style { foreground = some c; bold = true }

abbrev pub on : String → Style → Style
on c s = record s { background = some c }

abbrev pub wide : ℕ → Style → Style
wide n s = record s { width = some n }

pub record Lip : Type 0 where
  pub render : Style → String → String
  pub width : String → ℕ  -- lipgloss.Width
  pub repeat : String → ℕ → String  -- strings.Repeat
  pub truncate : String → ℕ → String → String  -- ansi.Truncate
  pub truncate_left : String → ℕ → String
  pub decimal : ℕ → String  -- "%d"
  pub lines : Style → String → List String  -- a text that the style's width wraps
  pub box : ℕ → ℕ → List String → List String  -- Width, Height and MaxHeight
  pub fill : ℕ → ℕ → List String → List String  -- Width and Height
  pub clip : ℕ → ℕ → List String → List String  -- MaxWidth and MaxHeight
  pub place : ℕ → ℕ → List String → List String  -- lipgloss.Place at the center
  pub bordered : Style → List String → List String  -- a rounded border with Padding(1, 3)

-- The widths of lines, as the two packages document them. `narrow` tells the lines in which each
-- character that shows is one cell wide, and which hold no line end and no other control character
-- but those of styles; other lines have wide characters, of which a cut can split none, and nothing
-- is asked of them. An ellipsis and a space are narrow.
pub record IsLip (L : Lip) (narrow : String → Bool) : Type 0 where
  pub narrow-append : (a b : String) → narrow a ≡ true → narrow b ≡ true → narrow (a ++ b) ≡ true
  pub width-append :
      (a b : String) → narrow a ≡ true → narrow b ≡ true → L.width (a ++ b) ≡ L.width a + L.width b
  pub narrow-space : (n : ℕ) → narrow (L.repeat " " n) ≡ true
  pub width-space : (n : ℕ) → L.width (L.repeat " " n) ≡ n
  pub narrow-blank : narrow " " ≡ true
  pub width-blank : L.width " " ≡ 1
  pub narrow-ellipsis : narrow "…" ≡ true
  pub width-ellipsis : L.width "…" ≡ 1
  pub narrow-nothing : narrow "" ≡ true
  pub width-nothing : L.width "" ≡ 0
  pub narrow-truncate :
      (s tail : String) (n : ℕ)
      → narrow s ≡ true
      → narrow tail ≡ true
      → narrow (L.truncate s n tail) ≡ true
  pub truncate-fits :
      (s tail : String) (n : ℕ)
      → narrow s ≡ true
      → narrow tail ≡ true
      → L.width tail ≤ n
      → L.width (L.truncate s n tail) ≤ n
  pub narrow-truncate_left :
      (s : String) (n : ℕ) → narrow s ≡ true → narrow (L.truncate_left s n) ≡ true
  pub width-truncate_left :
      (s : String) (n k : ℕ)
      → narrow s ≡ true
      → L.width s ≡ n + k
      → L.width (L.truncate_left s n) ≡ k
  pub fills :
      (w h : ℕ) (lines : List String)
      → ((i : ℕ) (line : String) → get_elem? lines i ≡ some line → narrow line ≡ true)
      → 0 < w
      → (i : ℕ) (line : String) → get_elem? (L.fill w h lines) i ≡ some line
      → (narrow line ≡ true) × (L.width line ≡ w)
  pub length-box : (w h : ℕ) (lines : List String) → 0 < h → length (L.box w h lines) ≡ h
