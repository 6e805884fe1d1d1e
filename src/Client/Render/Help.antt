-- ===== src/Client/Render/Help.antt =====
-- The boxes of cmd/client/internal/ui/hud/overlay.go: a modal one, and the reference of the keys.
use chattui.Common.{
  ℕ, ◌+◌, ◌-◌, ◌/◌, String, true, some, List, [], ◌∷◌, ◌++◌ as append, length, take, drop, map,
}
use Prim.Native.String.{◌++◌}
use chattui.Client.Theme.Palettes.{Theme}
use chattui.Client.Render.{fg, fg_bold, Lip}
use chattui.Client.Render.Frame.{Hint}
use chattui.Client.Render.Overlay.{block_width}

-- HelpSection
pub record HelpSection : Type 0 where
  pub title : String
  pub keys : List Hint

module _ (L : Lip) (t : Theme) where
  unfoldable pub modal : String → List String → List String
  modal title content = L.bordered (fg t.accent) (
      L.render (fg_bold t.accent) title
      ∷ L.render (fg t.surface) (L.repeat "─" (block_width L t content))
      ∷ ""
      ∷ content)

  -- Two blocks side by side, the left one padded to `width`.
  unfoldable pub beside : ℕ → String → List String → List String → List String
  beside width gap [] [] = []
  beside width gap (l ∷ ls) [] =
      (l ++ (L.repeat " " (width - L.width l) ++ gap)) ∷ beside width gap ls []
  beside width gap [] (r ∷ rs) =
      (L.repeat " " (width - L.width "") ++ (gap ++ r)) ∷ beside width gap [] rs
  beside width gap (l ∷ ls) (r ∷ rs) =
      (l ++ (L.repeat " " (width - L.width l) ++ (gap ++ r))) ∷ beside width gap ls rs

  unfoldable pub join_columns : List String → List String → String → List String
  unfolding beside
  join_columns left right gap = beside (block_width L t left) gap left right

  abbrev pub key_line : Hint → String
  key_line k =
      L.render (record (fg_bold t.accent) { width = some 12 }) k.key ++ L.render (fg t.text) k.label

  -- The lines of some sections, with an empty one between two of them.
  abbrev pub column : List HelpSection → List String
  column [] = []
  column (s ∷ []) = L.render (fg_bold t.gold) s.title ∷ map key_line s.keys
  column (s ∷ r ∷ rest) =
      append (L.render (fg_bold t.gold) s.title ∷ map key_line s.keys) ("" ∷ column (r ∷ rest))

  unfoldable pub help : List HelpSection → List String
  unfolding join_columns modal
  help sections =
      let split = (length sections + 1) / 2 in
      modal "Keys" (
        append (join_columns (column (take split sections)) (column (drop split sections)) "    ")
          ("" ∷ L.render (record (fg t.subtle) { italic = true }) "? or esc to close" ∷ []))
