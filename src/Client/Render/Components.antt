-- ===== src/Client/Render/Components.antt =====
-- cmd/client/internal/ui/components/components.go, over the theme `t`. A width is a natural number,
-- so where Go tests a difference for less than 1, it is 0 here.
use chattui.Common.{
  ℕ, ◌+◌, ◌-◌, ◌/◌, ◌≤◌, String, Bool, true, false, List, [], ◌∷◌, if◌then◌else◌, ltb, leb, nat_key,
  Bool-cases, inl, inr, ◌==◌, ◌≡◌, arith,
}
use Prim.Native.String.{◌++◌}
use chattui.Client.Theme.Palettes.{Theme}
use chattui.Client.Render.{Style, new_style, fg, fg_bold, on, wide, Lip, IsLip}

module _ (L : Lip) (t : Theme) where
  -- The width that is left of the row, at least 1.
  abbrev pub inner_width : ℕ → ℕ
  inner_width width = if ltb (width - 3) 1 then 1 else width - 3

  abbrev pub bar : Bool → String
  bar true = L.render (fg t.accent) "▌" ++ " "
  bar false = L.repeat " " 2

  abbrev pub row_style : ℕ → Bool → Style
  row_style width true = on t.surface (wide width new_style)
  row_style width false = wide width new_style

  -- The left and the right block of a row, with the gap between them.
  unfoldable pub row_line : ℕ → String → String → String
  row_line width left right =
      let inner = inner_width width in
      let fits = leb 1 (inner - L.width right) in
      let right_text = if fits then right else "" in
      let right_width = if fits then L.width right else 0 in
      let left_width = if fits then inner - L.width right else 1 in
      let left_text = L.truncate left left_width "…" in
      let gap = inner - L.width left_text - right_width in
      left_text ++ (L.repeat " " gap ++ right_text)

  unfoldable pub row : ℕ → Bool → String → String → String
  unfolding row_line
  row width selected left right =
      L.render (row_style width selected) (bar selected ++ row_line width left right)

  unfoldable pub sub_row : ℕ → Bool → String → String
  sub_row width selected text =
      L.render (row_style width selected) (bar selected ++ L.truncate text (inner_width width) "…")

  unfoldable pub badge : ℕ → String
  badge count =
      if count == 0
      then ""
      else L.render (record (on t.accent (fg_bold t.base)) { padded = true })
          (if ltb 99 count then "99+" else L.decimal count)

  unfoldable pub rule : ℕ → String
  rule width = if ltb width 1 then "" else L.render (fg t.surface) (L.repeat "─" width)

  unfoldable pub labeled_rule : ℕ → String → String
  labeled_rule width label =
      let text = L.render (fg t.subtle) (" " ++ (label ++ " ")) in
      let side = (width - L.width text) / 2 in
      let line = L.render (fg t.surface) (L.repeat "─" side) in
      if ltb side 1 then text else line ++ (text ++ line)

  unfoldable pub empty : ℕ → ℕ → String → String → List String
  empty width height title hint =
      L.place width (if ltb height 3 then 3 else height)
        (L.render (fg_bold t.subtle) title ∷ "" ∷ L.render (fg t.subtle) hint ∷ [])

  -- Two texts with a gap between them.
  gap-width :
      {narrow : String → Bool}
      → IsLip L narrow
      → (a b : String) (n : ℕ) → narrow a ≡ true
      → narrow b ≡ true
      → L.width (a ++ (L.repeat " " n ++ b)) ≡ L.width a + (n + L.width b)
  gap-width laws a b n na nb = omega (
    arith,
    laws.width-append a (L.repeat " " n ++ b) na
        (laws.narrow-append (L.repeat " " n) b (laws.narrow-space n) nb),
    laws.width-append (L.repeat " " n) b (laws.narrow-space n) nb,
    laws.width-space n,
  )

  cut-fits :
      {narrow : String → Bool}
      → IsLip L narrow
      → (s : String) (n : ℕ) → narrow s ≡ true
      → 1 ≤ n
      → L.width (L.truncate s n "…") ≤ n
  cut-fits laws s n narrow room =
      laws.truncate-fits s "…" n narrow laws.narrow-ellipsis (omega (arith, laws.width-ellipsis))

  -- The text of a row takes exactly what is left of the row, however long its two narrow blocks are:
  -- a right block that leaves no cell is dropped, and the left one is cut.
  pub row_line-width :
      {narrow : String → Bool}
      → IsLip L narrow
      → (width : ℕ) (left right : String) → narrow left ≡ true
      → narrow right ≡ true
      → L.width (row_line width left right) ≡ inner_width width
  unfolding row_line
  row_line-width laws width left right nl nr =
      let inner = inner_width width in
      let positive : 1 ≤ inner = ground arith in
      elim (Bool-cases (leb 1 (inner - L.width right))) [
        | inl t ↦
            let cut = L.truncate left (inner - L.width right) "…" in
            let fits : 1 ≤ inner - L.width right = ground (arith, t) in
            rw t (
              omega (
                arith,
                gap-width laws cut right (inner - L.width cut - L.width right)
                    (laws.narrow-truncate left "…" _ nl laws.narrow-ellipsis) nr,
                cut-fits laws left (inner - L.width right) nl fits,
              ))
        | inr f ↦
            let cut = L.truncate left 1 "…" in
            rw f (
              omega (
                arith,
                gap-width laws cut "" (inner - L.width cut - 0)
                    (laws.narrow-truncate left "…" _ nl laws.narrow-ellipsis) laws.narrow-nothing,
                laws.width-nothing,
                cut-fits laws left 1 nl (omega arith),
              ))
      ]
