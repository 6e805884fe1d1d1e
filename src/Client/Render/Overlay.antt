-- ===== src/Client/Render/Overlay.antt =====
-- cmd/client/internal/ui/hud/overlay.go, over the theme `t`.
use chattui.Common.{
  ℕ, suc, ◌+◌, ◌-◌, ◌/◌, ◌≤◌, ◌<◌, String, Bool, true, false, Option, none, some, some-injective,
  List, [], ◌∷◌, if◌then◌else◌, ltb, leb, nat_key, ◌||◌, length, get_elem?, modify, length-modify,
  get_elem?-modify, ◌≡◌, refl, sym, ap, ◌∙◌, arith, Bool-cases, eqb-cases, inl, inr,
}
use mathlib.Core.Option
use Prim.Native.String.{◌++◌}
use chattui.Client.Theme.Palettes.{Theme}
use chattui.Client.Render.{Lip, IsLip}

module _ (L : Lip) (t : Theme) where
  -- The width of a block: that of its widest line.
  abbrev pub block_width : List String → ℕ
  block_width [] = 0
  block_width (l ∷ ls) =
      let rest = block_width ls in if ltb rest (L.width l) then L.width l else rest

  -- A line of the body with a line of the box over it.
  abbrev pub covered : ℕ → ℕ → String → String → String
  covered x box_width box_line line =
      let left = L.truncate line x "" in
      (left ++ L.repeat " " (x - L.width left))
      ++ (box_line ++ L.truncate_left line (x + box_width))

  -- The loop over the lines of the box, from the row on.
  unfoldable pub cover : ℕ → ℕ → ℕ → List String → List String → List String
  cover x box_width row [] lines = lines
  cover x box_width row (b ∷ box) lines =
      cover x box_width (suc row) box (modify row (covered x box_width b) lines)

  unfoldable pub overlay : List String → List String → ℕ → ℕ → List String
  unfolding cover
  overlay body box width height =
      let box_width = block_width box in
      if leb width box_width || ltb height (length box)
      then L.clip width height (L.place width height box)
      else cover ((width - box_width) / 2) box_width ((height - length box) / 2) box
          (L.fill width height body)

  -- The line of the box over a row.
  abbrev pub box_line_at : ℕ → List String → ℕ → Option String
  box_line_at row box i = if leb row i then get_elem? box (i - row) else none

  -- A row with a line of the box over it, or as it was.
  abbrev pub over : ℕ → ℕ → Option String → Option String → Option String
  over x box_width none line = line
  over x box_width (some b) line = Option.map (covered x box_width b) line

  box_line_at-nil : (row i : ℕ) → box_line_at row [] i ≡ none
  box_line_at-nil row i = ground arith

  box_line_at_self :
      (b : String) (box : List String) (row : ℕ) → box_line_at row (b ∷ box) row ≡ some b
  box_line_at_self b box row =
      let t : leb row row ≡ true = ground arith in
      let z : row - row ≡ 0 = omega arith in rw (t, z) refl

  box_line_at-before : (box : List String) (row i : ℕ) → i < row → box_line_at row box i ≡ none
  box_line_at-before box row i h = let f : leb row i ≡ false = ground arith in rw f refl

  box_line_at-after :
      (b : String) (box : List String) (row i : ℕ)
      → row < i
      → box_line_at row (b ∷ box) i ≡ box_line_at (suc row) box i
  box_line_at-after b box row i h =
      let t : leb row i ≡ true = ground arith in
      let t' : leb (suc row) i ≡ true = ground arith in
      let e : i - row ≡ suc (i - suc row) = omega arith in rw (t, t', e) refl

  cover-at :
      (x w row : ℕ) (box lines : List String) (i : ℕ)
      → get_elem? (cover x w row box lines) i ≡ over x w (box_line_at row box i) (get_elem? lines i)
  unfolding cover
  cover-at x w row [] lines i = rw (box_line_at-nil row i) refl
  cover-at x w row (b ∷ box) lines i =
      cover-at x w (suc row) box (modify row (covered x w b) lines) i ∙ elim (eqb-cases i row) [
        | inl (t, e) ↦
            rw
              (
                get_elem?-modify lines i row (covered x w b),
                t,
                box_line_at-before box (suc row) i (omega arith),
                e,
                box_line_at_self b box row,
              )
              refl
        | inr (f, n) ↦ elim (Bool-cases (ltb i row)) [
          | inl t ↦
              rw
                (
                  get_elem?-modify lines i row (covered x w b),
                  f,
                  box_line_at-before box (suc row) i (ground (arith, t)),
                  box_line_at-before (b ∷ box) row i (ground (arith, t)),
                )
                refl
          | inr g ↦
              rw
                (
                  get_elem?-modify lines i row (covered x w b),
                  f,
                  box_line_at-after b box row i (ground (arith, f, g)),
                )
                refl
        ]
      ]

  length-cover :
      (x w row : ℕ) (box lines : List String) → length (cover x w row box lines) ≡ length lines
  unfolding cover
  length-cover x w row [] lines = refl
  length-cover x w row (b ∷ box) lines =
      length-cover x w (suc row) box (modify row (covered x w b) lines)
      ∙ length-modify row (covered x w b) lines

  -- A narrow line that a narrow one of the box crosses is as wide as it was.
  covered-width :
      {narrow : String → Bool}
      → IsLip L narrow
      → (x w : ℕ) (b line : String) → narrow b ≡ true
      → narrow line ≡ true
      → L.width b ≡ w
      → x + w ≤ L.width line
      → L.width (covered x w b line) ≡ L.width line
  covered-width laws x w b line nb nl e h =
      let left = L.truncate line x "" in
      let right = L.truncate_left line (x + w) in
      let pad = L.repeat " " (x - L.width left) in
      let np = laws.narrow-space (x - L.width left) in
      let nt = laws.narrow-truncate line "" x nl laws.narrow-nothing in
      let nr = laws.narrow-truncate_left line (x + w) nl in
      omega (
        arith,
        laws.width-append (left ++ pad) (b ++ right) (laws.narrow-append left pad nt np)
            (laws.narrow-append b right nb nr),
        laws.width-append left pad nt np,
        laws.width-append b right nb nr,
        laws.width-space (x - L.width left),
        laws.truncate-fits line "" x nl laws.narrow-nothing (omega (arith, laws.width-nothing)),
        laws.width-truncate_left line (x + w) (L.width line - (x + w)) nl (omega arith),
      )

  -- Every line of the box is as wide as the box.
  abbrev pub IsBlock : List String → Type 0
  IsBlock box = (i : ℕ) (b : String) → get_elem? box i ≡ some b → L.width b ≡ block_width box

  abbrev pub AllNarrow : (String → Bool) → List String → Type 0
  AllNarrow narrow lines =
      (i : ℕ) (line : String) → get_elem? lines i ≡ some line → narrow line ≡ true

  over-width :
      {narrow : String → Bool}
      → IsLip L narrow
      → (x w width : ℕ) (b line : Option String) (shown : String)
      → ((c : String) → b ≡ some c → (narrow c ≡ true) × (L.width c ≡ w))
      → ((l : String) → line ≡ some l → (narrow l ≡ true) × (L.width l ≡ width))
      → x + w ≤ width
      → over x w b line ≡ some shown
      → L.width shown ≡ width
  over-width laws x w width none line shown hb hl fits e = (hl shown e).1
  over-width laws x w width (some b) none shown hb hl fits e = absurd (cc)
  over-width laws x w width (some b) (some line) shown hb hl fits e =
      let same : covered x w b line ≡ shown = some-injective _ _ e in
      let (nl, full) = hl line refl in
      let (nb, as_wide) = hb b refl in
      sym (ap L.width same) ∙ covered-width laws x w b line nb nl as_wide (omega arith) ∙ full

  box_line_at-in :
      (row : ℕ) (box : List String) (i : ℕ) (c : String)
      → box_line_at row box i ≡ some c
      → get_elem? box (i - row) ≡ some c
  box_line_at-in row box i c e = elim (Bool-cases (leb row i)) [
    | inl t ↦ rw t at e
    | inr f ↦ absurd (cc (rw f at e))
  ]

  -- Where narrow lines, with one cell for each character, are as wide as lipgloss documents: a box of
  -- narrow lines that fits, all of which are as wide as it is, is laid over a body of narrow lines
  -- without changing the number of rows or the width of any; a row that the box crosses shows the
  -- line of the box between what is left and right of it, and every other row is as it was.
  pub overlay_keeps_frame :
      {narrow : String → Bool}
      → IsLip L narrow
      → (body box : List String) (width height i : ℕ) → AllNarrow narrow body
      → AllNarrow narrow box
      → IsBlock box
      → block_width box < width
      → length box ≤ height
      → (let x = (width - block_width box) / 2 in
          let y = (height - length box) / 2 in
          let shown = overlay body box width height in
          let rows = L.fill width height body in
          (length shown ≡ length rows)
          × (get_elem? shown i ≡ over x (block_width box) (box_line_at y box i) (get_elem? rows i))
          × ((line : String) → get_elem? shown i ≡ some line → L.width line ≡ width))
  unfolding overlay
  overlay_keeps_frame laws body box width height i thin thin_box block fits low =
      let w = block_width box in
      let x = (width - w) / 2 in
      let y = (height - length box) / 2 in
      let rows = L.fill width height body in
      let wide : leb width w ≡ false = ground arith in
      let high : ltb height (length box) ≡ false = ground arith in
      let at = cover-at x w y box rows i in
      rw (wide, high)
        (
          length-cover x w y box rows,
          at,
          λ line e.
              over-width laws x w width _ _ line
                (λ c h.
                  let h' = box_line_at-in y box i c h in
                  (thin_box (i - y) c h', block (i - y) c h'))
                (laws.fills width height body thin (omega arith) i) (omega arith) (sym at ∙ e),
        )
