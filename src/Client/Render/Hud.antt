-- ===== src/Client/Render/Hud.antt =====
-- cmd/client/internal/ui/hud/hud.go, over the theme `t` and the session that the app keeps.
use chattui.Common.{
  ℕ, ◌+◌, ◌-◌, ◌≤◌, ◌<◌, String, Bool, true, false, List, [], ◌∷◌, ◌++◌ as append, if◌then◌else◌,
  ltb, nat_key, string_key, ◌==◌, length, length-append, map, ◌≡◌, refl, arith, Bool-cases, inl,
  inr,
}
use Prim.Native.String.{◌++◌}
use chattui.Client.Theme.Palettes.{Theme}
use chattui.Client.Render.Frame.{
  Status, offline, connecting, live, Session, Hint, Frame, body_height, join,
}
use chattui.Client.Render.{new_style, fg, fg_bold, on, wide, Lip, IsLip}

module _ (L : Lip) (t : Theme) (session : Session) where
  abbrev pub chip : Status → String × String
  chip live = (t.success, "live")
  chip connecting = (t.gold, "connecting")
  chip offline = (t.error, "offline")

  abbrev pub status_chip : String
  status_chip =
      let (c, label) = chip session.status in
      L.render (fg c) "●" ++ (" " ++ L.render (fg t.subtle) label)

  abbrev pub tab : Frame → String → String
  tab f name =
      if name == f.active_tab
      then L.render (record (on t.accent (fg_bold t.base)) { padded = true }) name
      else L.render (record new_style { padded = true })
          (if f.badges name == 0
            then L.render (fg t.subtle) name
            else L.render (fg t.text) name
              ++ (" " ++ L.render (fg_bold t.gold) (L.decimal (f.badges name))))

  abbrev pub tabs : Frame → String
  tabs f = join (L.render (fg t.surface) "·") (map (tab f) ("Rooms" ∷ "DMs" ∷ "Inbox" ∷ []))

  abbrev pub center : Frame → String
  center f =
      if f.active_tab == ""
      then if f.subtitle == ""
        then L.render (fg_bold t.accent) f.title
        else L.render (fg_bold t.accent) f.title ++ ("  " ++ L.render (fg t.subtle) f.subtitle)
      else tabs f

  abbrev pub left_part : Frame → String
  left_part f =
      " "
      ++ ((L.render (fg_bold t.accent) "◆" ++ L.render (fg_bold t.text) " chattui")
          ++ ("   " ++ center f))

  abbrev pub session_part : String
  session_part =
      if session.username == ""
      then status_chip
      else status_chip ++ ("  " ++ L.render (fg t.subtle) ("@" ++ session.username))

  -- The cells between the two parts, but for one behind the right one.
  abbrev pub gap : ℕ → String → String → ℕ
  gap width left right = width - L.width left - L.width right - 1

  abbrev pub spread : ℕ → String → String → String
  spread width left right = left ++ (L.repeat " " (gap width left right) ++ (right ++ " "))

  -- The longer right part where it fits, or else the shorter one, or else the left part, cut.
  unfoldable pub bar_line : ℕ → String → String → String → String
  bar_line width left long short =
      if ltb (gap width left long) 1
      then if ltb (gap width left short) 1
        then L.truncate left width "…"
        else spread width left short
      else spread width left long

  unfoldable pub top_bar : Frame → ℕ → String
  unfolding bar_line
  top_bar f width = bar_line width (left_part f) session_part status_chip

  unfoldable pub notice_line : Frame → ℕ → String
  notice_line f width =
      if f.err == ""
      then if f.notice == ""
        then L.repeat " " width
        else L.render (wide width new_style)
            (" " ++ L.truncate (L.render (fg t.gold) ("• " ++ f.notice)) (width - 2) "…")
      else L.render (wide width new_style)
          (" " ++ L.truncate (L.render (fg t.error) ("✗ " ++ f.err)) (width - 2) "…")

  abbrev pub hint : Hint → String
  hint k =
      L.render (on t.surface (fg_bold t.accent)) k.key
      ++ L.render (on t.surface (fg t.subtle)) (" " ++ k.label)

  unfoldable pub key_bar : Frame → ℕ → String
  key_bar f width = L.render (on t.surface (wide width new_style)) (
      L.truncate (" " ++ join (L.render (on t.surface (fg t.subtle)) "   ") (map hint f.keys)) width
        "…")

  abbrev pub frame_width : Frame → ℕ
  frame_width f = if ltb f.width 20 then 20 else f.width

  -- `Frame.Render`: the lines of the screen around those of the body.
  unfoldable pub render_frame : Frame → List String → List String
  unfolding body_height top_bar notice_line key_bar
  render_frame f body =
      let width = frame_width f in
      top_bar f width
      ∷ L.render (fg t.surface) (L.repeat "─" width)
      ∷ append (L.box width (body_height f.height) body)
          (notice_line f width ∷ key_bar f width ∷ [])

  body_height-positive : (n : ℕ) → 0 < body_height n
  unfolding body_height
  body_height-positive n = ground arith

  length-render_frame :
      {narrow : String → Bool}
      → IsLip L narrow
      → (f : Frame) (body : List String)
      → length (render_frame f body) ≡ 2 + (body_height f.height + 2)
  unfolding render_frame
  length-render_frame laws f body =
      let width = frame_width f in
      let rest = notice_line f width ∷ key_bar f width ∷ [] in
      omega (
        arith,
        length-append (L.box width (body_height f.height) body) rest,
        laws.length-box width (body_height f.height) body (body_height-positive f.height),
      )

  spread-fits :
      {narrow : String → Bool}
      → IsLip L narrow
      → (width : ℕ) (left right : String) → narrow left ≡ true
      → narrow right ≡ true
      → ltb (gap width left right) 1 ≡ false
      → L.width (spread width left right) ≡ width
  spread-fits laws width left right nl nr h =
      let n = gap width left right in
      let room : 1 ≤ n = ground (arith, h) in
      let end = laws.narrow-append right " " nr laws.narrow-blank in
      omega (
        arith,
        laws.width-append left (L.repeat " " n ++ (right ++ " ")) nl
            (laws.narrow-append _ _ (laws.narrow-space n) end),
        laws.width-append (L.repeat " " n) (right ++ " ") (laws.narrow-space n) end,
        laws.width-append right " " nr laws.narrow-blank,
        laws.width-space n,
        laws.width-blank,
      )

  bar_line-fits :
      {narrow : String → Bool}
      → IsLip L narrow
      → (width : ℕ) (left long short : String) → narrow left ≡ true
      → narrow long ≡ true
      → narrow short ≡ true
      → 0 < width
      → L.width (bar_line width left long short) ≤ width
  unfolding bar_line
  bar_line-fits laws width left long short nl nb ns room =
      elim (Bool-cases (ltb (gap width left long) 1)) [
        | inl t ↦ rw t (elim (Bool-cases (ltb (gap width left short) 1)) [
          | inl t' ↦ rw t' (
              laws.truncate-fits left "…" width nl laws.narrow-ellipsis
                (omega (arith, laws.width-ellipsis)))
          | inr f' ↦ rw f' (omega (arith, spread-fits laws width left short nl ns f'))
        ])
        | inr f ↦ rw f (omega (arith, spread-fits laws width left long nl nb f))
      ]

  -- Where lines and boxes are as wide and as high as lipgloss documents: the frame of a terminal
  -- with at least five rows fills it exactly, whatever the body is, and its top bar, whose parts
  -- have narrow characters, is never wider than the frame.
  pub frame_fills_terminal :
      {narrow : String → Bool}
      → IsLip L narrow
      → (f : Frame) (body : List String) → narrow (left_part f) ≡ true
      → narrow session_part ≡ true
      → narrow status_chip ≡ true
      → 4 < f.height
      → (length (render_frame f body) ≡ f.height)
        × (L.width (top_bar f (frame_width f)) ≤ frame_width f)
  unfolding body_height top_bar
  frame_fills_terminal laws f body nl ns nc h =
      let below : ltb (f.height - 4) 1 ≡ false = ground arith in
      let rows : body_height f.height ≡ f.height - 4 = rw below refl in
      (
        omega (arith, length-render_frame laws f body, rows),
        bar_line-fits laws (frame_width f) (left_part f) session_part status_chip nl ns nc
            (ground arith),
      )
