-- ===== src/Client/Render/Transcript.antt =====
-- cmd/client/internal/ui/chatview/chatview.go, over the theme `t`. Times are in nanoseconds; the days
-- of a time zone and the formats of times are parameters.
use chattui.Common.{
  ℕ, ◌+◌, ◌-◌, ℤ, pos, negsuc, String, Bool, false, not, Option, none, some, List, [], ◌∷◌,
  ◌++◌ as append, map, if◌then◌else◌, ltb, nat_key, int_key, int_ltb, ◌==◌, ◌&&◌, ◌||◌, ◌≡◌, refl,
  sym, ap, ◌∙◌, Bool-cases, eqb_comm, and_comm, inl, inr,
}
use mathlib.Core.List.{append_assoc}
use Prim.Native.String.{◌++◌}
use chattui.Client.ChatView.{Shown}
use chattui.Client.Theme.Palettes.{Theme}
use chattui.Client.Render.{fg, fg_bold, wide, Lip}
use chattui.Client.Render.Components.{labeled_rule}

-- groupWindow, five minutes.
abbrev pub group_window : ℕ
group_window = 300000000000

abbrev pub later_by : ℕ → ℤ → ℤ
later_by k (pos n) = pos (n + k)
later_by k (negsuc n) = if ltb n k then pos (k - n - 1) else negsuc (n - k)

-- Of package time, with the color of a speaker in the theme.
pub record Kit : Type 0 where
  pub same_day : ℤ → ℤ → Bool
  pub now : ℤ
  pub yesterday : ℤ  -- now.AddDate(0, 0, -1)
  pub clock : ℤ → String  -- Format("15:04")
  pub date : ℤ → String  -- Format("Mon, 02 Jan")
  pub speaker_color : String → String

-- Less than the window later, and less than the window earlier.
abbrev pub near : Shown → Shown → Bool
near prev msg =
    int_ltb msg.at (later_by group_window prev.at) && int_ltb prev.at (later_by group_window msg.at)

unfoldable pub grouped : Shown → Shown → Bool
grouped prev msg = if prev.sender_id == msg.sender_id then near prev msg else false

abbrev pub body_width : ℕ → ℕ
body_width width = if ltb (width - 4) 10 then 10 else width - 4

module _ (L : Lip) (t : Theme) (kit : Kit) (me : ℤ) (width : ℕ) where
  abbrev pub day_label : ℤ → String
  day_label at =
      if kit.same_day at kit.now
      then "Today"
      else if kit.same_day at kit.yesterday
      then "Yesterday"
      else kit.date at

  unfoldable pub header : Shown → String
  header msg =
      let mine = msg.sender_id == me in
      let c = if mine then t.own_msg else kit.speaker_color msg.sender in
      let left =
        L.render (fg c) "●" ++ (" " ++ L.render (fg_bold c) (if mine then "you" else msg.sender)) in
      let stamp = L.render (fg t.subtle) (kit.clock msg.at) in
      let gap = width - L.width left - L.width stamp - 1 in
      if ltb gap 1 then " " ++ left else " " ++ (left ++ (L.repeat " " gap ++ stamp))

  abbrev pub body_lines : Shown → List String
  body_lines msg =
      map (λ line. "   " ++ line) (L.lines (wide (body_width width) (fg t.text)) msg.body)

  abbrev pub day_rule : Shown → List String
  day_rule msg = labeled_rule L t width (day_label msg.at) ∷ "" ∷ []

  -- What stands above a message, behind the one before it.
  abbrev pub separator : Option Shown → Shown → List String
  separator none msg = day_rule msg
  separator (some prev) msg =
      if kit.same_day prev.at msg.at
      then if grouped prev msg then [] else "" ∷ []
      else "" ∷ day_rule msg

  abbrev pub heading : Option Shown → Shown → List String
  heading none msg = header msg ∷ []
  heading (some prev) msg =
      if not (kit.same_day prev.at msg.at) || not (grouped prev msg) then header msg ∷ [] else []

  -- The loop of `Render`, behind the message before.
  unfoldable pub render_from : Option Shown → List Shown → List String
  unfolding header grouped
  render_from prev [] = []
  render_from prev (msg ∷ msgs) =
      append (separator prev msg)
        (append (heading prev msg) (append (body_lines msg) (render_from (some msg) msgs)))

  unfoldable pub render : List Shown → List String
  unfolding render_from
  render msgs = render_from none msgs

  -- The reference: a block is a first message, and those that follow it on the same day, each less
  -- than five minutes from the one before and from the same sender.
  abbrev joins : Shown → Shown → Bool
  joins prev msg = kit.same_day prev.at msg.at && grouped prev msg

  -- The rest of the first block, and the other blocks.
  unfoldable pub blocks : Shown → List Shown → List Shown × List (Shown × List Shown)
  blocks first [] = ([], [])
  blocks first (msg ∷ msgs) =
      let (rest, others) = blocks msg msgs in
      if joins first msg then (msg ∷ rest, others) else ([], (msg, rest) ∷ others)

  abbrev pub bodies : List Shown → List String
  bodies [] = []
  bodies (msg ∷ msgs) = append (body_lines msg) (bodies msgs)

  abbrev pub last_of : Shown → List Shown → Shown
  last_of first [] = first
  last_of first (msg ∷ msgs) = last_of msg msgs

  -- An empty line between two blocks, with the rule of the day where it is another one.
  abbrev pub between : Shown → Shown → List String
  between prev msg = "" ∷ (if kit.same_day prev.at msg.at then [] else day_rule msg)

  abbrev pub shown_blocks : Shown → List (Shown × List Shown) → List String
  shown_blocks prev [] = []
  shown_blocks prev ((first, rest) ∷ others) = append (between prev first) (
      header first
      ∷ append (body_lines first) (append (bodies rest) (shown_blocks (last_of first rest) others)))

  render_from-blocks :
      (first : Shown) (msgs : List Shown)
      → render_from (some first) msgs
        ≡ append
            (bodies (blocks first msgs).0)
            (shown_blocks (last_of first (blocks first msgs).0) (blocks first msgs).1)
  unfolding render_from blocks
  render_from-blocks first [] = refl
  render_from-blocks first (msg ∷ msgs) = elim (Bool-cases (kit.same_day first.at msg.at)) [
    | inl t ↦ elim (Bool-cases (grouped first msg)) [
      | inl t' ↦
          rw (t, t')
            (ap (append (body_lines msg)) (render_from-blocks msg msgs)
              ∙ sym (append_assoc (body_lines msg) (bodies (blocks msg msgs).0) _))
      | inr f' ↦
          rw (t, f', t)
            (ap (λ rest. "" ∷ header msg ∷ append (body_lines msg) rest)
              (render_from-blocks msg msgs))
    ]
    | inr f ↦
        rw (f, f)
          (ap (λ rest. "" ∷ append (day_rule msg) (header msg ∷ append (body_lines msg) rest))
            (render_from-blocks msg msgs))
  ]

  -- What `Render` shows, message by message, is what the blocks of the messages are: the rule of the
  -- first day, and then each block with one header and the bodies of all its messages, in order; an
  -- empty line stands between two blocks, with the rule of the day where the second begins another.
  pub render-eq_blocks :
      (first : Shown) (msgs : List Shown)
      → render (first ∷ msgs)
        ≡ append (day_rule first) (
            header first
            ∷ append (body_lines first) (
                append
                  (bodies (blocks first msgs).0)
                  (shown_blocks (last_of first (blocks first msgs).0) (blocks first msgs).1)))
  unfolding render
  render-eq_blocks first msgs =
      ap (λ rest. append (day_rule first) (header first ∷ append (body_lines first) rest))
        (render_from-blocks first msgs)

-- A gap breaks a block in both directions alike: a message that comes after one that is five minutes
-- newer starts a block, as one that is five minutes older does.
pub grouped_comm : (a b : Shown) → grouped a b ≡ grouped b a
unfolding grouped
grouped_comm a b =
    ap (λ c. if c then near a b else false) (eqb_comm a.sender_id b.sender_id)
    ∙ ap (λ c. if b.sender_id == a.sender_id then c else false)
        (and_comm (int_ltb b.at (later_by group_window a.at))
          (int_ltb a.at (later_by group_window b.at)))
