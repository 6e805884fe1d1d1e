-- ===== src/Client/Render/Tests.antt =====
-- A terminal on which a style shows nothing, and each character is one cell wide.
use chattui.Common.{
  ◌++◌ as append, ℕ, zero, suc, ◌+◌, ◌≤◌, pos, String, Bool, true, some, some-injective, List, [],
  ◌∷◌, length, get_elem?, take, replicate, int_key, ◌≡◌, refl, sym, ap, ◌∙◌, arith,
}
use Prim.Native.String as Text
use Prim.Native.String.append
use chattui.Client.ChatView.{Shown}
use chattui.Client.Theme.Palettes.{catppuccin_mocha}
use chattui.Client.Render.{Lip, IsLip}
use chattui.Client.Render.Frame.{Session, live, Frame}
use chattui.Client.Render.Overlay.{overlay, box_line_at, over, IsBlock, overlay_keeps_frame}
use chattui.Client.Render.Components.{labeled_rule}
use chattui.Client.Render.Transcript.{
  Kit, day_rule, header, blocks, grouped, render, render-eq_blocks,
}

abbrev cells : String → ℕ
cells Text.[] = 0
cells (Text.◌∷◌ c s) = suc (cells s)

abbrev repeated : String → ℕ → String
repeated s zero = Text.[]
repeated s (suc n) = Text.◌++◌ s (repeated s n)

abbrev front : String → ℕ → String
front Text.[] n = Text.[]
front (Text.◌∷◌ c s) zero = Text.[]
front (Text.◌∷◌ c s) (suc n) = Text.◌∷◌ c (front s n)

abbrev behind : String → ℕ → String
behind Text.[] n = Text.[]
behind (Text.◌∷◌ c s) zero = Text.◌∷◌ c s
behind (Text.◌∷◌ c s) (suc n) = behind s n

-- Empty lines, in place of what the block holds.
abbrev blank : ℕ → ℕ → List String → List String
blank w h lines = replicate h (repeated " " w)

abbrev plain : Lip
plain = record {
  render = λ st s. s;
  width = cells;
  repeat = repeated;
  truncate = λ s n tail. front s n;
  truncate_left = behind;
  decimal = repeated "1";
  lines = λ st s. s ∷ [];
  box = blank;
  fill = blank;
  clip = λ w h lines. take h lines;
  place = blank;
  bordered = λ st lines. lines;
}

cells-append : (a b : String) → cells (Text.◌++◌ a b) ≡ cells a + cells b
cells-append Text.[] b = omega (arith, ap cells (append.nil b))
cells-append (Text.◌∷◌ c a) b = omega (arith, ap cells (append.cons c a b), cells-append a b)

cells-repeated : (n : ℕ) → cells (repeated " " n) ≡ n
cells-repeated zero = refl
cells-repeated (suc n) = omega (arith, cells-append " " (repeated " " n), cells-repeated n)

cells-front : (s : String) (n : ℕ) → cells (front s n) ≤ n
cells-front Text.[] n = omega arith
cells-front (Text.◌∷◌ c s) zero = omega arith
cells-front (Text.◌∷◌ c s) (suc n) = omega (arith, cells-front s n)

cells-behind : (s : String) (n k : ℕ) → cells s ≡ n + k → cells (behind s n) ≡ k
cells-behind Text.[] n k h = omega arith
cells-behind (Text.◌∷◌ c s) zero k h = omega arith
cells-behind (Text.◌∷◌ c s) (suc n) k h = cells-behind s n k (omega arith)

cells-replicate :
    (h w i : ℕ) (line : String)
    → get_elem? (replicate h (repeated " " w)) i ≡ some line
    → cells line ≡ w
cells-replicate zero w i line e = absurd (cc)
cells-replicate (suc h) w zero line e = sym (ap cells (some-injective _ _ e)) ∙ cells-repeated w
cells-replicate (suc h) w (suc i) line e = cells-replicate h w i line e

length-replicate : (h : ℕ) (s : String) → length (replicate h s) ≡ h
length-replicate zero s = refl
length-replicate (suc h) s = ap suc (length-replicate h s)

-- All lines are narrow on it.
abbrev narrow : String → Bool
narrow s = true

plain-IsLip : IsLip plain narrow
plain-IsLip = record {
  narrow-append = λ a b na nb. refl;
  width-append = λ a b na nb. cells-append a b;
  narrow-space = λ n. refl;
  width-space = cells-repeated;
  narrow-blank = refl;
  width-blank = refl;
  narrow-ellipsis = refl;
  width-ellipsis = refl;
  narrow-nothing = refl;
  width-nothing = refl;
  narrow-truncate = λ s tail n ns nt. refl;
  truncate-fits = λ s tail n ns nt room. cells-front s n;
  narrow-truncate_left = λ s n ns. refl;
  width-truncate_left = λ s n k ns e. cells-behind s n k e;
  fills = λ w h lines thin some_width i line e. (refl, cells-replicate h w i line e);
  length-box = λ w h lines some_height. length-replicate h (repeated " " w);
}

abbrev session : Session
session = record { username = "ana"; status = live }

abbrev frame : Frame
frame = record {
  width = 80;
  height = 24;
  active_tab = "Rooms";
  badges = λ tab. 2;
  title = "";
  subtitle = "";
  keys = [];
  err = "";
  notice = "";
}

abbrev two_lines : List String
two_lines = "ab" ∷ "cd" ∷ []

two_lines-IsBlock : IsBlock plain catppuccin_mocha two_lines
two_lines-IsBlock zero b e = sym (ap cells (some-injective _ _ e))
two_lines-IsBlock (suc zero) b e = sym (ap cells (some-injective _ _ e))
two_lines-IsBlock (suc (suc i)) b e = absurd (cc)

abbrev overlaid : List String
overlaid = overlay plain catppuccin_mocha [] two_lines 6 4

overlay_keeps_frame_example :
    (length overlaid ≡ length (blank 6 4 []))
    × (get_elem? overlaid 1
        ≡ over plain catppuccin_mocha 2 2
            (box_line_at plain catppuccin_mocha 1 two_lines 1)
            (get_elem? (blank 6 4 []) 1))
    × ((line : String) → get_elem? overlaid 1 ≡ some line → cells line ≡ 6)
overlay_keeps_frame_example =
    overlay_keeps_frame plain catppuccin_mocha plain-IsLip [] two_lines 6 4 1 (λ i line e. refl)
      (λ i line e. refl) two_lines-IsBlock (omega arith) (omega arith)

row_one : get_elem? overlaid 1 ≡ some "  ab  "
unfolding overlay
row_one = refl

abbrev kit : Kit
kit = record {
  same_day = λ a b. true;
  now = pos 0;
  yesterday = pos 0;
  clock = λ a. "10:00";
  date = λ a. "day";
  speaker_color = λ s. "red";
}

abbrev message : String → Shown
message body = record { sender_id = pos 1; sender = "ana"; body = body; at = pos 5 }

one_block :
    render plain catppuccin_mocha kit (pos 2) 0 (message "a" ∷ message "b" ∷ [])
    ≡ " Today " ∷ "" ∷ " ● ana" ∷ "   a" ∷ "   b" ∷ []
unfolding render labeled_rule
one_block = refl

render-eq_blocks_example :
    render plain catppuccin_mocha kit (pos 2) 40 (message "a" ∷ message "b" ∷ [])
    ≡ append
        (day_rule plain catppuccin_mocha kit (pos 2) 40 (message "a"))
        (" ● ana                             10:00" ∷ "   a" ∷ "   b" ∷ [])
unfolding header blocks grouped
render-eq_blocks_example =
    render-eq_blocks plain catppuccin_mocha kit (pos 2) 40 (message "a") (message "b" ∷ [])
