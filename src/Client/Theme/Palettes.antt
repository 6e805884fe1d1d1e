-- ===== src/Client/Theme/Palettes.antt =====
-- cmd/client/internal/ui/theme/theme.go: the palettes, the color of a speaker, and the theme that is
-- loaded. A color is its text; what is read from the file and the lowering of a text are parameters.
use chattui.Common.{
  ℕ, ◌*◌, ◌%◌, zero, suc, String, Option, none, some, List, [], ◌∷◌, length, get_elem?, nat_key,
  Bool-cases, inl, inr, arith, ◌≡◌, refl, ◌<◌, if◌then◌else◌, ◌==◌, string_key,
}
use Prim.Native.Nat.{bit_xor}
use chattui.Client.Theme.{set_theme}

-- Theme
pub record Theme : Type 0 where
  pub name : String
  pub base : String
  pub surface : String
  pub overlay : String
  pub text : String
  pub subtle : String
  pub accent : String
  pub second : String
  pub gold : String
  pub error : String
  pub success : String
  pub own_msg : String
  pub other_msg : String
  pub speakers : List String

abbrev pub catppuccin_mocha : Theme
catppuccin_mocha = record {
  name = "catppuccin";
  base = "#1e1e2e";
  surface = "#313244";
  overlay = "#45475a";
  text = "#cdd6f4";
  subtle = "#6c7086";
  accent = "#cba6f7";
  second = "#89b4fa";
  gold = "#f9e2af";
  error = "#f38ba8";
  success = "#a6e3a1";
  own_msg = "#94e2d5";
  other_msg = "#89dceb";
  speakers =
      "#89dceb" ∷ "#f5c2e7" ∷ "#a6e3a1" ∷ "#fab387" ∷ "#89b4fa" ∷ "#f9e2af" ∷ "#cba6f7" ∷ "#94e2d5"
      ∷ [];
}

abbrev pub rose_pine : Theme
rose_pine = record {
  name = "rose-pine";
  base = "#191724";
  surface = "#1f1d2e";
  overlay = "#26233a";
  text = "#e0def4";
  subtle = "#6e6a86";
  accent = "#c4a7e7";
  second = "#9ccfd8";
  gold = "#f6c177";
  error = "#eb6f92";
  success = "#9ccfd8";
  own_msg = "#ebbcba";
  other_msg = "#c4a7e7";
  speakers =
      "#9ccfd8" ∷ "#ebbcba" ∷ "#c4a7e7" ∷ "#f6c177" ∷ "#eb6f92" ∷ "#31748f" ∷ "#e0def4" ∷ "#908caa"
      ∷ [];
}

abbrev pub kanagawa_dragon : Theme
kanagawa_dragon = record {
  name = "kanagawa";
  base = "#181616";
  surface = "#282727";
  overlay = "#393836";
  text = "#c5c9c5";
  subtle = "#727169";
  accent = "#7e9cd8";
  second = "#7fb4ca";
  gold = "#e6c384";
  error = "#c34043";
  success = "#98bb6c";
  own_msg = "#d27e99";
  other_msg = "#7fb4ca";
  speakers =
      "#7fb4ca" ∷ "#d27e99" ∷ "#98bb6c" ∷ "#e6c384" ∷ "#7e9cd8" ∷ "#c0a36e" ∷ "#a292a3" ∷ "#8ea4a2"
      ∷ [];
}

-- `Current` behind `SetTheme(name)`.
abbrev pub named : String → Theme
named name =
    if name == "rose-pine"
    then rose_pine
    else if name == "kanagawa"
    then kanagawa_dragon
    else catppuccin_mocha

abbrev pub current : String → Theme
current name = named (set_theme name)

-- `Load`: the text of the file, if it can be read, without the space around it, and the fallback.
unfoldable pub load : Option String → String → Theme
unfolding set_theme
load none fallback = current fallback
load (some saved) fallback = if saved == "" then current fallback else current saved

-- One byte of the 32-bit FNV-1a hash: it is mixed in, and the sum is multiplied.
abbrev pub mix : ℕ → ℕ → ℕ
mix h b = (bit_xor h b * 16777619) % 4294967296

abbrev pub sum32 : List ℕ → ℕ → ℕ
sum32 [] h = h
sum32 (b ∷ bs) h = sum32 bs (mix h b)

-- `SpeakerColor`: the bytes are those of the name in lower case; no color stands for an index out of
-- range, at which Go panics. An int has 64 bits.
unfoldable pub speaker_color : Theme → List ℕ → Option String
speaker_color t bytes =
    if length t.speakers == 0
    then some t.other_msg
    else get_elem? t.speakers (sum32 bytes 2166136261 % length t.speakers)

get_elem?-in : (cs : List String) (i : ℕ) → i < length cs → (c : String) × (get_elem? cs i ≡ some c)
get_elem?-in [] i h = absurd (omega arith)
get_elem?-in (c ∷ cs) zero h = (c, refl)
get_elem?-in (c ∷ cs) (suc i) h = get_elem?-in cs i (omega arith)

-- Every name has a color, in every theme.
pub speaker_color-some :
    (t : Theme) (bytes : List ℕ) → (c : String) × (speaker_color t bytes ≡ some c)
unfolding speaker_color
speaker_color-some t bytes = elim (Bool-cases (length t.speakers == 0)) [
  | inl e ↦ (t.other_msg, rw e refl)
  | inr f ↦
      let (c, h) =
        get_elem?-in t.speakers (sum32 bytes 2166136261 % length t.speakers) (grind arith) in
      (c, rw f h)
]
