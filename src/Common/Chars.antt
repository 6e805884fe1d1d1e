-- ===== src/Common/Chars.antt =====
-- The characters of a text.
use Prim.Native.Char.{Char}
use Prim.Native.String.{String, [], ◌∷◌}
use mathlib.Core.Path.{◌≡◌, refl, ap}
use mathlib.Core.List.{List, [] as none_left, ◌∷◌ as ◌then◌}
use text.Mathlib.TextBridge.{of_list}

unfoldable pub chars : String → List Char
chars [] = none_left
chars (c ∷ s) = c then chars s

pub chars-of_list : (l : List Char) → chars (of_list l) ≡ l
unfolding chars
chars-of_list none_left = refl
chars-of_list (c then l) = ap (λ (t : List Char). c then t) (chars-of_list l)
