-- ===== src/Room/Slug.antt =====
-- `slugify` of cmd/server/internal/room/service.go. What is a space and what is a letter in lower
-- case is Unicode's, so `unicode.IsSpace` and `unicode.ToLower` are parameters.
pub mod Laws
use chattui.Common.{chars, Bool, List, [], ◌∷◌, ◌++◌, map, reverse, if◌then◌else◌}
use Prim.Native.Char.{Char, char}
use Prim.Native.String.{String}
use text.Mathlib.TextBridge.{of_list}

abbrev pub dash : Char
dash = char 45 tt

-- A character in front of the first word.
unfoldable pub onto : Char → List (List Char) → List (List Char)
onto c [] = (c ∷ []) ∷ []
onto c (w ∷ ws) = (c ∷ w) ∷ ws

-- `strings.Join(words, "-")`
unfoldable pub join : List (List Char) → List Char
join [] = []
join (w ∷ []) = w
join (w ∷ v ∷ ws) = w ++ dash ∷ join (v ∷ ws)

unfoldable pub filled : List (List Char) → List (List Char)
filled [] = []
filled ([] ∷ ws) = filled ws
filled ((c ∷ w) ∷ ws) = (c ∷ w) ∷ filled ws

module _ (is_space : Char → Bool) (lower : Char → Char) where
  unfoldable pub drop_spaces : List Char → List Char
  drop_spaces [] = []
  drop_spaces (c ∷ cs) = if is_space c then drop_spaces cs else c ∷ cs

  -- `strings.TrimSpace`
  unfoldable pub trim_space : List Char → List Char
  unfolding drop_spaces
  trim_space cs = reverse (drop_spaces (reverse (drop_spaces cs)))

  -- The pieces between the spaces, empty ones included.
  unfoldable pub split : List Char → List (List Char)
  unfolding onto
  split [] = [] ∷ []
  split (c ∷ cs) = let rest = split cs in if is_space c then [] ∷ rest else onto c rest

  -- `strings.Fields`
  unfoldable pub fields : List Char → List (List Char)
  unfolding split filled
  fields cs = filled (split cs)

  unfoldable pub slug : List Char → List Char
  unfolding join fields trim_space
  slug cs = join (fields (map lower (trim_space cs)))

  unfoldable pub slugify : String → String
  unfolding slug
  slugify s = of_list (slug (chars s))
