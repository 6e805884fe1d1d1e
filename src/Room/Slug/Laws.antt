-- ===== src/Room/Slug/Laws.antt =====
-- What `slugify` of cmd/server/internal/room/service.go makes of any name.
use chattui.Common.{
  chars, chars-of_list, Bool, false, Bool-cases, List, [], ◌∷◌, ◌++◌, map, reverse, ◌≡◌, refl, ap,
  inl, inr,
}
use mathlib.Core.List.{reverse-reverse, reverse-cons}
use Prim.Native.Char.{Char}
use Prim.Native.String.{String}
use text.Mathlib.TextBridge.{of_list}
use chattui.Room.Slug.{
  dash, onto, join, filled, drop_spaces, trim_space, split, fields, slug, slugify,
}

-- `P` of each character.
abbrev pub All : (Char → Type 0) → List Char → Type 0
All P [] = Unit {0}
All P (c ∷ cs) = P c × All P cs

abbrev AllWords : (Char → Type 0) → List (List Char) → Type 0
AllWords P [] = Unit {0}
AllWords P (w ∷ ws) = All P w × AllWords P ws

module _ (P : Char → Type 0) where
  All-append : (a b : List Char) → All P a → All P b → All P (a ++ b)
  All-append [] b h k = k
  All-append (c ∷ a) b (p, h) k = (p, All-append a b h k)

  All-reverse : (a : List Char) → All P a → All P (reverse a)
  All-reverse [] h = h
  All-reverse (c ∷ a) (p, h) =
      rw (reverse-cons c a) (All-append (reverse a) (c ∷ []) (All-reverse a h) (p, tt))

  AllWords-filled : (ws : List (List Char)) → AllWords P ws → AllWords P (filled ws)
  unfolding filled
  AllWords-filled [] h = h
  AllWords-filled ([] ∷ ws) (p, h) = AllWords-filled ws h
  AllWords-filled ((c ∷ w) ∷ ws) (p, h) = (p, AllWords-filled ws h)

  All-join : P dash → (ws : List (List Char)) → AllWords P ws → All P (join ws)
  unfolding join
  All-join d [] h = tt
  All-join d (w ∷ []) (p, h) = p
  All-join d (w ∷ v ∷ ws) (p, h) = All-append w (dash ∷ join (v ∷ ws)) p (d, All-join d (v ∷ ws) h)

  AllWords-onto : (c : Char) (ws : List (List Char)) → P c → AllWords P ws → AllWords P (onto c ws)
  unfolding onto
  AllWords-onto c [] p h = ((p, tt), tt)
  AllWords-onto c (w ∷ ws) p (q, h) = ((p, q), h)

  module _ (is_space : Char → Bool) (lower : Char → Char) where
    AllWords-split : (cs : List Char) → All P cs → AllWords P (split is_space lower cs)
    unfolding split
    AllWords-split [] h = (tt, tt)
    AllWords-split (c ∷ cs) (p, h) = elim (Bool-cases (is_space c)) [
      | inl e ↦ rw e (tt, AllWords-split cs h)
      | inr e ↦ rw e (AllWords-onto c (split is_space lower cs) p (AllWords-split cs h))
    ]

module _ (is_space : Char → Bool) (lower : Char → Char) where
  abbrev pub Solid : Char → Type 0
  Solid c = is_space c ≡ false

  abbrev pub Lowered : Char → Type 0
  Lowered c = lower c ≡ c

  Solid-split : (cs : List Char) → AllWords Solid (split is_space lower cs)
  unfolding split
  Solid-split [] = (tt, tt)
  Solid-split (c ∷ cs) = elim (Bool-cases (is_space c)) [
    | inl e ↦ rw e (tt, Solid-split cs)
    | inr e ↦ rw e (AllWords-onto Solid c (split is_space lower cs) e (Solid-split cs))
  ]

  Lowered-map :
      (idem : (c : Char) → lower (lower c) ≡ lower c) (cs : List Char) → All Lowered (map lower cs)
  Lowered-map idem [] = tt
  Lowered-map idem (c ∷ cs) = (idem c, Lowered-map idem cs)

  slug-Solid : Solid dash → (cs : List Char) → All Solid (slug is_space lower cs)
  unfolding slug fields
  slug-Solid d cs =
      let ws = split is_space lower (map lower (trim_space is_space lower cs)) in
      All-join Solid d (filled ws) (AllWords-filled Solid ws (Solid-split _))

  slug-Lowered :
      Lowered dash
      → (idem : (c : Char) → lower (lower c) ≡ lower c) (cs : List Char)
      → All Lowered (slug is_space lower cs)
  unfolding slug fields
  slug-Lowered d idem cs =
      let trimmed = trim_space is_space lower cs in
      let ws = split is_space lower (map lower trimmed) in
      All-join Lowered d (filled ws) (
        AllWords-filled Lowered ws
          (AllWords-split Lowered is_space lower (map lower trimmed) (Lowered-map idem trimmed)))

  drop_spaces-Solid : (cs : List Char) → All Solid cs → drop_spaces is_space lower cs ≡ cs
  unfolding drop_spaces
  drop_spaces-Solid [] h = refl
  drop_spaces-Solid (c ∷ cs) (p, h) = rw p refl

  trim_space-Solid : (cs : List Char) → All Solid cs → trim_space is_space lower cs ≡ cs
  unfolding trim_space
  trim_space-Solid cs h =
      rw (drop_spaces-Solid cs h, drop_spaces-Solid (reverse cs) (All-reverse Solid cs h))
        (reverse-reverse cs)

  map-Lowered : (cs : List Char) → All Lowered cs → map lower cs ≡ cs
  map-Lowered [] h = refl
  map-Lowered (c ∷ cs) (p, h) = λ i. p i ∷ map-Lowered cs h i

  split-Solid : (cs : List Char) → All Solid cs → split is_space lower cs ≡ cs ∷ []
  unfolding split onto
  split-Solid [] h = refl
  split-Solid (c ∷ cs) (p, h) = rw (p, split-Solid cs h) refl

  join-filled-one : (w : List Char) → join (filled (w ∷ [])) ≡ w
  unfolding join filled
  join-filled-one [] = refl
  join-filled-one (c ∷ w) = refl

  slug-slug :
      Solid dash
      → Lowered dash
      → (idem : (c : Char) → lower (lower c) ≡ lower c) (cs : List Char)
      → slug is_space lower (slug is_space lower cs) ≡ slug is_space lower cs
  slug-slug d l idem cs =
      let s = slug is_space lower cs in
      let solid = slug-Solid d cs in
      unfold slug in
      (unfold fields in
        (rw (trim_space-Solid s solid, map-Lowered s (slug-Lowered l idem cs), split-Solid s solid)
          (join-filled-one s)))

  -- Where the dash is no space and is in lower case, and lowering twice is lowering once: the slug
  -- of any name holds no space and is in lower case, and the slug of a slug is the slug itself.
  pub slugify_normalises :
      Solid dash
      → Lowered dash
      → (idem : (c : Char) → lower (lower c) ≡ lower c) (s : String)
      → All Solid (chars (slugify is_space lower s))
        × All Lowered (chars (slugify is_space lower s))
        × (slugify is_space lower (slugify is_space lower s) ≡ slugify is_space lower s)
  unfolding slugify
  slugify_normalises d l idem s =
      let cs = chars s in
      rw (chars-of_list (slug is_space lower cs))
        (slug-Solid d cs, slug-Lowered l idem cs, ap of_list (slug-slug d l idem cs))
