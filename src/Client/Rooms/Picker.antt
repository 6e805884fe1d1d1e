-- ===== src/Client/Rooms/Picker.antt =====
-- The theme picker of cmd/client/internal/ui/rooms/model.go.
use chattui.Common.{
  ℕ, zero, suc, ◌+◌, ◌-◌, ◌%◌, ◌<◌, String, Bool, true, false, Option, none, some, List,
  if◌then◌else◌, ◌≡◌, refl, sym, ap, ◌∙◌, subst, arith, ◌==◌, ◌||◌, string_key,
}
use chattui.Dto.{Room}
use chattui.Client.Tea
use chattui.Client.Tea.{Msg, Cmd, ListWidget, InputWidget, is_filtering}
use chattui.Client.Theme.{names, set_theme}
use chattui.Client.Rooms.{
  Model, index_or, nth, update, update_theme_picker, update_creating, update_key, select, pick,
}

abbrev pub IsTheme : String → Type 0
IsTheme t = (i : ℕ) × (i < 3) × (t ≡ nth names i)

-- The theme that is set is one of those with a name, and while the picker is open it is the one
-- under the picker's cursor.
pub record Picked (theme : String) (index : ℕ) (picking : Bool) : Type 0 where
  pub named : IsTheme theme
  pub cursor : picking ≡ true → (index < 3) × (theme ≡ nth names index)

abbrev pub IsPicked : {L T : Type 0} → Model L T → Type 0
IsPicked m = Picked m.theme m.theme_index m.picking_theme

set_theme-nth : (i : ℕ) → i < 3 → set_theme (nth names i) ≡ nth names i
unfolding set_theme
set_theme-nth zero h = refl
set_theme-nth (suc zero) h = refl
set_theme-nth (suc (suc zero)) h = refl
set_theme-nth (suc (suc (suc i))) h = absurd (omega (arith, h))

index_or-nth : (i d : ℕ) → i < 3 → index_or 0 (nth names i) names d ≡ i
unfolding index_or
index_or-nth zero d h = refl
index_or-nth (suc zero) d h = refl
index_or-nth (suc (suc zero)) d h = refl
index_or-nth (suc (suc (suc i))) d h = absurd (omega (arith, h))

closed : (t : String) (i : ℕ) (b : Bool) → Picked t i b → Picked t i false
closed t i b v = record { named = v.named; cursor = λ p. absurd (ground (arith, p)) }

module _ {L T : Type 0} (W : ListWidget L Room) (I : InputWidget T) (trim : String → String) where
  pick-IsPicked : (i : ℕ) (m : Model L T) → i < 3 → IsPicked (pick W I trim i m)
  pick-IsPicked i m h = record {
    named = (i, h, set_theme-nth i h);
    cursor = λ e. (h, set_theme-nth i h);
  }

  if_IsPicked :
      (b : Bool) (x y : Model L T × List Cmd)
      → IsPicked x.0
      → IsPicked y.0
      → IsPicked (if b then x else y).0
  if_IsPicked true x y h k = h
  if_IsPicked false x y h k = k

  if_kept :
      (m : Model L T) (b : Bool) (x : Model L T)
      → IsPicked x
      → IsPicked m
      → IsPicked (if b then x else m)
  if_kept m true x h k = h
  if_kept m false x h k = k

  update_theme_picker-IsPicked :
      (k : String) (m : Model L T) → IsPicked m → IsPicked (update_theme_picker W I trim k m).0
  unfolding update_theme_picker
  update_theme_picker-IsPicked k m v =
      search
        (
          if_IsPicked,
          pick-IsPicked ((m.theme_index + 1) % 3) m (omega arith),
          pick-IsPicked ((m.theme_index + 3 - 1) % 3) m (omega arith),
          closed m.theme m.theme_index m.picking_theme v,
        )
        depth 20 fits 2000

  opened-Picked :
      (m : Model L T) → IsPicked m → Picked m.theme (index_or 0 m.theme names m.theme_index) true
  opened-Picked m v =
      let (i, h, q) = v.named in
      let e = ap (λ t. index_or 0 t names m.theme_index) q ∙ index_or-nth i m.theme_index h in
      record {
        named = v.named;
        cursor = λ p. (subst (λ i. i < 3) (sym e) h, q ∙ ap (nth names) (sym e));
      }

  select-IsPicked :
      (r : Option Room) (k : String) (m : Model L T)
      → IsPicked m
      → IsPicked (select W I trim r k m).0
  select-IsPicked none k m v = v
  select-IsPicked (some r) k m v = v

  update_creating-IsPicked :
      (k : String) (m : Model L T) → IsPicked m → IsPicked (update_creating W I trim k m).0
  unfolding update_creating
  update_creating-IsPicked k m v = search if_IsPicked depth 20 fits 2000

  update_key-IsPicked :
      (k : String) (m : Model L T) → IsPicked m → IsPicked (update_key W I trim k m).0
  unfolding update_key index_or
  update_key-IsPicked k m v = if_IsPicked (k == "n") _ _ v (
      if_IsPicked (k == "t") _ _ (opened-Picked m v) (
        if_IsPicked (k == "?") _ _ v (
          if_IsPicked (k == "tab" || k == "d") _ _ v (
            if_IsPicked (k == "shift+tab" || k == "i") _ _ v (
              if_IsPicked (k == "r") _ _ v
                (if_IsPicked (k == "enter") _ _ (select-IsPicked (W.selected m.list) k m v) v))))))

  -- Whatever message comes, the theme that is set stays one with a name, and while the picker is
  -- open it is the one under the cursor, which is within the list of names.
  pub update-IsPicked :
      (msg : Msg) (m : Model L T) → IsPicked m → IsPicked (update W I trim msg m).0
  unfolding update
  update-IsPicked (Tea.key k) m v = if_IsPicked m.creating _ _ (update_creating-IsPicked k m v) (
      if_IsPicked m.picking_theme _ _ (update_theme_picker-IsPicked k m v) (
        if_IsPicked m.showing_help _ _
          (if_kept m (k == "?" || (k == "esc" || k == "q")) (record m { showing_help = false }) v v)
          (if_IsPicked (is_filtering (W.filter_state m.list)) _ _ v (update_key-IsPicked k m v))))
  update-IsPicked (Tea.paste s) m v = if_IsPicked m.creating _ _ v v
  update-IsPicked msg m v = v
