-- ===== src/Client/Rooms.antt =====
-- cmd/client/internal/ui/rooms/model.go: the room list. The theme, a global of package theme, is a
-- field: only this screen changes it. The map of badges is the one that the app passes.
pub mod Picker
use chattui.Common.{
  ℕ, zero, suc, ◌+◌, ◌-◌, ◌%◌, ℤ, String, Bool, true, false, not, Option, none, some, List, [], ◌∷◌,
  length, if◌then◌else◌, ◌==◌, ◌||◌, string_key, int_key, Map, insert,
}
use chattui.Dto.{Room}
use chattui.Client.Inbox.{total}
use chattui.Client.Tea.{
  Msg, key, paste, window_size, tick, rooms_show_dms, rooms_show_inbox, room_error,
  room_badge_update, rooms_refresh_badges, rooms_loaded, room_created, room_joined, room_selected,
  Cmd, emit, widget, fetch_rooms, create_room, join_and_select, is_unfiltered, is_filtering,
  unfiltered, filtering, filter_applied, ListWidget, InputWidget,
}
use chattui.Client.Theme.{names, set_theme}

pub record Model (L T : Type 0) : Type 0 where
  pub list : L
  pub loading : Bool
  pub badges : Map ℤ ℕ
  pub inbox_total : ℕ
  pub creating : Bool
  pub create_input : T
  pub picking_theme : Bool
  pub theme_index : ℕ
  pub showing_help : Bool
  pub err : String
  pub width : ℕ
  pub height : ℕ
  pub theme : String

-- The first place of the name, or the default.
unfoldable pub index_or : ℕ → String → List String → ℕ → ℕ
index_or i name [] default = default
index_or i name (n ∷ ns) default =
    let rest = index_or (suc i) name ns default in if n == name then i else rest

abbrev pub nth : List String → ℕ → String
nth [] i = ""
nth (n ∷ ns) zero = n
nth (n ∷ ns) (suc i) = nth ns i

module _ {L T : Type 0} (W : ListWidget L Room) (I : InputWidget T)
    (trim_space : String → String) where
  unfoldable pub new : Map ℤ ℕ → ℕ → ℕ → ℕ → String → Model L T
  new badges inbox_total width height theme = record {
    list = W.empty;
    loading = true;
    badges = badges;
    inbox_total = inbox_total;
    creating = false;
    create_input = I.blank;
    picking_theme = false;
    theme_index = 0;
    showing_help = false;
    err = "";
    width = width;
    height = height;
    theme = theme;
  }

  abbrev pub init : List Cmd
  init = fetch_rooms ∷ widget ∷ []

  unfoldable pub has_overlay : Model L T → Bool
  has_overlay m =
      m.creating
      || (m.picking_theme || (m.showing_help || not (is_unfiltered (W.filter_state m.list))))

  -- `updateThemePicker` on j and k.
  abbrev pub pick : ℕ → Model L T → Model L T
  pick i m = record m { theme_index = i; theme = set_theme (nth names i) }

  -- Behind enter the code also saves the theme to a file, which is left out.
  unfoldable pub update_theme_picker : String → Model L T → Model L T × List Cmd
  update_theme_picker k m =
      if k == "j" || k == "down"
      then (pick ((m.theme_index + 1) % length names) m, [])
      else if k == "k" || k == "up"
      then (pick ((m.theme_index + length names - 1) % length names) m, [])
      else if k == "enter" || k == "esc"
      then (record m { picking_theme = false }, [])
      else (m, [])

  unfoldable pub update_creating : String → Model L T → Model L T × List Cmd
  update_creating k m =
      if k == "enter"
      then (let name = trim_space (I.value m.create_input) in
          (record m { creating = false }, if name == "" then [] else create_room name ∷ []))
      else if k == "esc"
      then (record m { creating = false }, [])
      else (record m { create_input = I.update (key k) m.create_input }, widget ∷ [])

  -- The last two lines of `Update`.
  abbrev pub update_list : Msg → Model L T → Model L T × List Cmd
  update_list msg m = (record m { list = W.update msg m.list }, widget ∷ [])

  abbrev pub select : Option Room → String → Model L T → Model L T × List Cmd
  select none k m = update_list (key k) m
  select (some r) k m = (m, join_and_select r ∷ [])

  -- The second `switch msg.String()`.
  unfoldable pub update_key : String → Model L T → Model L T × List Cmd
  unfolding index_or
  update_key k m =
      if k == "n"
      then (
        record m {
          creating = true;
          create_input = I.set_focus true (I.set_value "" m.create_input);
        },
        widget ∷ [],
      )
      else if k == "t"
      then (
        record m { picking_theme = true; theme_index = index_or 0 m.theme names m.theme_index },
        [],
      )
      else if k == "?"
      then (record m { showing_help = true }, [])
      else if k == "tab" || k == "d"
      then (m, emit rooms_show_dms ∷ [])
      else if k == "shift+tab" || k == "i"
      then (m, emit rooms_show_inbox ∷ [])
      else if k == "r"
      then (record m { loading = true }, fetch_rooms ∷ widget ∷ [])
      else if k == "enter"
      then select (W.selected m.list) k m
      else update_list (key k) m

  unfoldable pub update : Msg → Model L T → Model L T × List Cmd
  unfolding update_theme_picker update_creating update_key
  update (key k) m =
      if m.creating
      then update_creating k m
      else if m.picking_theme
      then update_theme_picker k m
      else if m.showing_help
      then (
        if k == "?" || (k == "esc" || k == "q") then record m { showing_help = false } else m,
        [],
      )
      else if is_filtering (W.filter_state m.list)
      then update_list (key k) m
      else update_key k m
  update (paste s) m =
      if m.creating
      then (record m { create_input = I.update (paste s) m.create_input }, widget ∷ [])
      else update_list (paste s) m
  update tick m = (m, if m.loading then widget ∷ [] else [])
  update (room_badge_update r n t) m =
      (record m { badges = insert r n m.badges; inbox_total = t }, [])
  update (rooms_refresh_badges b t) m = (record m { badges = b; inbox_total = t }, [])
  update (rooms_loaded rooms) m =
      (record m { loading = false; list = W.set_items rooms m.list }, [])
  update (room_created r) m =
      (record m { creating = false; loading = true }, fetch_rooms ∷ widget ∷ [])
  update (room_joined r) m = (m, emit (room_selected r) ∷ [])
  update (room_error e) m = (record m { loading = false; err = e; creating = false }, [])
  update (window_size w h) m = update_list (window_size w h) (record m { width = w; height = h })
  update msg m = update_list msg m

  -- The unread messages that the DMs tab shows.
  unfoldable pub dms_total : Model L T → ℕ
  unfolding total
  dms_total m = m.inbox_total - total m.badges
