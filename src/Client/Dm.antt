-- ===== src/Client/Dm.antt =====
-- cmd/client/internal/ui/dm/model.go: the list of direct message conversations. The map of badges is
-- the one that the app passes.
use chattui.Common.{
  ℕ, ◌-◌, ℤ, String, Bool, true, false, Option, none, some, List, [], ◌∷◌, if◌then◌else◌, ◌==◌,
  ◌||◌, string_key, int_key, Map, insert,
}
use chattui.Dto.{Conversation}
use chattui.Client.Inbox.{total}
use chattui.Client.Tea.{
  Msg, key, paste, window_size, tick, conv_selected, new_dm, leave_dm_list, dm_show_inbox,
  conv_badge_update, dm_refresh_badges, convs_loaded, peer_found, dm_error, Cmd, emit, widget,
  fetch_convs, lookup_user, is_filtering, ListWidget, InputWidget,
}

pub record Model (L T : Type 0) : Type 0 where
  pub list : L
  pub loading : Bool
  pub badges : Map ℤ ℕ
  pub inbox_total : ℕ
  pub creating : Bool
  pub create_input : T
  pub showing_help : Bool
  pub err : String
  pub width : ℕ
  pub height : ℕ

module _ {L T : Type 0} (W : ListWidget L Conversation) (I : InputWidget T)
    (trim_space : String → String) where
  unfoldable pub new : Map ℤ ℕ → ℕ → ℕ → ℕ → Model L T
  new badges inbox_total width height = record {
    list = W.empty;
    loading = true;
    badges = badges;
    inbox_total = inbox_total;
    creating = false;
    create_input = I.blank;
    showing_help = false;
    err = "";
    width = width;
    height = height;
  }

  abbrev pub init : List Cmd
  init = fetch_convs ∷ widget ∷ []

  unfoldable pub update_creating : String → Model L T → Model L T × List Cmd
  update_creating k m =
      if k == "enter"
      then (let username = trim_space (I.value m.create_input) in
          (record m { creating = false }, if username == "" then [] else lookup_user username ∷ []))
      else if k == "esc"
      then (record m { creating = false }, [])
      else (record m { create_input = I.update (key k) m.create_input }, widget ∷ [])

  -- The last two lines of `Update`.
  abbrev pub update_list : Msg → Model L T → Model L T × List Cmd
  update_list msg m = (record m { list = W.update msg m.list }, widget ∷ [])

  abbrev pub select : Option Conversation → String → Model L T → Model L T × List Cmd
  select none k m = update_list (key k) m
  select (some c) k m = (m, emit (conv_selected c) ∷ [])

  -- The second `switch msg.String()`.
  unfoldable pub update_key : String → Model L T → Model L T × List Cmd
  update_key k m =
      if k == "?"
      then (record m { showing_help = true }, [])
      else if k == "esc" || k == "shift+tab"
      then (m, emit leave_dm_list ∷ [])
      else if k == "tab" || k == "i"
      then (m, emit dm_show_inbox ∷ [])
      else if k == "r"
      then (record m { loading = true }, fetch_convs ∷ widget ∷ [])
      else if k == "n"
      then (
        record m {
          creating = true;
          create_input = I.set_focus true (I.set_value "" m.create_input);
        },
        widget ∷ [],
      )
      else if k == "enter"
      then select (W.selected m.list) k m
      else update_list (key k) m

  unfoldable pub update : Msg → Model L T → Model L T × List Cmd
  unfolding update_creating update_key
  update (key k) m =
      if m.creating
      then update_creating k m
      else if m.showing_help
      then (if k == "?" || k == "esc" then record m { showing_help = false } else m, [])
      else if is_filtering (W.filter_state m.list)
      then update_list (key k) m
      else update_key k m
  update (paste s) m =
      if m.creating
      then (record m { create_input = I.update (paste s) m.create_input }, widget ∷ [])
      else update_list (paste s) m
  update tick m = (m, if m.loading then widget ∷ [] else [])
  update (conv_badge_update c n t) m =
      (record m { badges = insert c n m.badges; inbox_total = t }, [])
  update (dm_refresh_badges b t) m = (record m { badges = b; inbox_total = t }, [])
  update (convs_loaded convs) m =
      (record m { loading = false; list = W.set_items convs m.list }, [])
  update (peer_found u) m = (m, emit (new_dm u.id u.username) ∷ [])
  update (dm_error e) m = (record m { loading = false; err = e; creating = false }, [])
  update (window_size w h) m = update_list (window_size w h) (record m { width = w; height = h })
  update msg m = update_list msg m

  -- The unread messages that the Rooms tab shows.
  unfoldable pub rooms_total : Model L T → ℕ
  unfolding total
  rooms_total m = m.inbox_total - total m.badges
