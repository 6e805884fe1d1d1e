-- ===== src/Client/Inbox/Screen.antt =====
-- cmd/client/internal/ui/inbox/model.go: the inbox screen around the entries of its list.
use chattui.Common.{
  ℕ, ℤ, String, Bool, true, false, Option, none, some, List, [], ◌∷◌, ◌++◌, if◌then◌else◌, ◌==◌,
  ◌||◌, nat_key, string_key, ltb,
}
use chattui.Dto.{InboxFeed, InboxRoom, InboxUser}
use chattui.Ws.Message.{Json, InboxUpdatedPayload, type_inbox_updated}
use chattui.Client.Inbox.{
  inbox_entry_from_payload, upsert_entry, zero_unread_count, compute_badges, rooms_total, dms_total,
  mark_as_read_request,
}
use chattui.Client.Tea.{
  Msg, key, window_size, tick, incoming, leave_inbox, inbox_show_dms, open_room, open_dm,
  inbox_error, badges, entries_loaded, marked_as_read, Cmd, emit, widget, fetch_entries, mark_entry,
  is_filtering, ListWidget,
}

pub record Model (L : Type 0) : Type 0 where
  pub list : L
  pub loading : Bool
  pub rooms_total : ℕ
  pub dms_total : ℕ
  pub showing_help : Bool
  pub err : String
  pub width : ℕ
  pub height : ℕ

-- What `openEntry` sends, if anything.
abbrev pub open_refs : Option InboxRoom → Option ℤ → Option InboxUser → List Cmd
open_refs (some r) c u = emit (open_room r.id r.name) ∷ []
open_refs none (some c) (some u) = emit (open_dm c u.id u.username) ∷ []
open_refs none (some c) none = []
open_refs none none u = []

unfoldable pub open_entry : InboxFeed → List Cmd
open_entry e = open_refs e.room e.ref_conversation_id e.source_user

-- `markAsReadCmd`; without a conversation or a room it does nothing.
unfoldable pub mark_as_read_cmd : InboxFeed → List Cmd
unfolding mark_as_read_request
mark_as_read_cmd e = elim (mark_as_read_request e) [
  | none ↦ []
  | some (c, r) ↦ mark_entry c r e ∷ []
]

module _ {L : Type 0} (W : ListWidget L InboxFeed) (unmarshal : Json → Option InboxUpdatedPayload)
    (now : ℤ) where
  unfoldable pub new : ℕ → ℕ → Model L
  new width height = record {
    list = W.empty;
    loading = true;
    rooms_total = 0;
    dms_total = 0;
    showing_help = false;
    err = "";
    width = width;
    height = height;
  }

  abbrev pub init : List Cmd
  init = fetch_entries ∷ widget ∷ []

  -- The end of three cases of `Update`: the items are set, counted, and the badges sent.
  unfoldable pub show_items : List InboxFeed → Model L → Model L × List Cmd
  show_items es m =
      let l = W.set_items es m.list in
      let b = compute_badges (W.items l) in
      (
        record m { list = l; rooms_total = rooms_total b; dms_total = dms_total b },
        emit (badges b) ∷ [],
      )

  abbrev pub update_list : Msg → Model L → Model L × List Cmd
  update_list msg m = (record m { list = W.update msg m.list }, widget ∷ [])

  abbrev pub mark_if_unread : InboxFeed → List Cmd
  mark_if_unread e = if ltb 0 e.unread_count then mark_as_read_cmd e else []

  -- `m` and `enter` on the selected entry.
  abbrev pub on_mark : Option InboxFeed → String → Model L → Model L × List Cmd
  on_mark none k m = update_list (key k) m
  on_mark (some e) k m =
      if ltb 0 e.unread_count then (m, mark_as_read_cmd e) else update_list (key k) m

  abbrev pub on_enter : Option InboxFeed → String → Model L → Model L × List Cmd
  on_enter none k m = update_list (key k) m
  on_enter (some e) k m = (m, open_entry e ++ mark_if_unread e)

  unfoldable pub update_key : String → Model L → Model L × List Cmd
  unfolding open_entry mark_as_read_cmd
  update_key k m =
      if k == "?"
      then (record m { showing_help = true }, [])
      else if k == "esc" || k == "tab"
      then (m, emit leave_inbox ∷ [])
      else if k == "shift+tab"
      then (m, emit inbox_show_dms ∷ [])
      else if k == "r"
      then (record m { loading = true }, fetch_entries ∷ widget ∷ [])
      else if k == "m"
      then on_mark (W.selected m.list) k m
      else if k == "enter"
      then on_enter (W.selected m.list) k m
      else update_list (key k) m

  -- An inbox_updated message, as it was parsed.
  unfoldable pub on_payload : Option InboxUpdatedPayload → Model L → Model L × List Cmd
  unfolding show_items
  on_payload none m = (m, [])
  on_payload (some p) m =
      show_items (upsert_entry (W.items m.list) (inbox_entry_from_payload now p)) m

  unfoldable pub update : Msg → Model L → Model L × List Cmd
  unfolding update_key show_items on_payload
  update (key k) m =
      if m.showing_help
      then (if k == "?" || k == "esc" then record m { showing_help = false } else m, [])
      else if is_filtering (W.filter_state m.list)
      then update_list (key k) m
      else update_key k m
  update tick m = (m, if m.loading then widget ∷ [] else [])
  update (incoming msg) m =
      if msg.kind == type_inbox_updated
      then on_payload (unmarshal msg.payload) m
      else update_list (incoming msg) m
  update (marked_as_read e) m = show_items (zero_unread_count (W.items m.list) e) m
  update (entries_loaded es) m = show_items es (record m { loading = false })
  update (inbox_error e) m = (record m { loading = false; err = e }, [])
  update (window_size w h) m = update_list (window_size w h) (record m { width = w; height = h })
  update msg m = update_list msg m
