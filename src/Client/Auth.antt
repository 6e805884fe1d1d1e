-- ===== src/Client/Auth.antt =====
-- cmd/client/internal/ui/auth/model.go: the login screen. The texts of the inputs are the widgets'.
use chattui.Common.{
  ℕ, String, Bool, true, false, List, [], ◌∷◌, if◌then◌else◌, ◌==◌, ◌||◌, nat_key, string_key,
}
use chattui.Client.Tea.{
  Msg, key, window_size, tick, success, auth_error, Cmd, emit, widget, login_with, register_with,
  InputWidget,
}

pub data Mode : Type 0 where
  mode_login mode_register : Mode

pub record Model (T : Type 0) : Type 0 where
  pub username_input : T
  pub password_input : T
  pub mode : Mode
  pub focus_index : ℕ
  pub err : String
  pub loading : Bool
  pub width : ℕ
  pub height : ℕ

unfoldable pub init : List Cmd
init = widget ∷ widget ∷ []

module _ {T : Type 0} (I : InputWidget T) (trim_space : String → String) where
  unfoldable pub new : Model T
  new = record {
    username_input = I.set_focus true I.blank;
    password_input = I.blank;
    mode = mode_login;
    focus_index = 0;
    err = "";
    loading = false;
    width = 0;
    height = 0;
  }

  abbrev pub other_mode : Mode → Mode
  other_mode mode_login = mode_register
  other_mode mode_register = mode_login

  unfoldable pub toggle_mode : Model T → Model T
  toggle_mode m = record m { mode = other_mode m.mode; err = "" }

  unfoldable pub cycle_focus : Model T → Model T
  cycle_focus m =
      if m.focus_index == 0
      then record m {
        focus_index = 1;
        username_input = I.set_focus false m.username_input;
        password_input = I.set_focus true m.password_input;
      }
      else record m {
        focus_index = 0;
        password_input = I.set_focus false m.password_input;
        username_input = I.set_focus true m.username_input;
      }

  -- The request of `submit`, by the mode of the model it is made from.
  abbrev pub request : Mode → String → String → Cmd
  request mode_login username password = login_with username password
  request mode_register username password = register_with username password

  unfoldable pub submit : Model T → Cmd
  submit m =
      let username = trim_space (I.value m.username_input) in
      let password = I.value m.password_input in
      if username == "" || password == ""
      then emit (auth_error "username and password are required")
      else request m.mode username password

  unfoldable pub update_inputs : Msg → Model T → Model T × List Cmd
  update_inputs msg m = (
    record m {
      username_input = I.update msg m.username_input;
      password_input = I.update msg m.password_input;
    },
    widget ∷ widget ∷ [],
  )

  -- A key, behind `m.err = ""`.
  unfoldable pub update_key : String → Model T → Model T × List Cmd
  unfolding toggle_mode cycle_focus submit update_inputs
  update_key k m =
      if k == "tab" || k == "shift+tab"
      then (cycle_focus m, [])
      else if k == "ctrl+t"
      then (toggle_mode m, [])
      else if k == "enter"
      then (if m.loading then (m, []) else (record m { loading = true }, submit m ∷ widget ∷ []))
      else update_inputs (key k) m

  unfoldable pub update : Msg → Model T → Model T × List Cmd
  unfolding update_key update_inputs
  update (key k) m = update_key k (record m { err = "" })
  update (success token id name) m =
      update_inputs (success token id name) (record m { loading = false })
  update (auth_error e) m = update_inputs (auth_error e) (record m { loading = false; err = e })
  update tick m = (m, if m.loading then widget ∷ [] else [])
  update (window_size w h) m = update_inputs (window_size w h) (record m { width = w; height = h })
  update msg m = update_inputs msg m
