-- ===== src/Client/App/Reachable.antt =====
-- Every state that the client of cmd/client/internal/ui/app.go comes to, whatever the order in
-- which the commands answer.
use chattui.Common.{
  String, Bool, true, false, some, List, [], ◌∷◌, ◌++◌, ◌≡◌, refl, sym, ap, ◌∙◌, arith, subst,
}
use chattui.Client.Auth
use chattui.Client.Tea.{Msg, Cmd}
use chattui.Client.App.{
  Screen, Kit, App, Routed, handled, goes_on, switch, update, behind, intercept, new_app,
}
use chattui.Client.App.Machine.{System, Step, arrives, answers, ends, Reach, here, next, start}
use chattui.Client.App.Commands.{tame, auth_only, all, all-append}
use chattui.Client.App.Kept.{is_auth, is_chat, Sound, Kept, Passed, intercept-Passed}
use chattui.Client.App.Invariant.{at_login, Carries, Ends, switch-Ends}
use chattui.Client.App.Answers.{
  Carried, Allows, answer-Carries, answer-Allows, external-Carries, external-login,
}

all-before : (p : Cmd → Bool) (a b : List Cmd) → all p (a ++ b) ≡ true → all p a ≡ true
all-before p [] b h = refl
all-before p (c ∷ a) b h = ground (arith, all-before p a b)

all-after : (p : Cmd → Bool) (a b : List Cmd) → all p (a ++ b) ≡ true → all p b ≡ true
all-after p [] b h = h
all-after p (c ∷ a) b h = all-after p a b (ground arith)

-- The commands but one, and that one.
all-rest :
    (p : Cmd → Bool) (a b : List Cmd) (c : Cmd) → all p (a ++ c ∷ b) ≡ true → all p (a ++ b) ≡ true
all-rest p a b c h =
    all-append p a b (all-before p a (c ∷ b) h) (ground (arith, all-after p a (c ∷ b) h))

all-one : (p : Cmd → Bool) (a b : List Cmd) (c : Cmd) → all p (a ++ c ∷ b) ≡ true → p c ≡ true
all-one p a b c h = ground (arith, all-after p a (c ∷ b) h)

module _ {R D E T : Type 0} (P : String → Type 0) (K : Kit R D E T) where
  behind-Ends :
      (msg : Msg) (s : Screen) (r : Routed R D E T)
      → Passed P s r
      → Carries P K msg
      → (is_auth s ≡ true → at_login msg ≡ true)
      → Ends P K s (behind K msg r)
  behind-Ends msg s (handled a cmds) h p l = h
  behind-Ends msg s (goes_on a) (h, e) p l =
      subst (λ s. Ends P K s (switch K msg a)) e
        (switch-Ends P K msg a h p (λ g. l (sym (ap is_auth e) ∙ g)))

  update-Kept :
      (msg : Msg) (a a' : App R D E T) (cmds : List Cmd)
      → Sound P a
      → Carries P K msg
      → (is_auth a.active ≡ true → at_login msg ≡ true)
      → update K msg a ≡ some (a', cmds)
      → Kept P a.active a' cmds
  unfolding update
  update-Kept msg a a' cmds s p l e =
      subst (Ends P K a.active) e
        (behind-Ends msg a.active (intercept K msg a) (intercept-Passed P K msg a s) p l)

  record Inv (u : System R D E T) : Type 0 where
    sound : Sound P u.app
    commands : all tame u.pending ≡ true
    login : is_auth u.app.active ≡ true → all auth_only u.pending ≡ true

  step-Inv :
      (s : System R D E T) (msg : Msg) (a : App R D E T) (rest cmds : List Cmd)
      → Sound P s.app
      → all tame rest ≡ true
      → (is_auth s.app.active ≡ true → all auth_only rest ≡ true)
      → Carries P K msg
      → (is_auth s.app.active ≡ true → at_login msg ≡ true)
      → update K msg s.app ≡ some (a, cmds)
      → Inv (record { app = a; pending = rest ++ cmds })
  step-Inv s msg a rest cmds v t l c m e =
      let k = update-Kept msg s.app a cmds v c m e in
      record {
        sound = k.sound;
        commands = all-append tame rest cmds t k.commands;
        login = λ h. all-append auth_only rest cmds (l (k.login h).0) (k.login h).1;
      }

  Step-Inv : (s u : System R D E T) → Inv s → Step K P s u → Inv u
  Step-Inv s u v (arrives msg a cmds x e eq) = subst Inv (sym eq) (
      step-Inv s msg a s.pending cmds v.sound v.commands v.login (external-Carries P K msg x)
        (λ h. external-login P K msg x) e)
  Step-Inv s u v (answers A before after c msg a cmds i p r e eq) =
      let t = ap (all tame) (sym p) ∙ v.commands in
      let l = (λ (h : is_auth s.app.active ≡ true). ap (all auth_only) (sym p) ∙ v.login h) in
      subst Inv (sym eq) (
        step-Inv s msg a (before ++ after) cmds v.sound (all-rest tame before after c t)
          (λ h. all-rest auth_only before after c (l h))
          (subst (Carried P K) r (answer-Carries P K A c i (all-one tame before after c t)))
          (λ h.
            subst (Allows P K) r (answer-Allows P K A c (all-one auth_only before after c (l h))))
          e)
  Step-Inv s u v (ends A before after c p r eq) = subst Inv (sym eq) (record {
    sound = v.sound;
    commands = all-rest tame before after c (ap (all tame) (sym p) ∙ v.commands);
    login = λ h. all-rest auth_only before after c (ap (all auth_only) (sym p) ∙ v.login h);
  })

  Reach-Inv : {s u : System R D E T} → Inv s → Reach K P s u → Inv u
  Reach-Inv v here = v
  Reach-Inv v (next {t} {u} r x) = Step-Inv t u (Reach-Inv v r) x

  start-Inv : (theme : String) → Inv (start K theme)
  unfolding start new_app Auth.init
  start-Inv theme = record {
    sound = record {
      token = λ h. absurd (ground (arith, h));
      room = λ h. absurd (ground (arith, h));
    };
    commands = refl;
    login = λ h. refl;
  }

  -- In every state that the client can come to, from its start and with any answers of the server
  -- in any order: on a screen other than the login screen, the token is one that a login or a
  -- registration returned, and the room screen shows the room that the state names as current.
  pub Reach-Sound :
      (theme : String) (u : System R D E T)
      → Reach K P (start K theme) u
      → (is_auth u.app.active ≡ false → P u.app.token)
        × (is_chat u.app.active ≡ true → u.app.current_room ≡ some u.app.chat.room)
  Reach-Sound theme u r = let v = Reach-Inv (start-Inv theme) r in (v.sound.token, v.sound.room)
