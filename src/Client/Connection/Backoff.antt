-- ===== src/Client/Connection/Backoff.antt =====
-- The waits between the dials of cmd/client/internal/ws/client.go.
use chattui.Common.{
  ℕ, zero, suc, ◌+◌, ◌*◌, List, [], ◌∷◌, ◌++◌, length, ◌≡◌, refl, sym, ap, ◌∙◌, arith,
}
use mathlib.Core.List.{append_assoc, append-nil}
use chattui.Client.Tea.{Msg}
use chattui.Client.Connection.{Dial, Link, round, rounds, first_link, min, max_backoff_secs}

abbrev pub power : ℕ → ℕ
power zero = 1
power (suc n) = 2 * power n

min-double : (x : ℕ) → min (min x 600 * 2) 600 ≡ min (2 * x) 600
min-double x = ground arith

-- The waits of the dials from the n-th on.
abbrev pub waits_from : ℕ → ℕ → List ℕ
waits_from n zero = []
waits_from n (suc k) = min (power n) max_backoff_secs ∷ waits_from (suc n) k

rounds-waits :
    (rs : List (List Msg × Dial)) (l : Link) (n : ℕ)
    → l.backoff ≡ min (power n) max_backoff_secs
    → ((rounds rs l).waits ≡ l.waits ++ waits_from n (length rs))
      × ((rounds rs l).backoff ≡ min (power (n + length rs)) max_backoff_secs)
unfolding rounds
rounds-waits [] l n e = (sym (append-nil l.waits), e ∙ ap (λ k. min (power k) 600) (omega arith))
rounds-waits ((loops, d) ∷ rs) l n e =
    let (w, b) =
      rounds-waits rs (round loops d l) (suc n)
        (ap (λ x. min (x * 2) 600) e ∙ min-double (power n)) in
    (
      w
          ∙ (append_assoc l.waits (l.backoff ∷ []) (waits_from (suc n) (length rs))
              ∙ ap (λ x. l.waits ++ (x ∷ waits_from (suc n) (length rs))) e),
      b ∙ ap (λ k. min (power k) 600) (omega arith),
    )

-- Whether or not the dials succeed: the n-th wait, from 0, is 2 ^ n seconds, and 600 at most.
pub first_link-waits :
    (rs : List (List Msg × Dial)) → (rounds rs first_link).waits ≡ waits_from 0 (length rs)
first_link-waits rs = (rounds-waits rs first_link 0 refl).0
