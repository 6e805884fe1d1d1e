-- ===== src/Api/Limit.antt =====
-- cmd/server/internal/api/handlers/limit.go: the limit of a list, from the query's text.
pub mod Bounds
mod Tests
use chattui.Common.{
  ℕ, ◌+◌, ◌-◌, ◌*◌, ℤ, pos, negsuc, String, chars, Bool, true, false, Option, none, some, List, [],
  ◌∷◌, ltb, leb, if◌then◌else◌, ◌==◌, ◌&&◌, nat_key, string_key,
}
use Prim.Native.Char.{Char, code}

abbrev pub default_message_limit : ℕ
default_message_limit = 50

abbrev pub max_message_limit : ℕ
max_message_limit = 100

abbrev pub is_digit : Char → Bool
is_digit c = leb 48 (code c) && leb (code c) 57

-- The number that the digits stand for behind `n`, if they are digits.
unfoldable pub digits : List Char → ℕ → Option ℕ
digits [] n = some n
digits (c ∷ cs) n =
    let rest = digits cs (n * 10 + (code c - 48)) in if is_digit c then rest else none

unfoldable pub unsigned : List Char → Option ℕ
unfolding digits
unsigned [] = none
unsigned (c ∷ cs) = digits (c ∷ cs) 0

abbrev pub negate : ℕ → ℤ
negate n = if n == 0 then pos 0 else negsuc (n - 1)

-- In 32 bits, or an error.
abbrev pub in_int32 : Bool → Option ℕ → Option ℤ
in_int32 minus none = none
in_int32 true (some n) = if leb n 2147483648 then some (negate n) else none
in_int32 false (some n) = if ltb n 2147483648 then some (pos n) else none

-- `strconv.ParseInt(s, 10, 32)`
unfoldable pub parse_int : List Char → Option ℤ
unfolding unsigned
parse_int [] = none
parse_int (c ∷ cs) =
    if code c == 45
    then in_int32 true (unsigned cs)
    else if code c == 43
    then in_int32 false (unsigned cs)
    else in_int32 false (unsigned (c ∷ cs))

-- `err == nil && n > 0 && n <= maxMessageLimit`
abbrev pub limit_of : Option ℤ → ℕ
limit_of none = default_message_limit
limit_of (some (negsuc n)) = default_message_limit
limit_of (some (pos n)) = if ltb 0 n && leb n max_message_limit then n else default_message_limit

unfoldable pub parse_limit : String → ℕ
unfolding parse_int
parse_limit l = if l == "" then default_message_limit else limit_of (parse_int (chars l))
