-- ===== src/Api/Limit/Bounds.antt =====
-- The limits that cmd/server/internal/api/handlers/limit.go lets through.
use chattui.Common.{
  ◌≤◌, ℤ, pos, negsuc, String, chars, Bool-cases, Option, none, some, ◌==◌, string_key, arith, inl,
  inr,
}
use chattui.Api.Limit.{max_message_limit, parse_int, limit_of, parse_limit}

limit_of-bounds : (o : Option ℤ) → (1 ≤ limit_of o) × (limit_of o ≤ max_message_limit)
limit_of-bounds none = (omega arith, omega arith)
limit_of-bounds (some (negsuc n)) = (omega arith, omega arith)
limit_of-bounds (some (pos n)) = (ground arith, ground arith)

-- Whatever the text of the query's limit, the limit of a list is from 1 to 100.
pub parse_limit-bounds : (l : String) → (1 ≤ parse_limit l) × (parse_limit l ≤ max_message_limit)
unfolding parse_limit
parse_limit-bounds l = elim (Bool-cases (l == "")) [
  | inl p ↦ rw (p, parse_limit) (omega arith, omega arith)
  | inr p ↦ rw (p, parse_limit) (limit_of-bounds (parse_int (chars l)))
]
