-- ===== src/Api/Limit/Tests.antt =====
-- Limits that are in range, out of range and no numbers.
use chattui.Common.{◌≤◌, ◌≡◌, refl, chars}
use chattui.Api.Limit.{max_message_limit, parse_limit}
use chattui.Api.Limit.Bounds.{parse_limit-bounds}

parse_limit-bounds_example : (1 ≤ parse_limit "250") × (parse_limit "250" ≤ max_message_limit)
parse_limit-bounds_example = parse_limit-bounds "250"

in_range : parse_limit "25" ≡ 25
unfolding parse_limit chars
in_range = refl

with_sign : parse_limit "+100" ≡ 100
unfolding parse_limit chars
with_sign = refl

out_of_range : parse_limit "101" ≡ 50
unfolding parse_limit chars
out_of_range = refl

no_number : parse_limit "2x" ≡ 50
unfolding parse_limit chars
no_number = refl
