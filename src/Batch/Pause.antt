-- ===== src/Batch/Pause.antt =====
-- How long a refused send holds the batcher back, apps/batcher/src/main.ts.
use ordofi.Base.{
  ℕ, ◌+◌, ◌*◌, ◌-◌, [], ◌∷◌, Bool, true, false, ◌&&◌, ◌||◌, Option, none, some, leb, ◌==◌,
  if◌then◌else◌, is_some,
}
use ordofi.Base.Text.{Text, codes, includes, starts_with, to_lower_case}

-- The digits behind `reset in `, when ` second` follows them: `/reset in (\d+) seconds?/i` at one place.
seconds_from : ℕ → Bool → Text → Option ℕ
unfolding starts_with
seconds_from acc some_digit [] = none
seconds_from acc some_digit (c ∷ s) =
    let rest = seconds_from (acc * 10 + (c - b'0')) true s in
    if leb b'0' c && leb c b'9'
    then rest
    else if some_digit && starts_with (c ∷ s) (codes " second")
    then some acc
    else none

-- What follows the text `t` at the start of a text.
after : Text → Text → Option Text
after s [] = some s
after [] (b ∷ t) = none
after (a ∷ s) (b ∷ t) = if a == b then after s t else none

read_seconds : Option Text → Option ℕ
unfolding seconds_from
read_seconds none = none
read_seconds (some s) = seconds_from 0 false s

reset_seconds : Text → Option ℕ
unfolding read_seconds after
reset_seconds [] = none
reset_seconds (c ∷ s) =
    let later = reset_seconds s in
    let here = read_seconds (after (c ∷ s) (codes "reset in ")) in
    if is_some here then here else later

pause_for : Option ℕ → ℕ
pause_for none = 5000
pause_for (some s) = s * 1000

-- How long a refused send pauses the sends, by the message of the refusal.
unfoldable pub pause_ms : Text → ℕ
unfolding pause_for reset_seconds includes to_lower_case
pause_ms message =
    let m = to_lower_case message in
    if includes m (codes "429") || includes m (codes "rate limit") || includes m (codes "too many")
    then pause_for (reset_seconds m)
    else 2000
