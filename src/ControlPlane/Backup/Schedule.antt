-- ===== src/ControlPlane/Backup/Schedule.antt =====
-- nextScheduledTime and parseIntCronField: daily schedules, in milliseconds of UTC since the epoch.
pub mod Laws
use Prim.Native.Char.{code}
use dnd_notes.Common.{
  ℕ, ◌+◌, ◌-◌, ◌*◌, ◌/◌, String, Bool, true, false, ◌&&◌, ◌||◌, not, Option, none, some, List, [],
  ◌∷◌, ◌++◌, ltb, leb, ◌=ℕ◌, if◌then◌else◌, codes, same_codes,
}

-- JavaScript's white space and line ends, for trim() and \s alike.
abbrev is_space : ℕ → Bool
is_space c =
    (leb 9 c && leb c 13)
    || c =ℕ 32
    || c =ℕ 160
    || c =ℕ 0x1680
    || (leb 0x2000 c && leb c 0x200a)
    || c =ℕ 0x2028
    || c =ℕ 0x2029
    || c =ℕ 0x202f
    || c =ℕ 0x205f
    || c =ℕ 0x3000
    || c =ℕ 0xfeff

abbrev flush : List ℕ → List (List ℕ) → List (List ℕ)
flush [] rest = rest
flush (c ∷ word) rest = (c ∷ word) ∷ rest

-- trim().split(/\s+/); the empty text has no field here and one empty field there, and both are refused.
unfoldable pub fields : List ℕ → List ℕ → List (List ℕ)
fields word [] = flush word []
fields word (c ∷ text) =
    let rest = fields (if is_space c then [] else word ++ c ∷ []) text in
    if is_space c then flush word rest else rest

abbrev is_digit : ℕ → Bool
is_digit c = leb b'0' c && leb c b'9'

-- The digits up to the first other character, after `acc`.
unfoldable pub read_digits : ℕ → List ℕ → ℕ
read_digits acc [] = acc
read_digits acc (c ∷ text) =
    let rest = read_digits (acc * 10 + (c - b'0')) text in if is_digit c then rest else acc

abbrev unsigned : List ℕ → Option ℕ
unsigned [] = none
unsigned (c ∷ text) = if is_digit c then some (read_digits 0 (c ∷ text)) else none

-- A negative number; `-0` counts as zero.
abbrev negated : Option ℕ → Option (Bool × ℕ)
negated none = none
negated (some n) = some (not (n =ℕ 0), n)

abbrev plain : Option ℕ → Option (Bool × ℕ)
plain none = none
plain (some n) = some (false, n)

-- parseInt(field, 10): whether it is negative, and its size; `none` is NaN.
unfoldable pub parse_int : List ℕ → Option (Bool × ℕ)
parse_int [] = none
parse_int (c ∷ text) =
    if c =ℕ b'-'
    then negated (unsigned text)
    else if c =ℕ b'+'
    then plain (unsigned text)
    else plain (unsigned (c ∷ text))

abbrev within : ℕ → ℕ → Option (Bool × ℕ) → Option ℕ
within least most none = none
within least most (some (negative, n)) =
    if negative || ltb n least || ltb most n then none else some n

-- `none` is the error that is thrown.
unfoldable pub parse_int_cron_field : List ℕ → ℕ → ℕ → Option ℕ
parse_int_cron_field field least most =
    if same_codes field (b'*' ∷ []) then some least else within least most (parse_int field)

abbrev pub day : ℕ
day = 86_400_000

abbrev pub slot : (minute hour : ℕ) → ℕ
slot minute hour = hour * 3_600_000 + minute * 60_000

-- The candidate of the day, or the next day's where it has passed.
unfoldable pub next_at : (minute hour : ℕ) → ℕ → ℕ
next_at minute hour from =
    let candidate = from / day * day + slot minute hour in
    if leb candidate from then candidate + day else candidate

abbrev both : Option ℕ → Option ℕ → ℕ → Option ℕ
both (some minute) (some hour) from = some (next_at minute hour from)
both _ _ from = none

abbrev is_star : List ℕ → Bool
is_star field = same_codes field (b'*' ∷ [])

-- Exactly five fields, and `*` in the last three.
abbrev pub next_of_fields : List (List ℕ) → ℕ → Option ℕ
next_of_fields (minute ∷ hour ∷ day_field ∷ month ∷ weekday ∷ []) from =
    if is_star day_field && is_star month && is_star weekday
    then both (parse_int_cron_field minute 0 59) (parse_int_cron_field hour 0 23) from
    else none
next_of_fields _ from = none

unfoldable pub next_scheduled_time : String → ℕ → Option ℕ
next_scheduled_time expression from = next_of_fields (fields [] (codes expression)) from
