-- ===== src/Gateway/Messages.antt =====
-- What plans.py says of a plan: `_minutes`, `Plan.describe` and `Plan.exhausted_message`. Times are in milliseconds.
--
-- `Fixed` stands for Python's formatting of a float: the quotient of two numbers with so many digits after the
-- point. A placeholder of `str.format` is a name between braces; one with a conversion or a format, or with
-- another name, raises here.
use Prim.Native.Char.{Char, code}
use opendss_designer_cloud.Base.{
  ℕ, String, Option, none, some, List, ltb, ◌==◌, same, if◌then◌else◌,
}
use opendss_designer_cloud.Base.Text.{join}
use opendss_designer_cloud.Gateway.Plans.{Plan}

-- digits, numerator, denominator
abbrev pub Fixed : Type 0
Fixed = ℕ → ℕ → ℕ → String

unfoldable pub minutes : Fixed → ℕ → String
minutes fixed t =
    if ltb t 60000
    then join (fixed 0 t 1000) " s"
    else if ltb t 5400000
    then join (fixed 0 t 60000) " min"
    else join (fixed 1 t 3600000) " h"

unfoldable pub period_phrase : Plan → String
period_phrase p = if same p.budget_period "month" then "this month" else "today"

-- The arguments of `message.format`.
abbrev pub Fields : Type 0
Fields = String → Option String

-- What the scan of a template is in: text, after a brace, or in a name with what of it was read.
pub data Scan : Type 0 where
  plain after_open after_close : Scan
  name : String → Scan

abbrev letter_first : Char → Option String → Option String
letter_first c none = none
letter_first c (some s) = some (String.◌∷◌ c s)

abbrev value_first : Option String → Option String → Option String
value_first none rest = none
value_first (some v) none = none
value_first (some v) (some s) = some (join v s)

-- `none` is an exception: a name that is not known, or a brace that stands alone.
unfoldable pub format : Fields → Scan → String → Option String
format fields plain String.[] = some ""
format fields after_open String.[] = none
format fields after_close String.[] = none
format fields (name n) String.[] = none
format fields plain (String.◌∷◌ c s) =
    let opened = format fields after_open s in
    let closed = format fields after_close s in
    let text = letter_first c (format fields plain s) in
    if code c == b'{' then opened else if code c == b'}' then closed else text
format fields after_open (String.◌∷◌ c s) =
    let brace = letter_first c (format fields plain s) in
    let named = value_first (fields "") (format fields plain s) in
    let letter = format fields (name (String.◌∷◌ c "")) s in
    if code c == b'{' then brace else if code c == b'}' then named else letter
format fields after_close (String.◌∷◌ c s) =
    let brace = letter_first c (format fields plain s) in if code c == b'}' then brace else none
format fields (name n) (String.◌∷◌ c s) =
    let named = value_first (fields n) (format fields plain s) in
    let letter = format fields (name (join n (String.◌∷◌ c ""))) s in
    if code c == b'}' then named else letter

unfoldable pub message_fields : Fixed → Plan → ℕ → ℕ → Fields
message_fields fixed p budget used k =
    if same k "used"
    then some (minutes fixed used)
    else if same k "budget"
    then some (minutes fixed budget)
    else if same k "period"
    then some (period_phrase p)
    else none

-- The `plan` block of the limits header. An empty message is `none`.
pub record PlanBlock : Type 0 where
  pub name : String
  pub message : Option String
  pub links : List (String × String)

abbrev or_none : String → Option String
or_none s = if same s "" then none else some s

abbrev block : Plan → Option String → Option PlanBlock
block p none = none
block p (some m) = some (record { name = p.name; message = or_none m; links = p.links })

-- A budget of 0 is falsy: its message is not formatted.
unfoldable pub message_of : Fixed → Plan → ℕ → Option ℕ → Option String
message_of fixed p used none = some p.message
message_of fixed p used (some b) =
    if b == 0 then some p.message else format (message_fields fixed p b used) plain p.message

-- `Plan.describe`; `none` is an exception of `format`.
unfoldable pub describe : Fixed → Plan → ℕ → Option PlanBlock
describe fixed p used = block p (message_of fixed p used p.budget_seconds)

abbrev pub or_0 : Option ℕ → ℕ
or_0 none = 0
or_0 (some n) = n

unfoldable pub exhausted_message : Fixed → Plan → String
exhausted_message fixed p = join "You have used " (
    join (minutes fixed (or_0 p.budget_seconds)) (
      join " of solver time " (
        join (period_phrase p) (
          join ", which is all the " (
            join p.name (
              join " plan allows. It resets at midnight UTC" (
                join (if same p.budget_period "month" then " on the 1st" else "")
                  ". Run OpenDSS Designer locally (pip install opendss-designer) for unlimited runs.")))))))
