-- ===== src/Pages/Template.antt =====
-- The f-strings of pages.py: a template is the list of an f-string's parts, and `render` is its value.
--
-- A part is literal text, a field `{h(x)}`, or a number under a format. HTML that a page puts into
-- another is a template too, so the parts of the one stand among those of the other.
use opendss_designer_cloud.Base.{
  ℕ, ◌%◌, ◌≡◌, refl, String, Bool, true, false, not, ◌&&◌, List, [], ◌∷◌, ◌==◌, if◌then◌else◌,
}
use opendss_designer_cloud.Base.Text.{join, decimal}
use opendss_designer_cloud.Gateway.Emails.{text_length}
use opendss_designer_cloud.Gateway.Messages.{Fixed}
use opendss_designer_cloud.Pages.Escape.{escape}

-- A number and its format: none, `:,`, `:g`, and `.2f` of a quotient (digits, numerator, denominator).
pub data Figure : Type 0 where
  plain grouped general : ℕ → Figure
  fixed : ℕ → ℕ → ℕ → Figure

pub data Part : Type 0 where
  raw : String → Part
  field : String → Part
  figure : Figure → Part

abbrev pub Template : Type 0
Template = List Part

-- Python's formatting of floats.
pub record Formats : Type 0 where
  pub fixed : Fixed
  pub general : ℕ → String

-- A comma after every digit that has a multiple of three behind it.
unfoldable pub commas : String → String
commas String.[] = ""
commas (String.◌∷◌ c s) =
    let rest = commas s in
    if not (text_length s == 0) && text_length s % 3 == 0
    then String.◌∷◌ c (String.◌∷◌ "," rest)
    else String.◌∷◌ c rest

unfoldable pub written : Formats → Figure → String
written f (plain n) = decimal n
written f (grouped n) = commas (decimal n)
written f (general n) = f.general n
written f (fixed digits n d) = f.fixed digits n d

unfoldable pub shown : Formats → Part → String
shown f (raw s) = s
shown f (field s) = escape s
shown f (figure n) = written f n

unfoldable pub render : Formats → Template → String
render f [] = ""
render f (p ∷ ps) = join (shown f p) (render f ps)

-- `if text`, for HTML made so far
abbrev pub is_empty : Template → Bool
is_empty [] = true
is_empty (p ∷ ps) = false

grouped_samples : (commas (decimal 250000) ≡ "250,000") × (commas (decimal 10) ≡ "10")
unfolding commas decimal text_length
grouped_samples = (refl, refl)
