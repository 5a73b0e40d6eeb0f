-- ===== src/Gateway/Emails.antt =====
-- `valid_email` of auth.py: the pattern `^[^@\s]{1,64}@[^@\s]{1,255}\.[^@\s]{2,}$` on ASCII texts.
--
-- The classes exclude `@`, so the `@` of a match is the text's only one. What follows it matches where some
-- point in it has 1 to 255 characters before and 2 or more after.
use Prim.Native.Char.{code}
use opendss_designer_cloud.Base.{
  ℕ, suc, ◌≡◌, refl, String, Bool, true, false, not, ◌&&◌, ◌||◌, Option, none, some, leb, ◌==◌,
  if◌then◌else◌,
}
use opendss_designer_cloud.Base.Text.{lower, strip, is_space}
use opendss_designer_cloud.Base.Text.Split.{split_once}

-- `len(s)`
unfoldable pub text_length : String → ℕ
text_length String.[] = 0
text_length (String.◌∷◌ c s) = suc (text_length s)

-- `[^@\s]*`
unfoldable pub is_plain : String → Bool
is_plain String.[] = true
is_plain (String.◌∷◌ c s) = not (code c == b'@' || is_space (code c)) && is_plain s

-- A point with 1 to 255 characters before it, of which `n` have been read, and 2 or more after it.
unfoldable pub has_point : ℕ → String → Bool
has_point n String.[] = false
has_point n (String.◌∷◌ c s) =
    let later = has_point (suc n) s in
    (code c == b'.' && (leb 1 n && (leb n 255 && leb 2 (text_length s)))) || later

unfoldable pub is_address : Option (String × String) → Bool
is_address none = false
is_address (some (name, domain)) =
    leb 1 (text_length name)
    && (leb (text_length name) 64 && (is_plain name && (is_plain domain && has_point 0 domain)))

unfoldable pub valid_email : String → Option String
valid_email value =
    let s = strip value in
    if is_address (split_once "@" s) && leb (text_length s) 254 then some (lower s) else none

normal : valid_email "  Ada.L@Mail.Example.COM " ≡ some "ada.l@mail.example.com"
unfolding valid_email is_address is_plain has_point text_length split_once strip lower
normal = refl

no_domain : valid_email "ada@example" ≡ none
unfolding valid_email is_address is_plain has_point text_length split_once strip
no_domain = refl

two_at : valid_email "ada@b@example.com" ≡ none
unfolding valid_email is_address is_plain has_point text_length split_once strip
two_at = refl
