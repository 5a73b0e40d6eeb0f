-- ===== src/Pages/Markup.antt =====
-- What of a page is markup, and that the fields of a template cannot change it.
--
-- The scanner is a specification: HTML as the pages write it, with tags that have values in double or in
-- single quotes. The markup of a text is its tags without what stands between the quotes.
use Prim.Native.Char.{code}
use opendss_designer_cloud.Base.{
  ℕ, ◌≡◌, refl, sym, ◌∙◌, String, Bool, true, false, ◌||◌, Option, none, some, [], ◌∷◌, ◌++◌, ◌==◌,
  if◌then◌else◌, arith, refuted,
}
use opendss_designer_cloud.Base.Text.{join, decimal}
use opendss_designer_cloud.Base.Text.Numbers.{all_digits, decimal-all_digits}
use opendss_designer_cloud.Pages.Escape.{is_special, inert, escape, escape-inert}
use opendss_designer_cloud.Pages.Template.{
  Figure, plain, grouped, general, fixed, raw, field, figure, Template, Formats, commas, written,
  shown, render,
}

pub data Place : Type 0 where
  text tag in_double in_single : Place

unfoldable pub next : Place → ℕ → Place
next text c = if c == b'<' then tag else text
next tag c =
    if c == b'>'
    then text
    else if c == b'"'
    then in_double
    else if c == b'\''
    then in_single
    else tag
next in_double c = if c == b'"' then tag else in_double
next in_single c = if c == b'\'' then tag else in_single

abbrev pub is_tag : Place → Bool
is_tag text = false
is_tag tag = true
is_tag in_double = false
is_tag in_single = false

-- Where the scan of a text ends.
unfoldable pub end : Place → String → Place
end p String.[] = p
end p (String.◌∷◌ c s) = end (next p (code c)) s

-- Its characters that are in a tag, or that begin one or end a value.
unfoldable pub markup : Place → String → String
markup p String.[] = ""
markup p (String.◌∷◌ c s) =
    let rest = markup (next p (code c)) s in
    if is_tag p || is_tag (next p (code c)) then String.◌∷◌ c rest else rest

sample : markup text "<a href=\"x>y\">5 > 4</a>" ≡ "<a href=\"\"></a>"
unfolding markup next
sample = refl

-- The template with empty fields.
unfoldable pub blank : Template → Template
blank [] = []
blank (raw s ∷ ps) = raw s ∷ blank ps
blank (field s ∷ ps) = field "" ∷ blank ps
blank (figure n ∷ ps) = field "" ∷ blank ps

-- Where the literal parts lead if no field stands in a tag; `none` where one does.
unfoldable pub thread : Place → Template → Option Place
thread p [] = some p
thread p (raw s ∷ ps) = thread (end p s) ps
thread p (field s ∷ ps) = let rest = thread p ps in if is_tag p then none else rest
thread p (figure n ∷ ps) = let rest = thread p ps in if is_tag p then none else rest

-- The texts of floats have none of the four characters.
pub record Plain (f : Formats) : Type 0 where
  pub fixed-inert : (digits n d : ℕ) → inert (f.fixed digits n d) ≡ true
  pub general-inert : (n : ℕ) → inert (f.general n) ≡ true

end-join : (p : Place) (s t : String) → end p (join s t) ≡ end (end p s) t
unfolding end join
end-join p String.[] t = refl
end-join p (String.◌∷◌ c s) t = end-join (next p (code c)) s t

markup-join :
    (p : Place) (s t : String) → markup p (join s t) ≡ join (markup p s) (markup (end p s) t)
unfolding markup join end
markup-join p String.[] t = refl
markup-join p (String.◌∷◌ c s) t = ground (arith, markup-join (next p (code c)) s t)

-- A text without the four characters does not move the scan, in the text or between quotes.
next-inert : (p : Place) (c : ℕ) → is_tag p ≡ false → is_special c ≡ false → next p c ≡ p
unfolding next
next-inert text c o h = ground arith
next-inert tag c o h = absurd (refuted (sym o))
next-inert in_double c o h = ground arith
next-inert in_single c o h = ground arith

end-inert : (p : Place) (s : String) → is_tag p ≡ false → inert s ≡ true → end p s ≡ p
unfolding end inert
end-inert p String.[] o h = refl
end-inert p (String.◌∷◌ c s) o h =
    rw (next-inert p (code c) o (ground arith)) (end-inert p s o (ground arith))

markup-inert : (p : Place) (s : String) → is_tag p ≡ false → inert s ≡ true → markup p s ≡ ""
unfolding markup inert
markup-inert p String.[] o h = refl
markup-inert p (String.◌∷◌ c s) o h =
    rw (next-inert p (code c) o (ground arith), o) (markup-inert p s o (ground arith))

pub digits-inert : (s : String) → all_digits s ≡ true → inert s ≡ true
unfolding all_digits inert
digits-inert String.[] h = refl
digits-inert (String.◌∷◌ c s) h = ground (arith, digits-inert s)

commas-inert : (s : String) → all_digits s ≡ true → inert (commas s) ≡ true
unfolding all_digits inert commas
commas-inert String.[] h = refl
commas-inert (String.◌∷◌ c s) h = ground (arith, commas-inert s)

written-inert : (f : Formats) → Plain f → (n : Figure) → inert (written f n) ≡ true
unfolding written
written-inert f ok (plain n) = digits-inert (decimal n) (decimal-all_digits n)
written-inert f ok (grouped n) = commas-inert (decimal n) (decimal-all_digits n)
written-inert f ok (general n) = ok.general-inert n
written-inert f ok (fixed digits n d) = ok.fixed-inert digits n d

-- What two renderings of a template share, if the first is of the template itself.
unfoldable pub Agree : Formats → Place → Place → Template → Type 0
Agree f p q ps =
    (end p (render f ps) ≡ q) × (markup p (render f ps) ≡ markup p (render f (blank ps)))

thread-hole :
    (p q : Place) (o : Option Place)
    → (if is_tag p then none else o) ≡ some q
    → (is_tag p ≡ false) × (o ≡ some q)
thread-hole text q o h = (refl, h)
thread-hole tag q o h = cc
thread-hole in_double q o h = (refl, h)
thread-hole in_single q o h = (refl, h)

Agree-raw :
    (f : Formats) (p q : Place) (s : String) (ps : Template)
    → Agree f (end p s) q ps
    → Agree f p q (raw s ∷ ps)
unfolding Agree render shown blank
Agree-raw f p q s ps (e, m) = (
  end-join p s (render f ps) ∙ e,
  rw (markup-join p s (render f ps), markup-join p s (render f (blank ps)), m) refl,
)

Agree-hole :
    (f : Formats) (p q : Place) (s : String) (ps : Template)
    → is_tag p ≡ false
    → inert s ≡ true
    → Agree f p q ps
    → (end p (join s (render f ps)) ≡ q)
      × (markup p (join s (render f ps)) ≡ markup p (render f (blank ps)))
unfolding Agree join
Agree-hole f p q s ps o h (e, m) = (
  rw (end-join p s (render f ps), end-inert p s o h) e,
  rw (markup-join p s (render f ps), end-inert p s o h, markup-inert p s o h) m,
)

pub thread-Agree :
    (f : Formats) → Plain f → (p q : Place) (ps : Template) → thread p ps ≡ some q → Agree f p q ps
unfolding thread Agree render shown blank escape join end
thread-Agree f ok p q [] h = (cc, refl)
thread-Agree f ok p q (raw s ∷ ps) h = Agree-raw f p q s ps (thread-Agree f ok (end p s) q ps h)
thread-Agree f ok p q (field s ∷ ps) h =
    let (o, e) = thread-hole p q (thread p ps) h in
    Agree-hole f p q (escape s) ps o (escape-inert s) (thread-Agree f ok p q ps e)
thread-Agree f ok p q (figure n ∷ ps) h =
    let (o, e) = thread-hole p q (thread p ps) h in
    Agree-hole f p q (written f n) ps o (written-inert f ok n) (thread-Agree f ok p q ps e)

pub thread-append :
    (p q : Place) (ps qs : Template) → thread p ps ≡ some q → thread p (ps ++ qs) ≡ thread q qs
unfolding thread
thread-append p q [] qs h = cc
thread-append p q (raw s ∷ ps) qs h = thread-append (end p s) q ps qs h
thread-append p q (field s ∷ ps) qs h =
    let (o, e) = thread-hole p q (thread p ps) h in rw o (thread-append p q ps qs e)
thread-append p q (figure n ∷ ps) qs h =
    let (o, e) = thread-hole p q (thread p ps) h in rw o (thread-append p q ps qs e)
