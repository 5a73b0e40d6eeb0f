-- ===== src/Billing/Signature.antt =====
-- `verify_signature` and `sign` of billing.py. `hmac` is the hex digest of HMAC-SHA256 of a message under a
-- secret, both as bytes of ASCII. `now` is in milliseconds, the header's time in seconds.
-- A candidate that is not ASCII, at which `compare_digest` raises, counts as no match.
use Prim.Native.Char.{Char, code}
use opendss_designer_cloud.Base.{
  refuted, ℕ, suc, ◌+◌, ◌-◌, ◌*◌, ◌≤◌, ◌≡◌, refl, ap, ◌∙◌, String, Bool, true, false, ◌&&◌, ◌||◌,
  Option, none, some, List, [], ◌∷◌, ◌++◌, arith, same, same_refl, same_ne, ltb, if◌then◌else◌,
}
use opendss_designer_cloud.Base.Int.{ℤ, pos, negsuc}
use opendss_designer_cloud.Base.Text.{join, decimal}
use opendss_designer_cloud.Base.Text.Numbers.{int_of, int_of-decimal, decimal-all_digits}
use opendss_designer_cloud.Base.Text.Split.{
  split_on, split_once, is_free, split_on-free, split_on-join, split_once-join, all_digits-is_free,
}

abbrev pub Bytes : Type 0
Bytes = List ℕ

abbrev pub Hmac : Type 0
Hmac = String → Bytes → String

-- `text.encode()`, of ASCII
unfoldable pub encode : String → Bytes
encode String.[] = []
encode (String.◌∷◌ c s) = code c ∷ encode s

-- `TOLERANCE_S`, in milliseconds.
abbrev pub tolerance : ℕ
tolerance = 300000

-- `(p.split("=", 1) for p in parts if "=" in p)`
unfoldable pub pairs : List String → List (String × String)
pairs [] = []
pairs (p ∷ ps) = elim (split_once "=" p) [ none ↦ pairs ps | some kv ↦ kv ∷ pairs ps ]

-- `dict(pairs).get(key)`: the last value of a key is kept.
unfoldable pub last_of : String → List (String × String) → Option String
last_of key [] = none
last_of key ((k, v) ∷ ps) = elim (last_of key ps) [
  | some w ↦ some w
  | none ↦ if same k key then some v else none
]

-- `any(... for k, v in pairs if k == "v1")`
unfoldable pub any_candidate : String → List (String × String) → Bool
any_candidate expected [] = false
any_candidate expected ((k, v) ∷ ps) = (same k "v1" && same expected v) || any_candidate expected ps

abbrev distance : ℕ → ℕ → ℕ
distance a b = (a - b) + (b - a)

-- `abs(now - ts)`
unfoldable pub skew : ℕ → ℤ → ℕ
skew now (pos ts) = distance now (ts * 1000)
skew now (negsuc n) = now + suc n * 1000

-- `f"{ts}"`
unfoldable pub str_of : ℤ → String
str_of (pos n) = decimal n
str_of (negsuc n) = join "-" (decimal (suc n))

unfoldable pub expected_mac : Hmac → String → Bytes → ℤ → String
expected_mac hmac secret payload ts = hmac secret (encode (join (str_of ts) ".") ++ payload)

-- What `verify_signature` raises, and that it returns.
pub data Verdict : Type 0 where
  accepted : Verdict
  missing malformed outside mismatch : Verdict

abbrev pub or_empty : Option String → String
or_empty none = ""
or_empty (some s) = s

unfoldable pub check_time : Hmac → Bytes → List (String × String) → String → ℕ → Option ℤ → Verdict
check_time hmac payload ps secret now none = malformed
check_time hmac payload ps secret now (some ts) =
    if ltb tolerance (skew now ts)
    then outside
    else if any_candidate (expected_mac hmac secret payload ts) ps
    then accepted
    else mismatch

unfoldable pub verify_header : Hmac → Bytes → String → String → ℕ → Verdict
verify_header hmac payload header secret now =
    let ps = pairs (split_on "," header) in
    check_time hmac payload ps secret now (int_of (or_empty (last_of "t" ps)))

unfoldable pub verify_signature : Hmac → Bytes → Option String → String → ℕ → Verdict
verify_signature hmac payload none secret now = missing
verify_signature hmac payload (some header) secret now =
    if same header "" || same secret ""
    then missing
    else verify_header hmac payload header secret now

unfoldable pub sign : Hmac → Bytes → String → ℕ → String
sign hmac payload secret ts =
    join "t=" (join (decimal ts) (join ",v1=" (expected_mac hmac secret payload (pos ts))))

decimal_free : (n : ℕ) → is_free "," (join "t=" (decimal n)) ≡ true
unfolding join is_free
decimal_free n = all_digits-is_free "," (decimal n) refl (decimal-all_digits n)

pairs_step :
    (p : String) (kv : String × String) (ps : List String)
    → split_once "=" p ≡ some kv
    → pairs (p ∷ ps) ≡ kv ∷ pairs ps
unfolding pairs
pairs_step p kv ps h = rw (h, pairs)

-- The header that `sign` writes is cut into its two pairs.
sign-pairs :
    (n : ℕ) (mac : String)
    → is_free "," mac ≡ true
    → pairs (split_on "," (join "t=" (join (decimal n) (join ",v1=" mac))))
      ≡ ("t", decimal n) ∷ ("v1", mac) ∷ []
unfolding join is_free pairs
sign-pairs n mac h =
    ap pairs (
      split_on-join "," (join "t=" (decimal n)) (join "v1=" mac) (decimal_free n)
      ∙ ap (λ ps. join "t=" (decimal n) ∷ ps) (split_on-free "," (join "v1=" mac) h))
    ∙ pairs_step (join "t=" (decimal n)) ("t", decimal n) (join "v1=" mac ∷ [])
        (split_once-join "=" "t" (decimal n) refl)
    ∙ ap (λ ps. ("t", decimal n) ∷ ps)
        (pairs_step (join "v1=" mac) ("v1", mac) [] (split_once-join "=" "v1" mac refl))

is_nil : String → Bool
is_nil String.[] = true
is_nil (String.◌∷◌ c s) = false

nonempty : (c : Char) (s : String) → same (String.◌∷◌ c s) "" ≡ false
unfolding is_nil
nonempty c s = same_ne (String.◌∷◌ c s) "" (λ e. refuted (ap is_nil e))

abbrev checked : Hmac → Bytes → String → ℕ → List (String × String) → Verdict
checked hmac payload secret now ps =
    check_time hmac payload ps secret now (int_of (or_empty (last_of "t" ps)))

checked-sign :
    (hmac : Hmac) (payload : Bytes) (secret : String) (ts now : ℕ)
    → skew now (pos ts) ≤ tolerance
    → let mac = expected_mac hmac secret payload (pos ts) in
      checked hmac payload secret now (("t", decimal ts) ∷ ("v1", mac) ∷ []) ≡ accepted
unfolding last_of same check_time any_candidate
checked-sign hmac payload secret ts now t =
    let mac = expected_mac hmac secret payload (pos ts) in
    ap (check_time hmac payload (("t", decimal ts) ∷ ("v1", mac) ∷ []) secret now)
      (int_of-decimal ts)
    ∙ ground (arith, same_refl mac)

-- A header that `sign` writes is accepted with the same payload and secret, if the secret is not
-- empty, the digest has no comma in it and the clock is within the tolerance.
pub verify_signature-sign :
    (hmac : Hmac) (payload : Bytes) (secret : String) (ts now : ℕ)
    → same secret "" ≡ false
    → is_free "," (expected_mac hmac secret payload (pos ts)) ≡ true
    → skew now (pos ts) ≤ tolerance
    → verify_signature hmac payload (some (sign hmac payload secret ts)) secret now ≡ accepted
unfolding verify_signature verify_header sign join
verify_signature-sign hmac payload secret ts now s f t = rw (s, sign-present, verify_header-sign)
  where
    sign-present : same (sign hmac payload secret ts) "" ≡ false
    sign-present = nonempty "t" _

    verify_header-sign :
        verify_header hmac payload (sign hmac payload secret ts) secret now ≡ accepted
    verify_header-sign =
        ap (checked hmac payload secret now)
          (sign-pairs ts (expected_mac hmac secret payload (pos ts)) f)
        ∙ checked-sign hmac payload secret ts now t
