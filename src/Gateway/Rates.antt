-- ===== src/Gateway/Rates.antt =====
-- What `_RateWindow` promises over a whole history of calls with one key.
use mathlib.Core.Path.{subst₂}
use opendss_designer_cloud.Base.{
  ℕ, ◌+◌, ◌≤◌, ◌<◌, ◌≡◌, refl, sym, subst, String, ◌&&◌, List, [], ◌∷◌, leb, same_refl,
  if◌then◌else◌, length, length-append, total, total-append, arith, Bool-cases, inl, inr,
}
use opendss_designer_cloud.Gateway.Window.{RateWindow, drop_old, allow}

-- The times of the calls that are allowed.
unfoldable pub allowed : RateWindow → String → List ℕ → List ℕ
allowed w k [] = []
allowed w k (now ∷ times) =
    let rest = allowed (allow w now k).1 k times in if (allow w now k).0 then now ∷ rest else rest

-- 1 for a time within the window that ends at `t`, and their number.
abbrev pub hit : ℕ → ℕ → ℕ → ℕ
hit window t x = if leb t (x + window) && leb x t then 1 else 0

abbrev pub hits_at : ℕ → ℕ → List ℕ → ℕ
hits_at window t ts = total (hit window t) ts

abbrev pub InOrder : ℕ → List ℕ → Type 0
InOrder t [] = Unit {0}
InOrder t (x ∷ xs) = (t ≤ x) × InOrder x xs

hits_at-length : (window t : ℕ) (ts : List ℕ) → hits_at window t ts ≤ length ts
hits_at-length window t [] = omega arith
hits_at-length window t (x ∷ ts) = ground (arith, hits_at-length window t ts)

drop_old-length : (window now : ℕ) (q : List ℕ) → length (drop_old window now q) ≤ length q
unfolding drop_old
drop_old-length window now [] = omega arith
drop_old-length window now (x ∷ q) = ground (arith, drop_old-length window now q)

-- What is dropped is in no window that ends from then on.
drop_old-hits_at :
    (window now t : ℕ) (q : List ℕ)
    → now ≤ t
    → hits_at window t (drop_old window now q) ≡ hits_at window t q
unfolding drop_old
drop_old-hits_at window now t [] h = refl
drop_old-hits_at window now t (x ∷ q) h = ground (arith, drop_old-hits_at window now t q h)

-- What comes later is in no window that has ended.
allowed-later :
    (w : RateWindow) (k : String) (window t : ℕ) (times : List ℕ) (from : ℕ)
    → t < from
    → InOrder from times
    → hits_at window t (allowed w k times) ≡ 0
unfolding allowed
allowed-later w k window t [] from h o = refl
allowed-later w k window t (now ∷ times) from h (a, o) =
    ground (arith, allowed-later (allow w now k).1 k window t times now (omega arith) o)

-- A call, by its answer.
allow-length :
    (w : RateWindow) (now : ℕ) (k : String)
    → length (w.hits k) ≤ w.limit
    → length ((allow w now k).1.hits k) ≤ w.limit
unfolding allow
allow-length w now k h = ground (
  arith,
  same_refl k,
  drop_old-length w.window now (w.hits k),
  length-append (drop_old w.window now (w.hits k)) (now ∷ []),
)

allow-hits_at :
    (w : RateWindow) (now t : ℕ) (k : String)
    → now ≤ t
    → hits_at w.window t ((allow w now k).1.hits k)
      ≡ hits_at w.window t (w.hits k) + (if (allow w now k).0 then hit w.window t now else 0)
unfolding allow
allow-hits_at w now t k h = ground (
  arith,
  same_refl k,
  drop_old-hits_at w.window now t (w.hits k) h,
  total-append (hit w.window t) (drop_old w.window now (w.hits k)) (now ∷ []),
)

allow-limit : (w : RateWindow) (now : ℕ) (k : String) → (allow w now k).1.limit ≡ w.limit
unfolding allow
allow-limit w now k = ground arith

allow-window : (w : RateWindow) (now : ℕ) (k : String) → (allow w now k).1.window ≡ w.window
unfolding allow
allow-window w now k = ground arith

rate_from :
    (w : RateWindow) (k : String) (from : ℕ) (times : List ℕ) (t : ℕ)
    → length (w.hits k) ≤ w.limit
    → InOrder from times
    → hits_at w.window t (w.hits k) + hits_at w.window t (allowed w k times) ≤ w.limit
unfolding allowed
rate_from w k from [] t h o = omega (arith, hits_at-length w.window t (w.hits k))
rate_from w k from (now ∷ times) t h (a, o) = elim (Bool-cases (leb now t)) [
  | inl e ↦ ground (
    arith,
    allow-hits_at w now t k (ground arith),
    subst₂
        (λ l v.
          hits_at v t ((allow w now k).1.hits k) + hits_at v t (allowed (allow w now k).1 k times)
          ≤ l)
        (allow-limit w now k) (allow-window w now k)
        (rate_from (allow w now k).1 k now times t
          (subst (λ l. length ((allow w now k).1.hits k) ≤ l) (sym (allow-limit w now k))
            (allow-length w now k h))
          o),
  )
  | inr e ↦ ground (
    arith,
    hits_at-length w.window t (w.hits k),
    allowed-later (allow w now k).1 k w.window t times now (ground arith) o,
  )
]

-- For calls with one key that come in order of time, of those that are allowed at most `limit` fall
-- within any stretch of `window`, from the moment at which there are no hits.
pub rate_bounded :
    (w : RateWindow) (k : String) (times : List ℕ) (t : ℕ)
    → w.hits k ≡ []
    → InOrder 0 times
    → hits_at w.window t (allowed w k times) ≤ w.limit
rate_bounded w k times t h o =
    let fits : length (w.hits k) ≤ w.limit = rw h (omega arith) in
    omega (arith, rate_from w k 0 times t fits o)
