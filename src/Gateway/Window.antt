-- ===== src/Gateway/Window.antt =====
-- `_RateWindow` of app.py: a sliding-window counter. The queue of a key is a list, oldest hit first.
use opendss_designer_cloud.Base.{
  ℕ, ◌+◌, String, Bool, true, false, List, [], ◌∷◌, ◌++◌, ltb, leb, same, if◌then◌else◌, length,
}

pub record RateWindow : Type 0 where
  pub limit : ℕ
  pub window : ℕ
  pub hits : String → List ℕ

-- `q[0] < now - window`, with the subtraction moved: times are natural numbers.
unfoldable pub drop_old : ℕ → ℕ → List ℕ → List ℕ
drop_old window now [] = []
drop_old window now (t ∷ q) =
    let rest = drop_old window now q in if ltb (t + window) now then rest else t ∷ q

abbrev pub set_hits : RateWindow → String → List ℕ → RateWindow
set_hits w k q = record w { hits = λ j. if same k j then q else w.hits j }

unfoldable pub allow : RateWindow → ℕ → String → Bool × RateWindow
allow w now k =
    let q = drop_old w.window now (w.hits k) in
    if leb w.limit (length q) then (false, set_hits w k q) else (true, set_hits w k (q ++ now ∷ []))
