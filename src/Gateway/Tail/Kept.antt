-- ===== src/Gateway/Tail/Kept.antt =====
-- The tail of a stream is its end, however the stream is cut into chunks.
use opendss_designer_cloud.Base.{
  ℕ, zero, suc, ◌+◌, ◌-◌, ◌≤◌, ◌≡◌, refl, sym, ap, ◌∙◌, List, [], ◌∷◌, ◌++◌, length, length-append,
  arith,
}
use mathlib.Core.List.{append-nil, append_assoc}
use opendss_designer_cloud.Gateway.Body.{Bytes, concat}
use opendss_designer_cloud.Gateway.Tail.{tail_limit, drop, keep_last, relay}

drop-append : (k : ℕ) (xs ys : Bytes) → k ≤ length xs → drop k (xs ++ ys) ≡ drop k xs ++ ys
unfolding drop
drop-append zero xs ys h = refl
drop-append (suc k) [] ys h = absurd (omega (arith, h))
drop-append (suc k) (x ∷ xs) ys h = drop-append k xs ys (omega (arith, h))

drop-nil : (n : ℕ) → drop {A = ℕ} n [] ≡ []
unfolding drop
drop-nil zero = refl
drop-nil (suc n) = refl

drop-drop : (j k : ℕ) (xs : Bytes) → drop j (drop k xs) ≡ drop (k + j) xs
unfolding drop
drop-drop j zero xs = ap (λ n. drop n xs) (omega arith)
drop-drop j (suc k) [] = drop-nil j ∙ sym (drop-nil (suc k + j))
drop-drop j (suc k) (x ∷ xs) = drop-drop j k xs ∙ ap (λ n. drop n (x ∷ xs)) (next k j)
  where
    next : (k j : ℕ) → suc (k + j) ≡ suc k + j
    next k j = omega arith

length-drop : (k : ℕ) (xs : Bytes) → length (drop k xs) ≡ length xs - k
unfolding drop
length-drop zero xs = omega arith
length-drop (suc k) [] = omega arith
length-drop (suc k) (x ∷ xs) = omega (arith, length-drop k xs)

keep_last-keep_last :
    (n : ℕ) (xs ys : Bytes) → keep_last n (keep_last n xs ++ ys) ≡ keep_last n (xs ++ ys)
unfolding keep_last
keep_last-keep_last n xs ys =
    let k = length xs - n in
    rw
      (
        sym (drop-append k xs ys (omega arith)),
        drop-drop (length (drop k (xs ++ ys)) - n) k (xs ++ ys),
      )
      (ap (λ m. drop m (xs ++ ys)) (omega (arith, length-drop k (xs ++ ys), length-append xs ys)))

relay-keep_last :
    (xs : Bytes) (chunks : List Bytes)
    → relay (keep_last tail_limit xs) chunks ≡ keep_last tail_limit (xs ++ concat chunks)
unfolding relay concat
relay-keep_last xs [] = ap (keep_last tail_limit) (sym (append-nil xs))
relay-keep_last xs (chunk ∷ chunks) =
    ap (λ t. relay t chunks) (keep_last-keep_last tail_limit xs chunk)
    ∙ relay-keep_last (xs ++ chunk) chunks
    ∙ ap (keep_last tail_limit) (append_assoc xs chunk (concat chunks))

-- The tail is the end of the whole stream, however it is cut.
pub relay-concat : (chunks : List Bytes) → relay [] chunks ≡ keep_last tail_limit (concat chunks)
unfolding keep_last drop
relay-concat chunks = relay-keep_last [] chunks

pub keep_last-append :
    (n : ℕ) (front report : Bytes)
    → length report ≤ n
    → keep_last n (front ++ report) ≡ drop (length (front ++ report) - n) front ++ report
unfolding keep_last
keep_last-append n front report h =
    drop-append (length (front ++ report) - n) front report
      (omega (arith, length-append front report, h))
