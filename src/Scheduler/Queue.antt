-- ===== src/Scheduler/Queue.antt =====
-- The queue of waiters: `heappush`, the re-queueing of skipped waiters and `_forget` keep its order.
use opendss_designer_cloud.Base.{
  ℕ, suc, ◌≤◌, ◌≡◌, refl, ap, ◌∙◌, true, false, inl, inr, List, [], ◌∷◌, ◌++◌, arith, ◌==◌, ◌&&◌,
  All, All-append_left, All-append_right, length, Bool-cases,
}
use opendss_designer_cloud.Scheduler.{Waiter, before, heappush, push_all, remove_waiter}

-- The first of two waiters is popped before the second, and their seqs differ.
abbrev pub Ahead : Waiter → Waiter → Type 0
Ahead v w = (before v w ≡ true) × ((v.seq == w.seq) ≡ false)

abbrev pub InOrder : List Waiter → Type 0
InOrder [] = Unit {0}
InOrder (w ∷ ws) = All (Ahead w) ws × InOrder ws

Ahead-trans : (u v w : Waiter) → Ahead u v → Ahead v w → (u.seq == w.seq) ≡ false → Ahead u w
Ahead-trans u v w h k d = ground arith

abbrev pub Differs : Waiter → Waiter → Type 0
Differs w v = (w.seq == v.seq) ≡ false

pub All-heappush {κ} :
    (P : Waiter → Type κ) (q : List Waiter) (w : Waiter) → P w → All P q → All P (heappush q w)
unfolding heappush
All-heappush P [] w h k = (h, tt)
All-heappush P (v ∷ q) w h k = elim (Bool-cases (before w v)) [
  | inl e ↦ rw e (h, k)
  | inr e ↦ rw e (k.0, All-heappush P q w h k.1)
]

Ahead-All :
    (w v : Waiter) (q : List Waiter)
    → Ahead w v
    → All (Ahead v) q
    → All (Differs w) q
    → All (Ahead w) q
Ahead-All w v [] h k d = tt
Ahead-All w v (u ∷ q) h k d = (Ahead-trans w v u h k.0 d.0, Ahead-All w v q h k.1 d.1)

pub heappush-InOrder :
    (q : List Waiter) (w : Waiter) → InOrder q → All (Differs w) q → InOrder (heappush q w)
unfolding heappush
heappush-InOrder [] w h d = (tt, tt)
heappush-InOrder (v ∷ q) w h d = elim (Bool-cases (before w v)) [
  | inl e ↦ rw e (((e, d.0), Ahead-All w v q (e, d.0) h.0 d.1), h)
  | inr e ↦ rw e (All-heappush (Ahead v) q w (ground arith) h.0, heappush-InOrder q w h.1 d.1)
]

pub length-heappush : (q : List Waiter) (w : Waiter) → length (heappush q w) ≡ suc (length q)
unfolding heappush
length-heappush [] w = refl
length-heappush (v ∷ q) w = ground (arith, length-heappush q w)

push_all-cons :
    (v : Waiter) (q ws : List Waiter) → All (Ahead v) ws → push_all (v ∷ q) ws ≡ v ∷ push_all q ws
unfolding push_all heappush
push_all-cons v q [] h = refl
push_all-cons v q (w ∷ ws) h =
    let e : before w v ≡ false = ground arith in rw e (push_all-cons v (heappush q w) ws h.1)

heappush_least : (q : List Waiter) (w : Waiter) → All (Ahead w) q → heappush q w ≡ w ∷ q
unfolding heappush
heappush_least [] w h = refl
heappush_least (v ∷ q) w h = rw h.0.0

-- Skipped waiters go back to where they were.
pub push_all-append : (ws q : List Waiter) → InOrder (ws ++ q) → push_all q ws ≡ ws ++ q
unfolding push_all
push_all-append [] q h = refl
push_all-append (w ∷ ws) q h = rw (heappush_least q w (All-append_right (Ahead w) ws q h.0)) (
    push_all-cons w q ws (All-append_left (Ahead w) ws q h.0)
    ∙ ap (◌∷◌ w) (push_all-append ws q h.1))

pub All-remove_waiter {κ} :
    (P : Waiter → Type κ) (priority seq : ℕ) (q : List Waiter)
    → All P q
    → All P (remove_waiter priority seq q)
unfolding remove_waiter
All-remove_waiter P p k [] h = tt
All-remove_waiter P p k (v ∷ q) h = elim (Bool-cases (v.priority == p && v.seq == k)) [
  | inl e ↦ rw e h.1
  | inr e ↦ rw e (h.0, All-remove_waiter P p k q h.1)
]

pub remove_waiter-InOrder :
    (priority seq : ℕ) (q : List Waiter) → InOrder q → InOrder (remove_waiter priority seq q)
unfolding remove_waiter
remove_waiter-InOrder p k [] h = tt
remove_waiter-InOrder p k (v ∷ q) h = elim (Bool-cases (v.priority == p && v.seq == k)) [
  | inl e ↦ rw e h.1
  | inr e ↦ rw e (All-remove_waiter (Ahead v) p k q h.0, remove_waiter-InOrder p k q h.1)
]

pub length-remove_waiter-le :
    (priority seq : ℕ) (q : List Waiter) → length (remove_waiter priority seq q) ≤ length q
unfolding remove_waiter
length-remove_waiter-le p k [] = omega arith
length-remove_waiter-le p k (v ∷ q) = ground (arith, length-remove_waiter-le p k q)
