-- ===== src/Proxy/Ring.antt =====
-- cms/ioproxy.c: a ring of MAX_REQUEST_COUNT places, read as the list of what it holds.
use nicof.Prelude.{
  ℕ, zero, suc, ◌+◌, ◌%◌, ◌<◌, ◌≡◌, refl, ap, ap₂, ◌≢◌, Option, List, [], ◌∷◌, ◌++◌, set, length,
  arith,
}
use nicof.Proxy.{max_request_count, ring_next, at}

-- The place `n` steps on.
abbrev pub steps : ℕ → ℕ → ℕ
steps i zero = i
steps i (suc n) = steps (ring_next i) n

-- What stands in `n` places from `i` on.
abbrev pub window : List (Option ℕ) → ℕ → ℕ → List (Option ℕ)
window ring i zero = []
window ring i (suc n) = at ring i ∷ window ring (ring_next i) n

pub steps-eq-mod : (i n : ℕ) → i < max_request_count → steps i n ≡ (i + n) % max_request_count
steps-eq-mod i zero h = omega arith
steps-eq-mod i (suc n) h = ground (arith, steps-eq-mod (ring_next i) n)

pub steps-lt : (i n : ℕ) → i < max_request_count → steps i n < max_request_count
steps-lt i n h = omega (arith, steps-eq-mod i n h)

pub at-set_self :
    (ring : List (Option ℕ)) (i : ℕ) (v : Option ℕ) → i < length ring → at (set ring i v) i ≡ v
at-set_self [] i v h = absurd (omega arith)
at-set_self (x ∷ ring) zero v h = refl
at-set_self (x ∷ ring) (suc i) v h = at-set_self ring i v (omega arith)

pub at-set_ne :
    (ring : List (Option ℕ)) (i j : ℕ) (v : Option ℕ) → i ≢ j → at (set ring i v) j ≡ at ring j
at-set_ne [] i j v h = refl
at-set_ne (x ∷ ring) zero zero v h = absurd (h refl)
at-set_ne (x ∷ ring) zero (suc j) v h = refl
at-set_ne (x ∷ ring) (suc i) zero v h = refl
at-set_ne (x ∷ ring) (suc i) (suc j) v h = at-set_ne ring i j v (λ e. h (ap suc e))

-- A write outside the window leaves it.
pub window-set_ne :
    (ring : List (Option ℕ)) (i n j k : ℕ) (v : Option ℕ)
    → i < max_request_count
    → j ≡ (i + n + k) % max_request_count
    → n + k < max_request_count
    → window (set ring j v) i n ≡ window ring i n
window-set_ne ring i zero j k v h e l = refl
window-set_ne ring i (suc n) j k v h e l =
    ap₂ ◌∷◌ (at-set_ne ring j i v (λ x. omega arith))
      (window-set_ne ring (ring_next i) n j k v (ground arith) (ground arith) (omega arith))

-- A write to the place behind the window extends it.
pub window-snoc :
    (ring : List (Option ℕ)) (i n j : ℕ) (v : Option ℕ)
    → length ring ≡ max_request_count
    → i < max_request_count
    → n < max_request_count
    → j ≡ steps i n
    → window (set ring j v) i (suc n) ≡ window ring i n ++ v ∷ []
window-snoc ring i zero j v r h l e = rw e (ap (λ x. x ∷ []) (at-set_self ring i v (omega arith)))
window-snoc ring i (suc n) j v r h l e =
    ap₂ ◌∷◌ (at-set_ne ring j i v (λ x. omega (arith, steps-eq-mod i (suc n) h)))
      (window-snoc ring (ring_next i) n j v r (ground arith) (omega arith) e)
