-- ===== src/Sockets/Sets.antt =====
-- cms/socket.h: the macros on sets of sockets keep a set.
use Prim.Native.Nat.{bit_and, bit_or}
use nicof.Prelude.{
  ℕ, zero, suc, ◌/◌, ◌%◌, ◌≤◌, ◌<◌, ◌≡◌, ◌∙◌, refl, sym, ap, ap₂, Bool, true, false, not, ◌&&◌,
  ◌||◌, List, [], ◌∷◌, ◌≢◌, All, set, get_or, get_or-set, get_or-set_other, length, replicate,
  arith, ltb, leb, ◌==◌, if◌then◌else◌, Bool-cases, inl, inr,
}
use nicof.Prelude.Ranges.{holds, holds-at}
use nicof.Sockets.{fd_setsize, fd_bytes, fdset1, fdset0, fd_zero, fd_isset, fd_set, fd_clr}

-- The bit of a position in a byte.
abbrev bit : ℕ → ℕ → Bool
bit b i = not (bit_and b (fdset1 i) == 0)

abbrev same_bool : Bool → Bool → Bool
same_bool true c = c
same_bool false c = not c

same_bool_eq : (b c : Bool) → same_bool b c ≡ true → b ≡ c
same_bool_eq true true e = refl
same_bool_eq true false e = absurd cc
same_bool_eq false true e = absurd cc
same_bool_eq false false e = refl

abbrev set_test : ℕ → ℕ → ℕ → Bool
set_test b i j = same_bool (bit (bit_or b (fdset1 j)) i) (i == j || bit b i)

abbrev clr_test : ℕ → ℕ → ℕ → Bool
clr_test b i j = same_bool (bit (bit_and b (fdset0 j)) i) (not (i == j) && bit b i)

set_tests : holds (λ b. holds (λ i. holds (set_test b i) 0 8) 0 8) 0 256 ≡ true
unfolding holds
set_tests = refl

clr_tests : holds (λ b. holds (λ i. holds (clr_test b i) 0 8) 0 8) 0 256 ≡ true
unfolding holds
clr_tests = refl

set_bit : (b i j : ℕ) → b < 256 → i < 8 → j < 8 → bit (bit_or b (fdset1 j)) i ≡ (i == j || bit b i)
set_bit b i j hb hi hj =
    let all_i =
      holds-at (λ c. holds (λ k. holds (set_test c k) 0 8) 0 8) 256 0 b set_tests (omega arith)
        hb in
    let all_j = holds-at (λ k. holds (set_test b k) 0 8) 8 0 i all_i (omega arith) hi in
    same_bool_eq _ _ (holds-at (set_test b i) 8 0 j all_j (omega arith) hj)

clr_bit :
    (b i j : ℕ) → b < 256 → i < 8 → j < 8 → bit (bit_and b (fdset0 j)) i ≡ (not (i == j) && bit b i)
clr_bit b i j hb hi hj =
    let all_i =
      holds-at (λ c. holds (λ k. holds (clr_test c k) 0 8) 0 8) 256 0 b clr_tests (omega arith)
        hb in
    let all_j = holds-at (λ k. holds (clr_test b k) 0 8) 8 0 i all_i (omega arith) hi in
    same_bool_eq _ _ (holds-at (clr_test b i) 8 0 j all_j (omega arith) hj)

abbrev pub contains : ℕ → List ℕ → Bool
contains fd fds = not (fd_isset fd fds == 0)

-- The bytes of a set.
abbrev pub IsFdSet : List ℕ → Type 0
IsFdSet fds = (length fds ≡ fd_bytes) × All (λ b. b < 256) fds

byte_at : (fds : List ℕ) (q : ℕ) → All (λ b. b < 256) fds → get_or fds q 0 < 256
byte_at [] q a = omega arith
byte_at (b ∷ fds) zero (h, a) = h
byte_at (b ∷ fds) (suc q) (h, a) = byte_at fds q a

contains_far : (i : ℕ) (fds : List ℕ) → fd_setsize ≤ i → contains i fds ≡ false
unfolding fd_isset
contains_far i fds h = let far : leb fd_setsize i ≡ true = ground arith in rw far refl

contains_near :
    (i : ℕ) (fds : List ℕ) → i < fd_setsize → contains i fds ≡ bit (get_or fds (i / 8) 0) (i % 8)
unfolding fd_isset
contains_near i fds h = let near : leb fd_setsize i ≡ false = ground arith in rw near refl

-- A byte is replaced.
contains-write :
    (i j v : ℕ) (fds : List ℕ)
    → i < fd_setsize
    → j < fd_setsize
    → length fds ≡ fd_bytes
    → contains i (set fds (j / 8) v) ≡ (if i / 8 == j / 8 then bit v (i % 8) else contains i fds)
contains-write i j v fds hi hj size = elim (Bool-cases (i / 8 == j / 8)) [
  | inl t ↦
      let e : i / 8 ≡ j / 8 = ground arith in
      rw t (
        contains_near i (set fds (j / 8) v) hi
        ∙ ap (λ b. bit b (i % 8))
            (ap (λ q. get_or (set fds (j / 8) v) q 0) e ∙ get_or-set fds (j / 8) v 0 (omega arith)))
  | inr f ↦
      let n : j / 8 ≢ i / 8 = ground arith in
      rw f (
        contains_near i (set fds (j / 8) v) hi
        ∙ ap (λ b. bit b (i % 8)) (get_or-set_other fds (j / 8) (i / 8) v 0 n)
        ∙ sym (contains_near i fds hi))
]

-- Two sockets of one byte.
same_byte : (i j : ℕ) → i / 8 ≡ j / 8 → (i % 8 == j % 8) ≡ (i == j)
same_byte i j e = ground arith

and_false : (b : Bool) → false ≡ (b && false)
and_false true = refl
and_false false = refl

-- A change of socket `j`'s byte that makes `combine` of each bit in it.
changed :
    (combine : Bool → Bool → Bool) (i j v : ℕ) (fds : List ℕ)
    → i < fd_setsize
    → j < fd_setsize
    → IsFdSet fds
    → ((k : ℕ) → k < 8 → bit v k ≡ combine (k == j % 8) (bit (get_or fds (j / 8) 0) k))
    → ((b : Bool) → combine false b ≡ b)
    → contains i (set fds (j / 8) v) ≡ combine (i == j) (contains i fds)
changed combine i j v fds hi hj (size, bytes) bits idle =
    contains-write i j v fds hi hj size ∙ elim (Bool-cases (i / 8 == j / 8)) [
      | inl t ↦
          let e : i / 8 ≡ j / 8 = ground arith in
          rw t (
            bits (i % 8) (omega arith)
            ∙ ap₂ combine (same_byte i j e)
                (ap (λ q. bit (get_or fds q 0) (i % 8)) (sym e) ∙ sym (contains_near i fds hi)))
      | inr f ↦ let n : (i == j) ≡ false = ground arith in rw (f, n) (sym (idle (contains i fds)))
    ]

fd_set-contains :
    (i j : ℕ) (fds : List ℕ)
    → IsFdSet fds
    → contains i (fd_set j fds) ≡ ((ltb j fd_setsize && i == j) || contains i fds)
unfolding fd_set
fd_set-contains i j fds v = elim (Bool-cases (ltb j fd_setsize)) [
  | inr f ↦ rw f refl
  | inl t ↦ rw t (elim (Bool-cases (ltb i fd_setsize)) [
    | inl u ↦
        changed ◌||◌ i j _ fds (ground arith) (ground arith) v
          (λ k h.
            set_bit (get_or fds (j / 8) 0) k (j % 8) (byte_at fds (j / 8) v.1) h (omega arith))
          (λ b. refl)
    | inr u ↦
        let n : (i == j) ≡ false = ground arith in
        rw n (contains_far i _ (ground arith) ∙ sym (contains_far i fds (ground arith)))
  ])
]

fd_clr-contains :
    (i j : ℕ) (fds : List ℕ)
    → IsFdSet fds
    → contains i (fd_clr j fds) ≡ (not (i == j) && contains i fds)
unfolding fd_clr
fd_clr-contains i j fds v = elim (Bool-cases (ltb j fd_setsize)) [
  | inl t ↦ rw t (elim (Bool-cases (ltb i fd_setsize)) [
    | inl u ↦
        changed (λ b c. not b && c) i j _ fds (ground arith) (ground arith) v
          (λ k h.
            clr_bit (get_or fds (j / 8) 0) k (j % 8) (byte_at fds (j / 8) v.1) h (omega arith))
          (λ b. refl)
    | inr u ↦
        rw (contains_far i fds (ground arith), contains_far i (set fds (j / 8) _) (ground arith))
          (and_false (not (i == j)))
  ])
  | inr f ↦ rw f (elim (Bool-cases (i == j)) [
    | inl e ↦ rw (e, contains_far i fds (ground arith)) refl
    | inr n ↦ rw n refl
  ])
]

zeros : (n q : ℕ) → get_or {A = ℕ} (replicate n 0) q 0 ≡ 0
zeros zero q = refl
zeros (suc n) zero = refl
zeros (suc n) (suc q) = zeros n q

zero_tests : holds (λ k. same_bool (bit 0 k) false) 0 8 ≡ true
unfolding holds
zero_tests = refl

fd_zero-contains : (i : ℕ) → contains i fd_zero ≡ false
unfolding fd_isset
fd_zero-contains i = elim (Bool-cases (leb fd_setsize i)) [
  | inl t ↦ rw t refl
  | inr f ↦
      rw (f, zeros fd_bytes (i / 8))
        (same_bool_eq _ _ (
          holds-at (λ k. same_bool (bit 0 k) false) 8 0 (i % 8) zero_tests (omega arith)
            (omega arith)))
]

-- For a set of 8 bytes, FD_ISSET finds nothing in what FD_ZERO makes; after FD_SET it finds the
-- socket that is set, where its number is below 64, and what it found before; and after FD_CLR what
-- it found before but the socket that is cleared.
pub contains-laws :
    (i j : ℕ) (fds : List ℕ)
    → IsFdSet fds
    → (contains i fd_zero ≡ false)
      × (contains i (fd_set j fds) ≡ ((ltb j fd_setsize && i == j) || contains i fds))
      × (contains i (fd_clr j fds) ≡ (not (i == j) && contains i fds))
contains-laws i j fds v = (fd_zero-contains i, fd_set-contains i j fds v, fd_clr-contains i j fds v)
