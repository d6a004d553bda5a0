-- ===== src/Client/Phases/Find.antt =====
-- cms/nicofclt.c: what a walk to a handle finds after a write to the pool.
use nicof.Prelude.{
  ℕ, ◌≡◌, refl, subst, ◌≢◌, ◌⊎◌, inl, inr, Bool, true, some, List, [], ◌∷◌, All, arith, ◌==◌,
  Bool-cases,
}
use nicof.Client.{Request, first, modify, find}
use nicof.Client.Validity.{Apart, AllApart}

abbrev pub KeepsMe : (Request → Request) → Type 0
KeepsMe f = (r : Request) → (f r).me ≡ r.me

-- The request behind a handle is the old one, or the one that was written.
pub find-modify :
    (h : ℕ) (test : Request → Bool) (f : Request → Request) (rs : List Request) (r : Request)
    → KeepsMe f
    → find h rs ≡ some r
    → (find h (modify test f rs) ≡ some r)
      ⊎ ((test r ≡ true) × (find h (modify test f rs) ≡ some (f r)))
unfolding first modify
find-modify h test f [] r k e = inl e
find-modify h test f (x ∷ rs) r k e = ground (arith, k x, find-modify h test f rs r k)

pub find-modify_self :
    (h : ℕ) (f : Request → Request) (rs : List Request) (r : Request)
    → KeepsMe f
    → find h rs ≡ some r
    → find h (modify (λ q. q.me == h) f rs) ≡ some (f r)
unfolding first modify
find-modify_self h f [] r k e = ground arith
find-modify_self h f (x ∷ rs) r k e = ground (arith, k x, find-modify_self h f rs r k)

pub find-modify_ne :
    (h g : ℕ) (f : Request → Request) (rs : List Request)
    → KeepsMe f
    → h ≢ g
    → find g (modify (λ q. q.me == h) f rs) ≡ find g rs
unfolding first modify
find-modify_ne h g f [] k n = refl
find-modify_ne h g f (x ∷ rs) k n = ground (arith, k x, find-modify_ne h g f rs k n)

pub find-me : (h : ℕ) (rs : List Request) (r : Request) → find h rs ≡ some r → r.me ≡ h
unfolding first
find-me h [] r e = ground arith
find-me h (x ∷ rs) r e = ground (arith, find-me h rs r)

-- A property of all requests holds of the one found.
pub find-All {κ} :
    (P : Request → Type κ) (test : Request → Bool) (rs : List Request) (r : Request)
    → first test rs ≡ some r
    → All P rs
    → P r × (test r ≡ true)
unfolding first
find-All P test [] r e a = absurd (ground arith)
find-All P test (x ∷ rs) r e a = elim (Bool-cases (test x)) [
  | inl t ↦ let same : x ≡ r = ground arith in subst (λ z. P z × (test z ≡ true)) same (a.0, t)
  | inr t ↦ find-All P test rs r (rw (t, first) at e) a.1
]

-- In a valid pool a request is found under its own handle.
pub find-first :
    (test : Request → Bool) (rs : List Request) (r : Request)
    → AllApart rs
    → first test rs ≡ some r
    → find r.me rs ≡ some r
unfolding first
find-first test [] r a e = absurd (ground arith)
find-first test (x ∷ rs) r a e = elim (Bool-cases (test x)) [
  | inl t ↦ let same : x ≡ r = ground arith in ground arith
  | inr t ↦
      let later : first test rs ≡ some r = ground arith in
      ground
        (arith, (find-All (Apart x) test rs r later a.0).0.handles, find-first test rs r a.1 later)
]

pub find-cons_ne :
    (h : ℕ) (x : Request) (rs : List Request) → x.me ≢ h → find h (x ∷ rs) ≡ find h rs
unfolding first
find-cons_ne h x rs n = ground arith

-- A walk stops at a request that passes its test.
pub first-test :
    (test : Request → Bool) (rs : List Request) (r : Request)
    → first test rs ≡ some r
    → test r ≡ true
unfolding first
first-test test [] r e = absurd (ground arith)
first-test test (x ∷ rs) r e = ground (arith, first-test test rs r)

module _ (test : Request → Bool) (f g : Request → Request)
    (k : (r : Request) → test (g r) ≡ test r) where
  pub modify-modify :
      (rs : List Request) → modify test f (modify test g rs) ≡ modify test (λ r. f (g r)) rs
  unfolding modify
  modify-modify [] = refl
  modify-modify (x ∷ rs) = ground (arith, k x, modify-modify rs)

  pub first-modify :
      (rs : List Request) (r : Request)
      → first test rs ≡ some r
      → first test (modify test g rs) ≡ some (g r)
  unfolding first modify
  first-modify [] r e = absurd (ground arith)
  first-modify (x ∷ rs) r e = ground (arith, k x, first-modify rs r)
