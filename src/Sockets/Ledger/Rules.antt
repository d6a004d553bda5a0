-- ===== src/Sockets/Ledger/Rules.antt =====
-- The rules by which the account is followed through a call on sockets.
use nicof.Prelude.{
  ℕ, ◌≡◌, refl, Bool, true, false, Option, none, some, ◌==◌, if◌then◌else◌, Bool-cases, inl, inr,
}
use nicof.Prelude.Int.{ℤ, to_int}
use nicof.Sockets.{eok}
use nicof.Sockets.Requests.{Tcp, Run, pure, give_up, refuse, refuse_if, if_eok, called, ◌>>=◌}

-- What holds after a run: `Q` of a result, `E` where the call returns -1.
abbrev pub After :
    {S A : Type 0} → (A → Tcp S → Type 0) → (Tcp S → Type 0) → Option (Tcp S × Option A) → Type 0
After Q E none = Unit
After Q E (some (t, none)) = E t
After Q E (some (t, some a)) = Q a t

-- From `P`, the run `m` comes to `Q`, or fails with `E`.
pub record Triple {S A : Type 0} (P : Tcp S → Type 0) (m : Run S A) (Q : A → Tcp S → Type 0)
    (E : Tcp S → Type 0) : Type 0 where
  pub at : (t : Tcp S) → P t → After Q E (m t)

-- A predicate that says nothing of `errno`.
abbrev pub Ignores : {S : Type 0} → (Tcp S → Type 0) → Type 0
Ignores {S} P = (t : Tcp S) (e : ℤ) → P t → P (record t { errno = e })

module _ {S A : Type 0} {E : Tcp S → Type 0} where
  pub Triple-pure : {Q : A → Tcp S → Type 0} (a : A) → Triple (Q a) (pure a) Q E
  unfolding pure
  Triple-pure a = record { at = λ t p. p }

  pub Triple-give_up : {Q : A → Tcp S → Type 0} → Triple E give_up Q E
  unfolding give_up
  Triple-give_up = record { at = λ t p. p }

  pub Triple-refuse :
      {P : Tcp S → Type 0} {Q : A → Tcp S → Type 0} (code : ℕ)
      → ((t : Tcp S) (e : ℤ) → P t → E (record t { errno = e }))
      → Triple P (refuse code) Q E
  unfolding refuse
  Triple-refuse code fails = record { at = λ t p. fails t (ℤ.pos code) p }

  pub Triple-refuse_if :
      {P : Tcp S → Type 0} {Q : A → Tcp S → Type 0} (b : Bool) (code : ℕ) (m : Run S A)
      → (b ≡ true → (t : Tcp S) (e : ℤ) → P t → E (record t { errno = e }))
      → (b ≡ false → Triple P m Q E)
      → Triple P (refuse_if b code m) Q E
  unfolding refuse_if
  Triple-refuse_if true code m fails rest = Triple-refuse code (fails refl)
  Triple-refuse_if false code m fails rest = rest refl

  pub Triple-if :
      {P : Tcp S → Type 0} {Q : A → Tcp S → Type 0} (b : Bool) (m n : Run S A)
      → (b ≡ true → Triple P m Q E)
      → (b ≡ false → Triple P n Q E)
      → Triple P (if b then m else n) Q E
  Triple-if true m n km kn = km refl
  Triple-if false m n km kn = kn refl

  pub Triple-if_eok :
      {P : Tcp S → Type 0} {Q : A → Tcp S → Type 0} (w : ℕ) (m : Run S A)
      → Ignores P
      → ((t : Tcp S) (e : ℤ) → P t → E (record t { errno = e }))
      → Triple P m Q E
      → Triple P (if_eok w m) Q E
  unfolding if_eok
  Triple-if_eok w m keeps fails rest = record {
    at = λ t p. elim (Bool-cases (w == eok)) [
      | inl y ↦ rw y (rest.at _ (keeps t (to_int w) p))
      | inr y ↦ rw y (fails t (to_int w) p)
    ];
  }

  pub Triple-weaken :
      {P P' : Tcp S → Type 0} {Q : A → Tcp S → Type 0} {m : Run S A}
      → ((t : Tcp S) → P' t → P t)
      → Triple P m Q E
      → Triple P' m Q E
  Triple-weaken into k = record { at = λ t p. k.at t (into t p) }

  pub Triple-given :
      {P : Tcp S → Type 0} {Q : A → Tcp S → Type 0} {m : Run S A} {K : Type 0}
      → ((t : Tcp S) → P t → K)
      → (K → Triple P m Q E)
      → Triple P m Q E
  Triple-given known k = record { at = λ t p. (k (known t p)).at t p }

  after_all :
      {Q Q' : A → Tcp S → Type 0} {E' : Tcp S → Type 0} (o : Option (Tcp S × Option A))
      → ((a : A) (t : Tcp S) → Q a t → Q' a t)
      → ((t : Tcp S) → E t → E' t)
      → After Q E o
      → After Q' E' o
  after_all none q e p = tt
  after_all (some (t, none)) q e p = e t p
  after_all (some (t, some a)) q e p = q a t p

  pub Triple-after :
      {P : Tcp S → Type 0} {Q Q' : A → Tcp S → Type 0} {E' : Tcp S → Type 0} {m : Run S A}
      → ((a : A) (t : Tcp S) → Q a t → Q' a t)
      → ((t : Tcp S) → E t → E' t)
      → Triple P m Q E
      → Triple P m Q' E'
  Triple-after {m} q e k = record { at = λ t p. after_all (m t) q e (k.at t p) }

  after_called :
      {Q : A → Tcp S → Type 0} (R : Option A → Tcp S → Type 0) (E' : Tcp S → Type 0)
      (o : Option (Tcp S × Option A))
      → ((a : A) (t : Tcp S) → Q a t → R (some a) t)
      → ((t : Tcp S) → E t → R none t)
      → After Q E o
      → After R E' (elim o [ none ↦ none | some (u, r) ↦ some (u, some r) ])
  after_called R E' none q e p = tt
  after_called R E' (some (t, none)) q e p = e t p
  after_called R E' (some (t, some a)) q e p = q a t p

  pub Triple-called :
      {P : Tcp S → Type 0} {Q : A → Tcp S → Type 0} {R : Option A → Tcp S → Type 0}
      {E' : Tcp S → Type 0} {m : Run S A}
      → ((a : A) (t : Tcp S) → Q a t → R (some a) t)
      → ((t : Tcp S) → E t → R none t)
      → Triple P m Q E
      → Triple P (called m) R E'
  unfolding called
  Triple-called {R} {E'} {m} q e k = record { at = λ t p. after_called R E' (m t) q e (k.at t p) }

module _ {S A B : Type 0} {E : Tcp S → Type 0} where
  after_bind :
      {Q : A → Tcp S → Type 0} {R : B → Tcp S → Type 0} (o : Option (Tcp S × Option A))
      (f : A → Run S B)
      → After Q E o
      → ((a : A) → Triple (Q a) (f a) R E)
      → After R E
          (elim o [ none ↦ none | some (u, r) ↦ elim r [ none ↦ some (u, none) | some a ↦ f a u ] ])
  after_bind none f p k = tt
  after_bind (some (t, none)) f p k = p
  after_bind (some (t, some a)) f p k = (k a).at t p

  pub Triple-bind :
      {P : Tcp S → Type 0} {Q : A → Tcp S → Type 0} {R : B → Tcp S → Type 0} {m : Run S A}
      {f : A → Run S B}
      → Triple P m Q E
      → ((a : A) → Triple (Q a) (f a) R E)
      → Triple P (m >>= f) R E
  unfolding ◌>>=◌
  Triple-bind {m} {f} km kf = record { at = λ t p. after_bind (m t) f (km.at t p) kf }

  pub Triple-pure_bind :
      {P : Tcp S → Type 0} {R : B → Tcp S → Type 0} (a : A) (f : A → Run S B)
      → Triple P (f a) R E
      → Triple P (pure a >>= f) R E
  unfolding ◌>>=◌ pure
  Triple-pure_bind a f k = record { at = k.at }
