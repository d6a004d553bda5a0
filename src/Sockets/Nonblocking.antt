-- ===== src/Sockets/Nonblocking.antt =====
-- cms/ncfsockt.c: on a socket in non-blocking mode an exchange with the proxy returns.
pub mod Modes
use nicof.Prelude.{
  ℕ, ◌+◌, ◌*◌, ◌^◌, ◌≡◌, ◌≢◌, ◌∙◌, refl, sym, subst, Bool, true, false, not, ◌&&◌, ◌||◌, Option,
  none, some, List, [], arith, take, length, get_or, set, ltb, leb, ◌==◌, Bool-cases, Option-cases,
  inl, inr, if◌then◌else◌,
}
use nicof.Prelude.Int.{ℤ, is_zero, to_int}
use nicof.Sockets.{fd_setsize, eok}
use nicof.Sockets.Requests.{
  Requests, Sock, no_sock, Tcp, Run, high_half, ewouldblock, ealready, no_recovery, low_half, pure,
  give_up, refuse, refuse_if, if_eok, called, ◌>>=◌, ◌>>◌, get_sock, update, new_sock_request,
  attempt, attempt_wait, free_request, posted, reached, unless_pending, ask_proxy, unless_refused,
}
use nicof.Sockets.Ledger.Rules.{Triple, After, Triple-refuse, Triple-if, Triple-bind}

-- A run that does not wait for ever.
pub record Returns {S A : Type 0} (m : Run S A) : Type 0 where
  pub at : (t : Tcp S) → m t ≢ none

-- The same of a run from one state.
abbrev pub ReturnsFrom : {S A : Type 0} → Tcp S → Run S A → Type 0
ReturnsFrom t m = m t ≢ none

module _ {S A : Type 0} where
  some_result : (x : Tcp S × Option A) → ◌≢◌ {A = Option (Tcp S × Option A)} (some x) none
  some_result x e = cc

  pub Returns-pure : (a : A) → Returns {S = S} (pure a)
  unfolding pure
  Returns-pure a = record { at = λ t. some_result (t, some a) }

  pub Returns-give_up : Returns {S = S} {A = A} give_up
  unfolding give_up
  Returns-give_up = record { at = λ t. some_result (t, none) }

  pub Returns-refuse : (code : ℕ) → Returns {S = S} {A = A} (refuse code)
  unfolding refuse
  Returns-refuse code = record { at = λ t. some_result _ }

  pub Returns-if : (b : Bool) (m n : Run S A) → Returns m → Returns n → Returns (if b then m else n)
  Returns-if true m n k l = k
  Returns-if false m n k l = l

  pub Returns-if_eok : (w : ℕ) (m : Run S A) → Returns m → Returns (if_eok w m)
  unfolding if_eok
  Returns-if_eok w m k = record {
    at = λ t. elim (Bool-cases (w == eok)) [ inl y ↦ rw y (k.at _) | inr y ↦ rw y (some_result _) ];
  }

  pub refuse_if-returns :
      (b : Bool) (code : ℕ) (m : Run S A) (t : Tcp S)
      → ReturnsFrom t m
      → ReturnsFrom t (refuse_if b code m)
  unfolding refuse_if refuse
  refuse_if-returns true code m t k = some_result _
  refuse_if-returns false code m t k = k

  called_returns :
      (o : Option (Tcp S × Option A))
      → o ≢ none
      → ◌≢◌ {A = Option (Tcp S × Option (Option A))}
          (elim o [ none ↦ none | some (u, x) ↦ some (u, some x) ])
          none
  called_returns none k e = absurd (k refl)
  called_returns (some (u, x)) k e = cc

module _ {S A B : Type 0} where
  next_returns :
      (o : Option (Tcp S × Option A)) (f : A → Run S B)
      → o ≢ none
      → ((u : Tcp S) (a : A) → o ≡ some (u, some a) → ReturnsFrom u (f a))
      → ◌≢◌ {A = Option (Tcp S × Option B)}
          (elim o [ none ↦ none | some (u, r) ↦ elim r [ none ↦ some (u, none) | some a ↦ f a u ] ])
          none
  next_returns none f k l = absurd (k refl)
  next_returns (some (t, none)) f k l = some_result (t, none)
  next_returns (some (t, some a)) f k l = l t a refl

  pub bind_returns :
      (m : Run S A) (f : A → Run S B) (t : Tcp S)
      → ReturnsFrom t m
      → ((u : Tcp S) (a : A) → m t ≡ some (u, some a) → ReturnsFrom u (f a))
      → ReturnsFrom t (m >>= f)
  unfolding ◌>>=◌
  bind_returns m f t k l = next_returns (m t) f k l

  pub Returns-bind :
      {m : Run S A} {f : A → Run S B} → Returns m → ((a : A) → Returns (f a)) → Returns (m >>= f)
  Returns-bind {m} {f} k l = record { at = λ t. bind_returns m f t (k.at t) (λ u a e. (l a).at u) }

module _ {S : Type 0} (r : Requests S) where
  pub Returns-new : (cmd fd w2 : ℕ) → Returns (new_sock_request r cmd fd w2)
  unfolding new_sock_request
  Returns-new cmd fd w2 = record {
    at = λ t. created (r.create (low_half cmd * 2 ^ 16 + low_half fd) w2 t.world) t;
  }
    where
      created :
          (x : S × Option ℕ) (t : Tcp S)
          → ◌≢◌ {A = Option (Tcp S × Option ℕ)}
              (elim x.1 [
                | none ↦ some (record t { world = x.0; errno = ℤ.pos no_recovery }, none)
                | some h ↦ some (record t { world = x.0 }, some h)
              ])
              none
      created (w, none) t = some_result _
      created (w, some h) t = some_result _

  pub Returns-attempt : {A : Type 0} (h : ℕ) (op : S → S × ℤ × A) → Returns (attempt r h op)
  unfolding attempt
  Returns-attempt h op = record {
    at = λ t. elim (Bool-cases (is_zero (op t.world).1)) [
      | inl y ↦ rw y (some_result _)
      | inr y ↦ rw y (some_result _)
    ];
  }

  pub Returns-free : (h : ℕ) → Returns (free_request r h)
  unfolding free_request
  Returns-free h = record { at = λ t. some_result _ }

  pub Returns-update : (fd : ℕ) (f : Sock → Sock) → Returns {S = S} (update fd f)
  unfolding update
  Returns-update fd f = record { at = λ t. some_result _ }

  pub Returns-get : (fd : ℕ) → Returns {S = S} (get_sock fd)
  unfolding get_sock
  Returns-get fd = record {
    at = λ t. elim (Bool-cases (ltb fd fd_setsize && (get_or t.sockets fd no_sock).active)) [
      | inl y ↦ rw y (some_result _)
      | inr y ↦ rw y (some_result _)
    ];
  }

  pub Returns-unless_refused : (h w : ℕ) → Returns (unless_refused r h w)
  unfolding unless_refused
  Returns-unless_refused h w = record {
    at = λ t. elim (Bool-cases (high_half w == eok)) [
      | inl y ↦ rw y (some_result _)
      | inr y ↦ rw y (some_result _)
    ];
  }

  pub Returns-called : {A : Type 0} (m : Run S A) → Returns m → Returns (called m)
  unfolding called
  Returns-called m k = record { at = λ t. called_returns (m t) (k.at t) }

-- What the calls rely on: the wait for a response that is there returns.
abbrev pub AvailableReturns : {S : Type 0} → Requests S → Type 0
AvailableReturns {S} r = (h : ℕ) (w : S) → r.is_available h w ≡ true → r.await h w ≢ none

module _ {S : Type 0} (r : Requests S) (law : AvailableReturns r) where
  after_wait :
      (h : ℕ) (t : Tcp S) (o : Option (S × ℤ))
      → o ≢ none
      → ◌≢◌ {A = Option (Tcp S × Option (Unit {0}))}
          (elim o [
            | none ↦ none
            | some (w, code) ↦
                if is_zero code
                then some (record t { world = w; errno = code }, some tt)
                else some (record t { world = r.free h w; errno = code }, none)
          ])
          none
  after_wait h t none k = absurd (k refl)
  after_wait h t (some (w, code)) k = elim (Bool-cases (is_zero code)) [
    | inl y ↦ rw y (some_result _)
    | inr y ↦ rw y (some_result _)
  ]

  wait_returns :
      (h : ℕ) (t : Tcp S) → r.is_available h t.world ≡ true → ReturnsFrom t (attempt_wait r h)
  unfolding attempt_wait
  wait_returns h t e = after_wait h t (r.await h t.world) (law h t.world e)

  Triple-true :
      {A : Type 0} (P : Tcp S → Type 0) (m : Run S A) → Triple P m (λ _ _. Unit {0}) (λ _. Unit {0})
  Triple-true {A} P m = record { at = λ t p. anything (m t) }
    where
      anything : (o : Option (Tcp S × Option A)) → After (λ _ _. Unit {0}) (λ _. Unit {0}) o
      anything none = tt
      anything (some (t, none)) = tt
      anything (some (t, some a)) = tt

  module _ (fd : ℕ) (s : Sock) (mode : s.nonblock ≡ true) where
    -- A call that has just sent its request does not wait.
    posted_refuses :
        (make : Run S ℕ) (note : ℕ → Sock → Sock)
        → Triple (λ t. Unit {0}) (posted r fd s make note) (λ _ _. ⊥) (λ _. Unit {0})
    unfolding posted
    posted_refuses make note = Triple-bind (Triple-true _ make) λ h.
        Triple-bind (Triple-true _ (attempt r h (r.send h))) λ _.
          Triple-if (s.nbselect || s.nonblock) _ _
            (λ y.
              Triple-bind (Triple-true _ (update fd (note h)))
                (λ _. Triple-refuse ewouldblock (λ t e p. tt)))
            (λ y. absurd (ground arith))

    not_posted :
        (make : Run S ℕ) (note : ℕ → Sock → Sock) (t u : Tcp S) (h : ℕ)
        → posted r fd s make note t ≡ some (u, some h)
        → ⊥
    not_posted make note t u h e =
        subst (After (λ _ _. ⊥) (λ _. Unit {0})) e ((posted_refuses make note).at t tt)

    posted_returns :
        (make : Run S ℕ) (note : ℕ → Sock → Sock) → Returns make → Returns (posted r fd s make note)
    unfolding posted
    posted_returns make note k = Returns-bind k λ h.
        Returns-bind (Returns-attempt r h (r.send h)) λ _.
          Returns-if (s.nbselect || s.nonblock) _ _
            (Returns-bind (Returns-update r fd (note h)) (λ _. Returns-refuse ewouldblock))
            (Returns-pure h)

    -- Behind the test for the response.
    available_returns :
        (h : ℕ) (clear : Sock → Sock) (t : Tcp S)
        → r.is_available h t.world ≡ true
        → ReturnsFrom {A = ℕ × ℕ} t (do
          update fd clear
          attempt_wait r h
          words ← attempt r h (r.words h)
          pure (h, words.0))
    unfolding ◌>>=◌ update
    available_returns h clear t e =
        let u : Tcp S = record t {
          sockets = set t.sockets fd (clear (get_or t.sockets fd no_sock));
        } in
        bind_returns (attempt_wait r h) _ u (wait_returns h u e) (λ v a _.
          (Returns-bind (Returns-attempt r h (r.words h)) (λ words. Returns-pure (h, words.0))).at
            v)

    unavailable :
        {A : Type 0} (h : ℕ) (m : Run S A) (t : Tcp S)
        → r.is_available h t.world ≡ false
        → ReturnsFrom t (unless_pending r s h >> m)
    unfolding unless_pending ◌>>=◌ refuse_if refuse pure
    unavailable h m t e = rw (mode, e, ◌>>=◌) (λ x. cc)

    available_next :
        {A : Type 0} (h : ℕ) (m : Run S A) (t : Tcp S)
        → r.is_available h t.world ≡ true
        → ReturnsFrom t m
        → ReturnsFrom t (unless_pending r s h >> m)
    unfolding unless_pending ◌>>=◌ refuse_if refuse pure
    available_next h m t e k = rw (mode, e, ◌>>=◌) k

    pub exchange_returns :
        (noted : Option ℕ) (make : Run S ℕ) (note : ℕ → Sock → Sock) (clear : Sock → Sock)
        → Returns make
        → Returns (ask_proxy r fd s noted make note clear)
    unfolding ask_proxy reached
    exchange_returns none make note clear k = record {
      at = λ t.
          bind_returns (posted r fd s make note) _ t ((posted_returns make note k).at t)
            (λ u h e. absurd (not_posted make note t u h e));
    }
    exchange_returns (some h) make note clear k = record {
      at = λ t. bind_returns (pure h) _ t ((Returns-pure h).at t) (λ u h' e.
          elim (Bool-cases (r.is_available h' u.world)) [
            | inl y ↦ available_next h' _ u y (available_returns h' clear u y)
            | inr y ↦ unavailable h' _ u y
          ]);
    }
