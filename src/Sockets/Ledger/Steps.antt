-- ===== src/Sockets/Ledger/Steps.antt =====
-- The account over the steps that the calls on sockets are made of (cms/ncfsockt.c).
use nicof.Prelude.{
  ℕ, zero, suc, ◌+◌, ◌*◌, ◌^◌, ◌<◌, ◌≡◌, ◌∙◌, refl, ap, inl, inr, ◌&&◌, Option, none, some, List,
  [], ◌∷◌, arith, length, set, get_or, All, length-set, get_or-set, ltb, ◌==◌, Bool-cases,
  if◌then◌else◌,
}
use nicof.Prelude.Int.{ℤ, is_zero}
use nicof.Sockets.{fd_setsize, eok}
use nicof.Sockets.Requests.{
  Requests, Sock, no_sock, Tcp, high_half, low_half, no_recovery, get_sock, update,
  new_sock_request, attempt, attempt_wait, free_request, unless_refused,
}
use nicof.Sockets.Ledger.{
  Logged, note3, note_wait, logged, log_created, occurs, count, noted_in, noted, IsSound, Owing,
  Holds, Any, Entry,
}
use nicof.Sockets.Ledger.Rules.{Triple, After}

pub All-set :
    (ss : List Sock) (fd : ℕ) (e : Sock) → All IsSound ss → IsSound e → All IsSound (set ss fd e)
All-set [] fd e h k = tt
All-set (s ∷ ss) zero e h k = (k, h.1)
All-set (s ∷ ss) (suc fd) e h k = (h.0, All-set ss fd e h.1 k)

All-get_or : (ss : List Sock) (fd : ℕ) → All IsSound ss → IsSound (get_or ss fd no_sock)
All-get_or [] fd h = refl
All-get_or (s ∷ ss) zero h = h.0
All-get_or (s ∷ ss) (suc fd) h = All-get_or ss fd h.1

pub noted-set :
    (ss : List Sock) (fd h : ℕ) (e : Sock)
    → fd < length ss
    → noted h (set ss fd e) + noted_in h (get_or ss fd no_sock) ≡ noted h ss + noted_in h e
unfolding noted
noted-set [] fd h e lt = absurd (omega arith)
noted-set (s ∷ ss) zero h e lt = omega arith
noted-set (s ∷ ss) (suc fd) h e lt = omega (arith, noted-set ss fd h e (omega arith))

-- The state at a return of -1.
abbrev pub Settled : {S : Type 0} → (ℕ → ℕ) → Tcp (Logged S) → Type 0
Settled lost = Holds lost Any none

freed_one :
    (lost : ℕ → ℕ) (h : ℕ) (ss : List Sock) (created freed : List ℕ)
    → Owing lost (some h) ss created freed
    → Owing lost none ss created (h ∷ freed)
unfolding count
freed_one lost h ss created freed v = record {
  size = v.size;
  sound = v.sound;
  accounted = λ k. omega (arith, v.accounted k);
}

created_one :
    (lost : ℕ → ℕ) (h : ℕ) (ss : List Sock) (created freed : List ℕ)
    → Owing lost none ss created freed
    → Owing lost (some h) ss (h ∷ created) freed
unfolding count
created_one lost h ss created freed v = record {
  size = v.size;
  sound = v.sound;
  accounted = λ k. omega (arith, v.accounted k);
}

module _ {S : Type 0} (lost : ℕ → ℕ) where
  pub settle : (F : List Sock → Type 0) (t : Tcp (Logged S)) → Holds lost F none t → Settled lost t
  settle F t p = (tt, p.1)

  pub get_sock-Entry :
      (fd : ℕ)
      → Triple
          (Settled {S = S} lost)
          (get_sock fd)
          (λ s. Holds lost (Entry fd s) none)
          (Settled lost)
  unfolding get_sock
  get_sock-Entry fd = record {
    at = λ t p. elim (Bool-cases (ltb fd fd_setsize && (get_or t.sockets fd no_sock).active)) [
      | inl y ↦ rw y ((refl, ground arith, All-get_or t.sockets fd p.1.sound), p.1)
      | inr y ↦ rw y (tt, p.1)
    ];
  }

  -- A write to an entry that moves requests between the table and the call.
  pub update-Entry :
      {E : Tcp (Logged S) → Type 0} (fd : ℕ) (e : Sock) (f : Sock → Sock) (held held' : Option ℕ)
      → IsSound (f e)
      → ((h : ℕ) → noted_in h (f e) + occurs h held' ≡ noted_in h e + occurs h held)
      → Triple
          (Holds lost (Entry fd e) held)
          (update fd f)
          (λ _. Holds lost (Entry fd (f e)) held')
          E
  unfolding update
  update-Entry fd e f held held' sound moved = record {
    at = λ t ((here, inside, _), owing).
        let there : fd < length t.sockets = omega (arith, owing.size) in
        rw here (
          (get_or-set t.sockets fd (f e) no_sock there, inside, sound),
          record {
            size = length-set t.sockets fd (f e) ∙ owing.size;
            sound = All-set t.sockets fd (f e) owing.sound sound;
            accounted = λ h. omega (
              arith,
              owing.accounted h,
              moved h,
              noted-set t.sockets fd h (f e) there,
              ap (noted_in h) here,
            );
          },
        );
  }

  -- A write that leaves the requests alone, to an entry of which nothing is known.
  pub update-Settled :
      {E : Tcp (Logged S) → Type 0} (fd : ℕ) (f : Sock → Sock)
      → fd < fd_setsize
      → ((e : Sock) → IsSound e → IsSound (f e))
      → ((h : ℕ) (e : Sock) → noted_in h (f e) ≡ noted_in h e)
      → Triple (Settled lost) (update fd f) (λ _. Settled lost) E
  unfolding update
  update-Settled fd f inside sound same = record {
    at = λ t (_, owing).
        let e = get_or t.sockets fd no_sock in
        (
          tt,
          record {
            size = length-set t.sockets fd (f e) ∙ owing.size;
            sound =
                All-set t.sockets fd (f e) owing.sound
                  (sound e (All-get_or t.sockets fd owing.sound));
            accounted = λ h. omega (
              arith,
              owing.accounted h,
              same h e,
              noted-set t.sockets fd h (f e) (omega (arith, owing.size)),
            );
          },
        );
  }

module _ {S : Type 0} (lost : ℕ → ℕ) (r : Requests S) (F : List Sock → Type 0) where
  after_create :
      (t : Tcp (Logged S)) (x : S × Option ℕ)
      → Holds lost F none t
      → After
          (λ h. Holds lost F (some h))
          (Settled lost)
          (elim x.1 [
            | none ↦ some (
              record t {
                world = record t.world { base = x.0; created = log_created x.1 t.world.created };
                errno = ℤ.pos no_recovery;
              },
              none,
            )
            | some h ↦ some (
              record t {
                world = record t.world { base = x.0; created = log_created x.1 t.world.created };
              },
              some h,
            )
          ])
  after_create t (w, none) p = (tt, p.1)
  after_create t (w, some h) p =
      (p.0, created_one lost h t.sockets t.world.created t.world.freed p.1)

  pub new_sock_request-held :
      (cmd fd w2 : ℕ)
      → Triple
          (Holds lost F none)
          (new_sock_request (logged r) cmd fd w2)
          (λ h. Holds lost F (some h))
          (Settled lost)
  unfolding new_sock_request logged
  new_sock_request-held cmd fd w2 = record {
    at = λ t p. after_create t (r.create (low_half cmd * 2 ^ 16 + low_half fd) w2 t.world.base) p;
  }

  pub attempt-held :
      {A : Type 0} {E : Tcp (Logged S) → Type 0} (h : ℕ) (op : S → S × ℤ × A)
      → ((t : Tcp (Logged S)) → Holds lost F none t → E t)
      → Triple
          (Holds lost F (some h))
          (attempt (logged r) h (note3 op))
          (λ _. Holds lost F (some h))
          E
  unfolding attempt logged
  attempt-held h op fails = record {
    at = λ t p. elim (Bool-cases (is_zero (op t.world.base).1)) [
      | inl y ↦ rw y p
      | inr y ↦ rw y (fails _ (p.0, freed_one lost h t.sockets t.world.created t.world.freed p.1))
    ];
  }

  after_await :
      {E : Tcp (Logged S) → Type 0} (h : ℕ) (t : Tcp (Logged S)) (o : Option (S × ℤ))
      → ((u : Tcp (Logged S)) → Holds lost F none u → E u)
      → Holds lost F (some h) t
      → After {A = Unit {0}}
          (λ _. Holds lost F (some h))
          E
          (elim (note_wait t.world o) [
            | none ↦ none
            | some (w, code) ↦
                if is_zero code
                then some (record t { world = w; errno = code }, some tt)
                else some (record t { world = (logged r).free h w; errno = code }, none)
          ])
  unfolding logged
  after_await h t none fails p = tt
  after_await h t (some (w, code)) fails p = elim (Bool-cases (is_zero code)) [
    | inl y ↦ rw y p
    | inr y ↦ rw y (fails _ (p.0, freed_one lost h t.sockets t.world.created t.world.freed p.1))
  ]

  pub attempt_wait-held :
      {E : Tcp (Logged S) → Type 0} (h : ℕ)
      → ((t : Tcp (Logged S)) → Holds lost F none t → E t)
      → Triple (Holds lost F (some h)) (attempt_wait (logged r) h) (λ _. Holds lost F (some h)) E
  unfolding attempt_wait logged
  attempt_wait-held h fails = record {
    at = λ t p. after_await h t (r.await h t.world.base) fails p;
  }

  pub free_request-held :
      {E : Tcp (Logged S) → Type 0} (h : ℕ)
      → Triple (Holds lost F (some h)) (free_request (logged r) h) (λ _. Holds lost F none) E
  unfolding free_request logged
  free_request-held h = record {
    at = λ t p. (p.0, freed_one lost h t.sockets t.world.created t.world.freed p.1);
  }

  pub unless_refused-held :
      (h w : ℕ)
      → Triple
          (Holds lost F (some h))
          (unless_refused (logged r) h w)
          (λ _. Holds lost F (some h))
          (Settled lost)
  unfolding unless_refused logged
  unless_refused-held h w = record {
    at = λ t p. elim (Bool-cases (high_half w == eok)) [
      | inl y ↦ rw y p
      | inr y ↦ rw y (tt, freed_one lost h t.sockets t.world.created t.world.freed p.1)
    ];
  }
