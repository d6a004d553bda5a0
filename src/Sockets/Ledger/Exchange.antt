-- ===== src/Sockets/Ledger/Exchange.antt =====
-- The account over an exchange with the proxy, and over the calls that set a socket up
-- (cms/ncfsockt.c).
use nicof.Prelude.{
  ℕ, ◌+◌, ◌≡◌, refl, Bool, true, false, not, ◌&&◌, ◌||◌, Option, none, some, List, arith, leb,
}
use nicof.Sockets.{fd_setsize}
use nicof.Sockets.Requests.{
  Requests, Sock, Tcp, Run, pure, ewouldblock, ealready, emfile, attempt_wait, attempt, ◌>>=◌, ◌>>◌,
  send_and_wait, closeproxysocket, posted, reached, unless_pending, ask_proxy,
}
use nicof.Sockets.Setup.{take_number}
use nicof.Sockets.Ledger.{Logged, logged, occurs, noted_in, IsSound, Holds, Any, Entry}
use nicof.Sockets.Ledger.Rules.{
  Triple, Triple-pure, Triple-pure_bind, Triple-refuse, Triple-refuse_if, Triple-if, Triple-weaken,
  Triple-called, Triple-bind,
}
use nicof.Sockets.Ledger.Steps.{
  Settled, settle, update-Entry, update-Settled, new_sock_request-held, attempt-held,
  attempt_wait-held, free_request-held,
}

module _ {S : Type 0} (lost : ℕ → ℕ) (r : Requests S) (F : List Sock → Type 0) where
  pub send_and_wait-held :
      {E : Tcp (Logged S) → Type 0} (h : ℕ)
      → ((t : Tcp (Logged S)) → Holds lost F none t → E t)
      → Triple (Holds lost F (some h)) (send_and_wait (logged r) h) (λ _. Holds lost F (some h)) E
  unfolding send_and_wait logged
  send_and_wait-held h fails =
      Triple-bind (attempt-held lost r F h (r.send h) fails)
        (λ _. attempt_wait-held lost r F h fails)

not_nonblocking : (b c : Bool) → b ≡ false → (b && c) ≡ true → ⊥
not_nonblocking b c e y = ground arith

module _ {S : Type 0} (lost : ℕ → ℕ) (r : Requests S) where
  pub closeproxysocket-Settled :
      (n : ℕ)
      → Triple (Settled lost) (closeproxysocket (logged r) n) (λ _. Settled lost) (Settled lost)
  unfolding closeproxysocket
  closeproxysocket-Settled n = Triple-bind (new_sock_request-held lost r Any 33 n 0) λ h.
      Triple-bind (send_and_wait-held lost r Any h (λ t p. p)) λ _. free_request-held lost r Any h

  -- The account when a call has made its request, in a socket that blocks or that does not.
  module _ (fd : ℕ) (s : Sock) where
    abbrev Making : Run (Logged S) ℕ → Type 0
    Making make =
        Triple (Holds lost (Entry fd s) none) make (λ h. Holds lost (Entry fd s) (some h))
          (Settled lost)

    pub posted-held :
        (make : Run (Logged S) ℕ) (note : ℕ → Sock → Sock)
        → Making make
        → ((h : ℕ) → IsSound (note h s))
        → ((h k : ℕ) → noted_in k (note h s) + 0 ≡ noted_in k s + occurs k (some h))
        → Triple
            (Holds lost (Entry fd s) none)
            (posted (logged r) fd s make note)
            (λ h t. (s.nonblock ≡ false) × Holds lost (Entry fd s) (some h) t)
            (Settled lost)
    unfolding posted logged
    posted-held make note made sound moved = Triple-bind made λ h.
        Triple-bind (attempt-held lost r (Entry fd s) h (r.send h) (settle lost (Entry fd s))) λ _.
          Triple-if (s.nbselect || s.nonblock) _ _
            (λ y.
              Triple-bind (update-Entry lost fd s (note h) (some h) none (sound h) (moved h))
                (λ _. Triple-refuse ewouldblock (λ t e p. (tt, p.1))))
            (λ y. Triple-weaken (λ t p. (ground arith, p)) (Triple-pure h))

    unless_pending-passes :
        (h : ℕ)
        → Triple
            (λ t. (s.nonblock ≡ false) × Holds lost (Entry fd s) (some h) t)
            (unless_pending (logged r) s h)
            (λ _. Holds lost (Entry fd s) (some h))
            (Settled lost)
    unfolding unless_pending
    unless_pending-passes h = record {
      at = λ t (blocks, p).
          let b = s.nonblock && not ((logged r).is_available h t.world) in
          (Triple-refuse_if b ealready (pure tt)
              (λ y. absurd (not_nonblocking s.nonblock _ blocks y)) (λ y. Triple-pure tt)).at
            t p;
    }

    unless_pending-noted :
        (h : ℕ)
        → Triple
            (Holds lost (Entry fd s) none)
            (unless_pending (logged r) s h)
            (λ _. Holds lost (Entry fd s) none)
            (Settled lost)
    unfolding unless_pending
    unless_pending-noted h = record {
      at = λ t p.
          (Triple-refuse_if (s.nonblock && not ((logged r).is_available h t.world)) ealready
              (pure tt) (λ y u e q. (tt, q.1)) (λ y. Triple-pure tt)).at
            t p;
    }

    awaited :
        (e : Sock) (h : ℕ)
        → Triple {A = ℕ × ℕ}
            (Holds lost (Entry fd e) (some h))
            (do
              attempt_wait (logged r) h
              words ← attempt (logged r) h ((logged r).words h)
              pure (h, words.0))
            (λ x. Holds lost (Entry fd e) (some x.0))
            (Settled lost)
    unfolding logged
    awaited e h =
        Triple-bind (attempt_wait-held lost r (Entry fd e) h (settle lost (Entry fd e))) λ _.
          Triple-bind (attempt-held lost r (Entry fd e) h (r.words h) (settle lost (Entry fd e)))
            λ words. Triple-pure (h, words.0)

    -- An exchange hands the request over, from the table or new, and clears its entry.
    pub ask_proxy-held :
        (kept : Option ℕ) (make : Run (Logged S) ℕ) (note : ℕ → Sock → Sock) (clear : Sock → Sock)
        → (kept ≡ none → Making make)
        → (kept ≡ none → (h : ℕ) → IsSound (note h s))
        → (kept ≡ none → (h k : ℕ) → noted_in k (note h s) + 0 ≡ noted_in k s + occurs k (some h))
        → IsSound (clear s)
        → ((k : ℕ) → noted_in k (clear s) + occurs k kept ≡ noted_in k s)
        → Triple
            (Holds lost (Entry fd s) none)
            (ask_proxy (logged r) fd s kept make note clear)
            (λ x. Holds lost (Entry fd (clear s)) (some x.0))
            (Settled lost)
    unfolding ask_proxy reached
    ask_proxy-held none make note clear made noting moving sound moved =
        Triple-bind (posted-held make note (made refl) (noting refl) (moving refl)) λ h.
          Triple-bind (unless_pending-passes h) λ _.
            Triple-bind
              (update-Entry lost fd s clear (some h) (some h) sound (λ k. omega (arith, moved k)))
              λ _. awaited (clear s) h
    ask_proxy-held (some h) make note clear made noting moving sound moved = Triple-pure_bind h _ (
        Triple-bind (unless_pending-noted h) λ _.
          Triple-bind
            (update-Entry lost fd s clear none (some h) sound (λ k. omega (arith, moved k)))
            λ _. awaited (clear s) h)

  -- The entry of a new socket, where it says nothing of other requests than the old one.
  pub take_number-Settled :
      (n : ℕ) (f : Sock → Sock)
      → ((e : Sock) → IsSound e → IsSound (f e))
      → ((h : ℕ) (e : Sock) → noted_in h (f e) ≡ noted_in h e)
      → Triple (Settled lost) (take_number (logged r) n f) (λ _. Settled lost) (Settled lost)
  unfolding take_number
  take_number-Settled n f sound same =
      Triple-if (leb fd_setsize n) _ _
        (λ y.
          Triple-bind (Triple-called (λ a t p. p) (λ t p. p) (closeproxysocket-Settled n))
            (λ _. Triple-refuse emfile (λ t e p. p)))
        (λ y. Triple-bind (update-Settled lost n f (ground arith) sound same) (λ _. Triple-pure n))
