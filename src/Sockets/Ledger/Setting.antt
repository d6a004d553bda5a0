-- ===== src/Sockets/Ledger/Setting.antt =====
-- The account over the calls that make, close and set up a socket (cms/ncfsockt.c).
use nicof.Prelude.{
  ℕ, ◌+◌, ◌≡◌, refl, Bool, true, false, not, ◌&&◌, Option, none, some, List, [], ◌∷◌, arith, take,
  ltb, ◌==◌,
}
use nicof.Prelude.Int.{ℤ}
use nicof.Sockets.{eok, einval}
use nicof.Sockets.Requests.{
  Requests, Sock, Tcp, Run, without_flags, eopnotsupp, enotconn, eisconn, einprogress, high_half,
  pure, refuse_if, ◌>>◌, update, send_and_wait,
}
use nicof.Sockets.Setup.{
  finished, during_init, is_too_small, manage, closesocket, shutdown, bind, listen, get_sock_info,
  ioctlsocket, backlog_byte,
}
use nicof.Sockets.Ledger.{Logged, logged, noted_in, IsSound, Holds, Entry}
use nicof.Sockets.Ledger.Rules.{
  Triple, Triple-pure, Triple-give_up, Triple-refuse_if, Triple-if, Triple-if_eok, Triple-weaken,
  Triple-after, Triple-given, Triple-called, Triple-bind,
}
use nicof.Sockets.Ledger.Steps.{
  Settled, settle, get_sock-Entry, update-Entry, new_sock_request-held, attempt-held,
  free_request-held, unless_refused-held,
}
use nicof.Sockets.Ledger.Exchange.{send_and_wait-held, closeproxysocket-Settled}

-- A call that leaves the account and the table in order.
abbrev pub Keeps : {S A : Type 0} → (ℕ → ℕ) → Run (Logged S) A → Type 0
Keeps lost m = Triple (Settled lost) m (λ _. Settled lost) (Settled lost)

without_flags-IsSound : (e : Sock) → IsSound e → IsSound (without_flags e)
without_flags-IsSound e h = ground arith

set_init-IsSound : (e : Sock) → IsSound e → IsSound (record e { init = true })
set_init-IsSound e h = ground arith

unset_init-IsSound : (e : Sock) → e.init ≡ false → IsSound e → IsSound (record e { init = false })
unset_init-IsSound e i h = ground arith

set_server-IsSound :
    (e : Sock)
    → e.init ≡ false
    → e.client ≡ false
    → IsSound e
    → IsSound (record e { init = false; server = true })
set_server-IsSound e i c h = ground arith

nonblock-IsSound : (e : Sock) (b : Bool) → IsSound e → IsSound (record e { nonblock = b })
nonblock-IsSound e b h = ground arith

module _ {S : Type 0} (lost : ℕ → ℕ) (r : Requests S) (fd : ℕ) where
  -- What a socket's entry is known to be.
  pub sound-Entry :
      {A : Type 0} {m : Run (Logged S) A} {Q : A → Tcp (Logged S) → Type 0}
      {E : Tcp (Logged S) → Type 0} (s : Sock)
      → (IsSound s → Triple (Holds lost (Entry fd s) none) m Q E)
      → Triple (Holds lost (Entry fd s) none) m Q E
  sound-Entry s k = Triple-given (λ t p. p.0.2) k

  -- A guard before a call.
  pub guarded :
      {A : Type 0} {m : Run (Logged S) A} (s : Sock) (b : Bool) (code : ℕ)
      → (b ≡ false → Triple (Holds lost (Entry fd s) none) m (λ _. Settled lost) (Settled lost))
      → Triple
          (Holds lost (Entry fd s) none)
          (refuse_if b code m)
          (λ _. Settled lost)
          (Settled lost)
  guarded {m} s b code k = Triple-refuse_if b code m (λ y t e p. (tt, p.1)) k

  -- A write at the end of a call.
  pub last_update :
      (s : Sock) (f : Sock → Sock)
      → IsSound (f s)
      → ((h : ℕ) → noted_in h (f s) + 0 ≡ noted_in h s + 0)
      → Triple {S = Logged S}
          (Holds lost (Entry fd s) none)
          (update fd f)
          (λ _. Settled lost)
          (Settled lost)
  last_update s f sound same =
      Triple-after (λ a t p. (tt, p.1)) (λ t p. p) (update-Entry lost fd s f none none sound same)

  pub closesocket-Keeps : Keeps lost (closesocket (logged r) fd)
  unfolding closesocket
  closesocket-Keeps = Triple-bind (get_sock-Entry lost fd) λ s. sound-Entry s λ sound.
      Triple-bind
        (update-Entry lost fd s without_flags none none (without_flags-IsSound s sound) (λ h. refl))
        λ _.
          Triple-weaken (settle lost (Entry fd (without_flags s)))
            (closeproxysocket-Settled lost r fd)

  pub ioctlsocket-Keeps : (flag value : ℕ) → Keeps lost (ioctlsocket {S = Logged S} fd flag value)
  unfolding ioctlsocket
  ioctlsocket-Keeps flag value = Triple-bind (get_sock-Entry lost fd) λ s. sound-Entry s λ sound.
      guarded s (not (flag == 0x70)) einval
        λ y. last_update s _ (nonblock-IsSound s (not (value == 0)) sound) (λ h. refl)

  -- A request of manage, sent by `send`.
  manage-held :
      (F G : List Sock → Type 0) (cmd : ℕ) (bytes : List ℕ) (send : ℕ → Run (Logged S) (Unit {0}))
      → ((h : ℕ)
          → Triple (Holds lost F (some h)) (send h) (λ _. Holds lost G (some h)) (Settled lost))
      → Triple
          (Holds lost F none)
          (manage (logged r) cmd fd bytes send)
          (λ _. Holds lost G none)
          (Settled lost)
  unfolding manage logged
  manage-held F G cmd bytes send sent = Triple-bind (new_sock_request-held lost r F cmd fd 0) λ h.
      Triple-bind (attempt-held lost r F h (r.fill h bytes) (settle lost F)) λ _.
        Triple-bind (sent h) λ _.
          Triple-bind (attempt-held lost r G h (r.words h) (settle lost G)) λ words.
            Triple-bind (free_request-held lost r G h) λ _.
              Triple-if_eok (high_half words.0) (pure tt) (λ t e p. p) (λ t e p. (tt, p.1))
                (Triple-pure tt)

  pub shutdown-Keeps : (how : ℕ) → Keeps lost (shutdown (logged r) fd how)
  unfolding shutdown
  shutdown-Keeps how = Triple-bind (get_sock-Entry lost fd) λ s. guarded s s.server eopnotsupp λ y.
      guarded s (not s.client) enotconn λ z. guarded s (ltb 2 how) einval λ x.
        Triple-after (λ a t p. (tt, p.1)) (λ t p. p)
          (manage-held (Entry fd s) (Entry fd s) 40 (how ∷ []) (send_and_wait (logged r))
            (λ h. send_and_wait-held lost r (Entry fd s) h (settle lost (Entry fd s))))

  -- The two ends of during_init.
  abbrev Done : Sock → ℕ → Option (Unit {0}) → Tcp (Logged S) → Type 0
  Done e h none = Holds lost (Entry fd e) none
  Done e h (some _) = Holds lost (Entry fd e) (some h)

  init_over :
      (s : Sock) (h : ℕ) (done : Option (Unit {0}))
      → s.init ≡ false
      → IsSound s
      → Triple
          (Done (record s { init = true }) h done)
          (do update fd (λ e. record e { init = false }); finished done)
          (λ _. Holds lost (Entry fd (record s { init = false })) (some h))
          (Settled lost)
  unfolding finished
  init_over s h none i sound =
      Triple-bind
        (update-Entry lost fd (record s { init = true }) (λ e. record e { init = false }) none none
          (unset_init-IsSound s i sound) (λ k. refl))
        (λ _. Triple-weaken (settle lost (Entry fd (record s { init = false }))) Triple-give_up)
  init_over s h (some _) i sound =
      Triple-bind
        (update-Entry lost fd (record s { init = true }) (λ e. record e { init = false }) (some h)
          (some h) (unset_init-IsSound s i sound) (λ k. refl))
        (λ _. Triple-pure tt)

  during_init-held :
      (s : Sock) (h : ℕ)
      → s.init ≡ false
      → IsSound s
      → Triple
          (Holds lost (Entry fd s) (some h))
          (during_init fd (send_and_wait (logged r) h))
          (λ _. Holds lost (Entry fd (record s { init = false })) (some h))
          (Settled lost)
  unfolding during_init
  during_init-held s h i sound =
      let e = record s { init = true } in
      Triple-bind
        (update-Entry lost fd s (λ e. record e { init = true }) (some h) (some h)
          (set_init-IsSound s sound) (λ k. refl))
        λ _.
          Triple-bind
            (Triple-called {R = Done e h} (λ a t p. p) (λ t p. p)
              (send_and_wait-held lost r (Entry fd e) {E = Holds lost (Entry fd e) none} h
                (λ t p. p)))
            λ done. init_over s h done i sound

  pub bind-Keeps : (myaddr : List ℕ) → Keeps lost (bind (logged r) fd myaddr)
  unfolding bind
  bind-Keeps myaddr = Triple-bind (get_sock-Entry lost fd) λ s. sound-Entry s λ sound.
      guarded s s.server eisconn λ y. guarded s (not s.dgram && s.client) eisconn λ z.
        guarded s s.init einprogress λ i.
          Triple-after (λ a t p. (tt, p.1)) (λ t p. p)
            (manage-held (Entry fd s) (Entry fd (record s { init = false })) 34 (take 8 myaddr) _
              (λ h. during_init-held s h i sound))

  pub listen-Keeps : (backlog : ℤ) → Keeps lost (listen (logged r) fd backlog)
  unfolding listen
  listen-Keeps backlog = Triple-bind (get_sock-Entry lost fd) λ s. sound-Entry s λ sound.
      Triple-if s.server _ _
        (λ y.
          Triple-weaken (settle lost (Entry fd s))
            (Triple-if_eok eok (pure tt) (λ t e p. p) (λ t e p. p) (Triple-pure tt)))
        λ y. guarded s s.client eopnotsupp λ z. guarded s s.init einprogress λ i.
          Triple-bind
            (manage-held (Entry fd s) (Entry fd (record s { init = false })) 36
              (backlog_byte backlog ∷ []) _ (λ h. during_init-held s h i sound))
            λ _.
              last_update (record s { init = false }) (λ e. record e { server = true })
                (set_server-IsSound s i z sound) (λ h. refl)

  pub get_sock_info-Keeps : (cmd room : ℕ) → Keeps lost (get_sock_info (logged r) cmd fd room)
  unfolding get_sock_info logged
  get_sock_info-Keeps cmd room = Triple-bind (get_sock-Entry lost fd) λ s.
      guarded s (is_too_small (some room)) einval λ y.
        let F = Entry fd s in
        Triple-bind (new_sock_request-held lost r F cmd fd 0) λ h.
          Triple-bind (send_and_wait-held lost r F h (settle lost F)) λ _.
            Triple-bind (attempt-held lost r F h (r.words h) (settle lost F)) λ words.
              Triple-bind (unless_refused-held lost r F h words.0) λ _.
                Triple-bind (attempt-held lost r F h (r.bytes h room 0) (settle lost F)) λ addr.
                  Triple-bind (free_request-held lost r F h)
                    λ _. Triple-weaken (settle lost F) (Triple-pure addr)
