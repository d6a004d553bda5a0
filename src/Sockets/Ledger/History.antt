-- ===== src/Sockets/Ledger/History.antt =====
-- The account over a program's calls on sockets (cms/ncfsockt.c).
use nicof.Prelude.{
  ℕ, zero, suc, ◌+◌, ◌<◌, ◌≤◌, ◌≡◌, ◌∙◌, refl, ap, Bool, true, false, Option, none, some, List, [],
  ◌∷◌, arith, length, replicate, get_or, All, length-set, leb,
}
use nicof.Sockets.{fd_setsize}
use nicof.Sockets.Requests.{
  Requests, Sock, no_sock, Tcp, Run, init_sockets, eprotonosupport, emfile, high_half, low_half,
  pure, update, ◌>>◌,
}
use nicof.Sockets.Setup.{
  chosen_protocol, alloc_word, new_sock, take_number, alloc_socket, socket_for,
}
use nicof.Sockets.Setup
use nicof.Sockets.Calls.{Call, perform, perform_all}
use nicof.Sockets.Ledger.{Logged, logged, count, occurs, noted, noted_in, IsSound, Owing, Any}
use nicof.Sockets.Ledger.Rules.{
  Triple, After, Triple-pure, Triple-refuse, Triple-if, Triple-if_eok, Triple-after, Triple-called,
  Triple-bind,
}
use nicof.Sockets.Ledger.Steps.{
  Settled, All-set, noted-set, new_sock_request-held, attempt-held, free_request-held,
}
use nicof.Sockets.Ledger.Exchange.{send_and_wait-held, closeproxysocket-Settled}
use nicof.Sockets.Ledger.Setting.{
  Keeps, closesocket-Keeps, shutdown-Keeps, bind-Keeps, listen-Keeps, get_sock_info-Keeps,
  ioctlsocket-Keeps,
}
use nicof.Sockets.Ledger.Moving.{connect-Keeps, send-Keeps, sendto-Keeps}
use nicof.Sockets.Ledger.Receiving.{recv-Keeps, recvfrom-Keeps, accept-Keeps}
use nicof.Sockets.Ledger.Watching.{select_x-Keeps}

-- The state is in order, and some requests may be lost.
pub record IsKept {S : Type 0} (t : Tcp (Logged S)) : Type 0 where
  pub lost : ℕ → ℕ
  pub owing : Owing lost none t.sockets t.world.created t.world.freed

abbrev pub makes_socket : Call → Bool
makes_socket (Call.socket family kind protocol) = true
makes_socket _ = false

true-false : ◌≡◌ {A = Bool} true false → ⊥
true-false h = cc

module _ {S : Type 0} (lost : ℕ → ℕ) (r : Requests S) where
  kept : (t : Tcp (Logged S)) → Settled lost t → IsKept t
  kept t p = record { lost = lost; owing = p.1 }

  new_sock-IsSound : (kind : ℕ) → IsSound (new_sock kind)
  new_sock-IsSound kind = ground arith

  new_sock-noted : (h kind : ℕ) → noted_in h (new_sock kind) ≡ 0
  new_sock-noted h kind = ground arith

  -- memset of the entry forgets what it noted.
  update-IsKept :
      (fd kind : ℕ)
      → fd < fd_setsize
      → Triple (Settled lost) (update fd (λ _. new_sock kind)) (λ _. IsKept {S = S}) IsKept
  unfolding update
  update-IsKept fd kind inside = record {
    at = λ t (_, owing). record {
      lost = λ h. lost h + noted_in h (get_or t.sockets fd no_sock);
      owing = record {
        size = length-set t.sockets fd (new_sock kind) ∙ owing.size;
        sound = All-set t.sockets fd (new_sock kind) owing.sound (new_sock-IsSound kind);
        accounted = λ h. omega (
          arith,
          owing.accounted h,
          new_sock-noted h kind,
          noted-set t.sockets fd h (new_sock kind) (omega (arith, owing.size)),
        );
      };
    };
  }

  take_number-IsKept :
      (n kind : ℕ)
      → Triple (Settled lost) (take_number (logged r) n (λ _. new_sock kind)) (λ _. IsKept) IsKept
  unfolding take_number
  take_number-IsKept n kind =
      Triple-if (leb fd_setsize n) _ _
        (λ y.
          Triple-after (λ a. kept) kept
            (Triple-bind (Triple-called (λ a t p. p) (λ t p. p) (closeproxysocket-Settled lost r n))
              (λ _. Triple-refuse emfile (λ t e p. p))))
        (λ y. Triple-bind (update-IsKept n kind (ground arith)) (λ _. Triple-pure n))

  alloc_socket-IsKept :
      (family kind protocol : ℕ)
      → Triple (Settled lost) (alloc_socket (logged r) family kind protocol) (λ _. IsKept) IsKept
  unfolding alloc_socket logged
  alloc_socket-IsKept family kind protocol =
      Triple-bind
        (Triple-after (λ h t p. p) kept
          (new_sock_request-held lost r Any 32 0 (alloc_word family kind protocol)))
        λ h. Triple-bind (send_and_wait-held lost r Any h kept) λ _.
          Triple-bind (attempt-held lost r Any h (r.words h) kept) λ words.
            Triple-bind (free_request-held lost r Any h) λ _.
              Triple-if_eok (high_half words.0) _ (λ t e p. p)
                (λ t e p. record { lost = lost; owing = p.1 })
                (take_number-IsKept (low_half words.0) kind)

  socket_for-IsKept :
      (family kind : ℕ) (protocol : Option ℕ)
      → Triple (Settled lost) (socket_for (logged r) family kind protocol) (λ _. IsKept) IsKept
  unfolding socket_for
  socket_for-IsKept family kind none =
      Triple-refuse eprotonosupport (λ t e p. record { lost = lost; owing = p.1 })
  socket_for-IsKept family kind (some protocol) = alloc_socket-IsKept family kind protocol

  ignoring : {A : Type 0} {m : Run (Logged S) A} → Keeps lost m → Keeps lost (m >> pure tt)
  ignoring k = Triple-bind k (λ _. Triple-pure tt)

  perform-Keeps : (c : Call) → makes_socket c ≡ false → Keeps lost (perform (logged r) c)
  unfolding perform
  perform-Keeps (Call.socket family kind protocol) e = absurd (true-false e)
  perform-Keeps (Call.closesocket fd) e = closesocket-Keeps lost r fd
  perform-Keeps (Call.shutdown fd how) e = shutdown-Keeps lost r fd how
  perform-Keeps (Call.bind fd myaddr) e = bind-Keeps lost r fd myaddr
  perform-Keeps (Call.listen fd backlog) e = listen-Keeps lost r fd backlog
  perform-Keeps (Call.getsockname fd room) e = ignoring (get_sock_info-Keeps lost r fd 38 room)
  perform-Keeps (Call.getpeername fd room) e = ignoring (get_sock_info-Keeps lost r fd 39 room)
  perform-Keeps (Call.ioctlsocket fd flag value) e = ioctlsocket-Keeps lost r fd flag value
  perform-Keeps (Call.connect fd addr addrlen) e = connect-Keeps lost r fd addr addrlen
  perform-Keeps (Call.send fd buf buflen flags) e = ignoring (send-Keeps lost r fd buf buflen flags)
  perform-Keeps (Call.sendto fd buf buflen flags to) e =
      ignoring (sendto-Keeps lost r fd buf buflen flags to)
  perform-Keeps (Call.recv fd buflen flags) e = ignoring (recv-Keeps lost r fd buflen flags)
  perform-Keeps (Call.recvfrom fd buflen flags room) e =
      ignoring (recvfrom-Keeps lost r fd buflen flags room)
  perform-Keeps (Call.accept fd room) e = ignoring (accept-Keeps lost r fd room)
  perform-Keeps (Call.select n rd wr timeout) e = ignoring (select_x-Keeps lost r n rd wr timeout)

  keeping :
      {m : Run (Logged S) (Unit {0})} → Keeps lost m → Triple (Settled lost) m (λ _. IsKept) IsKept
  keeping k = Triple-after (λ a. kept) kept k

  perform-IsKept : (c : Call) → Triple (Settled lost) (perform (logged r) c) (λ _. IsKept) IsKept
  unfolding perform Setup.socket
  perform-IsKept (Call.socket family kind protocol) =
      Triple-bind (socket_for-IsKept family kind (chosen_protocol family kind protocol))
        (λ _. Triple-pure tt)
  perform-IsKept (Call.closesocket fd) = keeping (perform-Keeps (Call.closesocket fd) refl)
  perform-IsKept (Call.shutdown fd how) = keeping (perform-Keeps (Call.shutdown fd how) refl)
  perform-IsKept (Call.bind fd myaddr) = keeping (perform-Keeps (Call.bind fd myaddr) refl)
  perform-IsKept (Call.listen fd backlog) = keeping (perform-Keeps (Call.listen fd backlog) refl)
  perform-IsKept (Call.getsockname fd room) =
      keeping (perform-Keeps (Call.getsockname fd room) refl)
  perform-IsKept (Call.getpeername fd room) =
      keeping (perform-Keeps (Call.getpeername fd room) refl)
  perform-IsKept (Call.ioctlsocket fd flag value) =
      keeping (perform-Keeps (Call.ioctlsocket fd flag value) refl)
  perform-IsKept (Call.connect fd addr addrlen) =
      keeping (perform-Keeps (Call.connect fd addr addrlen) refl)
  perform-IsKept (Call.send fd buf buflen flags) =
      keeping (perform-Keeps (Call.send fd buf buflen flags) refl)
  perform-IsKept (Call.sendto fd buf buflen flags to) =
      keeping (perform-Keeps (Call.sendto fd buf buflen flags to) refl)
  perform-IsKept (Call.recv fd buflen flags) =
      keeping (perform-Keeps (Call.recv fd buflen flags) refl)
  perform-IsKept (Call.recvfrom fd buflen flags room) =
      keeping (perform-Keeps (Call.recvfrom fd buflen flags room) refl)
  perform-IsKept (Call.accept fd room) = keeping (perform-Keeps (Call.accept fd room) refl)
  perform-IsKept (Call.select n rd wr timeout) =
      keeping (perform-Keeps (Call.select n rd wr timeout) refl)

abbrev start : {S : Type 0} → S → Tcp (Logged S)
start w = init_sockets (record { base = w; created = []; freed = [] })

-- The state after some calls, where they return.
abbrev pub InOrder : {S : Type 0} → Option (Tcp (Logged S)) → Type 0
InOrder none = Unit
InOrder (some t) =
    (length t.sockets ≡ fd_setsize)
    × All IsSound t.sockets
    × ((h : ℕ) → count h t.world.freed + noted h t.sockets ≤ count h t.world.created)

-- After a call that returns, whatever its result: the table is in order, and every request that was
-- created was freed or is noted in the table.
abbrev pub Accounted : {S : Type 0} → Option (Tcp (Logged S) × Option (Unit {0})) → Type 0
Accounted none = Unit
Accounted (some (t, result)) = Owing (λ h. 0) none t.sockets t.world.created t.world.freed

All-replicate : (n : ℕ) → All IsSound (replicate n no_sock)
All-replicate zero = tt
All-replicate (suc n) = (refl, All-replicate n)

noted-replicate : (n h : ℕ) → noted h (replicate n no_sock) ≡ 0
unfolding noted
noted-replicate zero h = refl
noted-replicate (suc n) h = omega (arith, noted-replicate n h)

-- A table with one socket in use, that has no request noted, owes nothing.
pub one_socket-Owing :
    (s : Sock) (freed : List ℕ)
    → IsSound s
    → s.recv_handle ≡ none
    → s.send_handle ≡ none
    → Owing (λ h. 0) none (s ∷ replicate 63 no_sock) freed freed
unfolding noted
one_socket-Owing s freed sound e f = record {
  size = refl;
  sound = (sound, All-replicate 63);
  accounted = λ h. omega (arith, noted-replicate 63 h, ap (occurs h) e, ap (occurs h) f);
}

start-IsKept : {S : Type 0} (w : S) → IsKept (start w)
unfolding init_sockets count
start-IsKept w = record {
  lost = λ h. 0;
  owing = record {
    size = refl;
    sound = All-replicate fd_setsize;
    accounted = λ h. omega (arith, noted-replicate fd_setsize h);
  };
}

module _ {S : Type 0} (r : Requests S) where
  after-Accounted :
      (o : Option (Tcp (Logged S) × Option (Unit {0})))
      → After (λ _. Settled (λ h. 0)) (Settled (λ h. 0)) o
      → Accounted o
  after-Accounted none p = tt
  after-Accounted (some (t, none)) p = p.1
  after-Accounted (some (t, some _)) p = p.1

  kept-InOrder : (t : Tcp (Logged S)) → IsKept t → InOrder (some t)
  kept-InOrder t k = (k.owing.size, k.owing.sound, λ h. omega (arith, k.owing.accounted h))

  after_call :
      (calls : List Call) (o : Option (Tcp (Logged S) × Option (Unit {0})))
      → After (λ _. IsKept) IsKept o
      → ((t : Tcp (Logged S)) → IsKept t → InOrder (perform_all (logged r) calls t))
      → InOrder (elim o [ none ↦ none | some (u, _) ↦ perform_all (logged r) calls u ])
  after_call calls none p k = tt
  after_call calls (some (t, none)) p k = k t p
  after_call calls (some (t, some _)) p k = k t p

  perform_all-InOrder :
      (calls : List Call) (t : Tcp (Logged S)) → IsKept t → InOrder (perform_all (logged r) calls t)
  unfolding perform_all
  perform_all-InOrder [] t k = kept-InOrder t k
  perform_all-InOrder (c ∷ calls) t k =
      after_call calls (perform (logged r) c t) ((perform-IsKept k.lost r c).at t (tt, k.owing))
        (perform_all-InOrder calls)

  -- From the start of a program, any sequence of calls on sockets, each of which may fail, over any
  -- client, leaves, where it returns, a table of 64 sockets in which each is a client or a server
  -- or none of both, has at most one operation under way, which fits its role and has its request
  -- noted, and has a request noted where part of a response is left over, with no operation under
  -- way; and no request has been freed and noted in the table together more often than it was
  -- created.
  pub history-InOrder :
      (w : S) (calls : List Call) → InOrder (perform_all (logged r) calls (start w))
  history-InOrder w calls = perform_all-InOrder calls (start w) (start-IsKept w)

  -- Where the table of sockets is in order and every request that was created was freed or is noted
  -- in the table, once each, this holds after any call but socket that returns, whether it succeeds
  -- or fails: no call leaves a request behind or frees one that stays noted.
  pub perform-Accounted :
      (c : Call) (t : Tcp (Logged S))
      → makes_socket c ≡ false
      → Accounted (some (t, none))
      → Accounted (perform (logged r) c t)
  perform-Accounted c t e o =
      after-Accounted (perform (logged r) c t) ((perform-Keeps (λ h. 0) r c e).at t (tt, o))
