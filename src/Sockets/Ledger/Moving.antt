-- ===== src/Sockets/Ledger/Moving.antt =====
-- The account over connect, accept, and the calls that send and receive (cms/ncfsockt.c).
use nicof.Prelude.{ℕ, ◌+◌, ◌≡◌, refl, true, not, ◌&&◌, Option, none, some, List, arith, take, ltb}
use nicof.Prelude.Int.{ℤ}
use nicof.Sockets.{einval}
use nicof.Sockets.Requests.{
  Requests, Sock, Run, eafnosupport, enotconn, eopnotsupp, eisconn, ebadf, low_half, is_other,
}
use nicof.Sockets.Transfer.{
  is_negative, cut, is_noted, note_conn, note_send, clear_conn, clear_send, filled_request,
  connect_request, connect, sent_count, send_by, send, sendto_request, sendto,
}
use nicof.Sockets.Ledger.{Logged, logged, occurs, IsSound, Holds, Entry}
use nicof.Sockets.Ledger.Rules.{
  Triple, Triple-pure, Triple-refuse_if, Triple-if, Triple-if_eok, Triple-weaken, Triple-bind,
}
use nicof.Sockets.Ledger.Steps.{
  Settled, settle, get_sock-Entry, new_sock_request-held, attempt-held, free_request-held,
  unless_refused-held,
}
use nicof.Sockets.Ledger.Flags.{
  note_conn-IsSound, clear_conn-IsSound, connected-IsSound, moving_recv,
}
use nicof.Sockets.Ledger.Exchange.{ask_proxy-held}
use nicof.Sockets.Ledger.Setting.{Keeps, sound-Entry, guarded, last_update}

module _ {S : Type 0} (lost : ℕ → ℕ) (r : Requests S) (fd : ℕ) where
  pub filled_request-held :
      (F : List Sock → Type 0) (cmd w2 : ℕ) (bytes : List ℕ)
      → Triple
          (Holds lost F none)
          (filled_request (logged r) cmd fd w2 bytes)
          (λ h. Holds lost F (some h))
          (Settled lost)
  unfolding filled_request logged
  filled_request-held F cmd w2 bytes =
      Triple-bind (new_sock_request-held lost r F cmd fd w2) λ h.
        Triple-bind (attempt-held lost r F h (r.fill h bytes) (settle lost F)) λ _. Triple-pure h

  connect_request-held :
      (F : List Sock → Type 0) (addr : List ℕ) (addrlen : ℤ)
      → Triple
          (Holds lost F none)
          (connect_request (logged r) fd addr addrlen)
          (λ h. Holds lost F (some h))
          (Settled lost)
  unfolding connect_request
  connect_request-held F addr addrlen =
      Triple-refuse_if _ eafnosupport _ (λ y t e p. (tt, p.1))
        (λ y. filled_request-held F 35 0 (take 8 addr))

  pub connect-Keeps :
      (addr : List ℕ) (addrlen : ℤ) → Keeps lost (connect (logged r) fd addr addrlen)
  unfolding connect
  connect-Keeps addr addrlen = Triple-bind (get_sock-Entry lost fd) λ s.
      sound-Entry lost r fd s λ sound. guarded lost r fd s s.server eisconn λ a.
        guarded lost r fd s s.client eisconn λ b.
          guarded lost r fd s (is_other s.recv_handle s.pend_conn) ebadf λ c.
            Triple-bind
              (ask_proxy-held lost r fd s s.recv_handle _ note_conn clear_conn
                (λ e. connect_request-held (Entry fd s) addr addrlen)
                (λ e h. note_conn-IsSound s h a b e sound)
                (λ e h k. moving_recv s.recv_handle s.send_handle h k e)
                (clear_conn-IsSound s a b c sound) (λ k. omega arith))
              λ reply. Triple-bind (free_request-held lost r (Entry fd (clear_conn s)) reply.0) λ _.
                Triple-if_eok reply.1 _ (λ t e p. p) (λ t e p. (tt, p.1))
                  (last_update lost r fd (clear_conn s) (λ e. record e { client = true })
                    (connected-IsSound s a b c sound) (λ h. refl))

  sent_count-held :
      (F : List Sock → Type 0) (h word : ℕ)
      → Triple
          (Holds lost F (some h))
          (sent_count (logged r) (h, word))
          (λ _. Settled lost)
          (Settled lost)
  unfolding sent_count
  sent_count-held F h word = Triple-bind (unless_refused-held lost r F h word) λ _.
      Triple-bind (free_request-held lost r F h)
        λ _. Triple-weaken (settle lost F) (Triple-pure (low_half word))

  moving_send :
      (o p : Option ℕ) (h k : ℕ)
      → o ≡ none
      → occurs k p + occurs k (some h) + 0 ≡ occurs k p + occurs k o + occurs k (some h)
  moving_send o p h k e = rw e (omega arith)

  send_by-held :
      (s : Sock) (buflen : ℕ) (make : Run (Logged S) ℕ)
      → IsSound s
      → Triple
          (Holds lost (Entry fd s) none)
          make
          (λ h. Holds lost (Entry fd s) (some h))
          (Settled lost)
      → Triple
          (Holds lost (Entry fd s) none)
          (send_by (logged r) fd s buflen make)
          (λ _. Settled lost)
          (Settled lost)
  unfolding send_by
  send_by-held s buflen make sound made =
      Triple-if (not (is_noted s.send_handle) && ltb buflen 1) _ _
        (λ y. Triple-weaken (settle lost (Entry fd s)) (Triple-pure 0))
        λ y.
          Triple-bind
            (ask_proxy-held lost r fd s s.send_handle make note_send clear_send (λ e. made)
              (λ e h. sound) (λ e h k. moving_send s.send_handle s.recv_handle h k e) sound
              (λ k. omega arith))
            λ reply. sent_count-held (Entry fd (clear_send s)) reply.0 reply.1

  pub send-Keeps :
      (buf : List ℕ) (buflen : ℤ) (flags : ℕ) → Keeps lost (send (logged r) fd buf buflen flags)
  unfolding send
  send-Keeps buf buflen flags = Triple-bind (get_sock-Entry lost fd) λ s.
      sound-Entry lost r fd s λ sound. guarded lost r fd s s.server enotconn λ a.
        guarded lost r fd s (not s.client) enotconn λ b.
          guarded lost r fd s (is_negative buflen) einval λ c.
            send_by-held s (cut 2048 buflen) _ sound
              (filled_request-held (Entry fd s) 50 flags (take (cut 2048 buflen) buf))

  sendto_request-held :
      (F : List Sock → Type 0) (flags : ℕ) (to buf : List ℕ)
      → Triple
          (Holds lost F none)
          (sendto_request (logged r) fd flags to buf)
          (λ h. Holds lost F (some h))
          (Settled lost)
  unfolding sendto_request logged
  sendto_request-held F flags to buf = Triple-bind (new_sock_request-held lost r F 51 fd flags) λ h.
      Triple-bind (attempt-held lost r F h (r.fill_both h to buf) (settle lost F))
        λ _. Triple-pure h

  -- The end of sendto.
  abbrev send_to : Sock → List ℕ → ℤ → ℕ → Option (List ℕ) → Run (Logged S) ℕ
  send_to s buf buflen flags to = elim to [
    | none ↦ send (logged r) fd buf buflen flags
    | some addr ↦
        send_by (logged r) fd s (cut 2032 buflen)
          (sendto_request (logged r) fd flags (take 16 addr) (take (cut 2032 buflen) buf))
  ]

  send_to-held :
      (s : Sock) (buf : List ℕ) (buflen : ℤ) (flags : ℕ) (to : Option (List ℕ))
      → IsSound s
      → Triple
          (Holds lost (Entry fd s) none)
          (send_to s buf buflen flags to)
          (λ _. Settled lost)
          (Settled lost)
  send_to-held s buf buflen flags none sound =
      Triple-weaken (settle lost (Entry fd s)) (send-Keeps buf buflen flags)
  send_to-held s buf buflen flags (some addr) sound =
      send_by-held s (cut 2032 buflen) _ sound
        (sendto_request-held (Entry fd s) flags (take 16 addr) (take (cut 2032 buflen) buf))

  pub sendto-Keeps :
      (buf : List ℕ) (buflen : ℤ) (flags : ℕ) (to : Option (List ℕ))
      → Keeps lost (sendto (logged r) fd buf buflen flags to)
  unfolding sendto
  sendto-Keeps buf buflen flags to = Triple-bind (get_sock-Entry lost fd) λ s.
      sound-Entry lost r fd s λ sound. guarded lost r fd s s.server eopnotsupp λ a.
        guarded lost r fd s (not s.client) eopnotsupp λ b.
          guarded lost r fd s (is_negative buflen) einval
            λ c. send_to-held s buf buflen flags to sound
