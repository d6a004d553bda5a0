-- ===== src/Sockets/Ledger/Receiving.antt =====
-- The account over recv, recvfrom and accept (cms/ncfsockt.c).
use nicof.Prelude.{
  ℕ, ◌≡◌, ◌∙◌, sym, refl, Bool, true, false, not, ◌&&◌, Option, none, some, List, [], arith, length,
  ltb, leb, if◌then◌else◌,
}
use nicof.Prelude.Int.{ℤ}
use nicof.Sockets.{einval}
use nicof.Sockets.Requests.{
  Requests, Sock, enotconn, eopnotsupp, econnreset, einprogress, low_half, is_other,
}
use nicof.Sockets.Setup.{is_too_small}
use nicof.Sockets.Transfer.{
  is_negative, cut, length_bytes, is_noted, with_rest, note_recv, note_acpt, clear_recv, clear_acpt,
  accepted, received, recv_new, recv_from_handle, recv, from_address, received_from, recvfrom,
  peer_address, accept,
}
use nicof.Sockets.Ledger.{logged, IsSound, Holds, Entry}
use nicof.Sockets.Ledger.Rules.{
  Triple, Triple-pure, Triple-refuse, Triple-if, Triple-weaken, Triple-bind,
}
use nicof.Sockets.Ledger.Steps.{
  Settled, settle, get_sock-Entry, update-Entry, new_sock_request-held, attempt-held,
  free_request-held, unless_refused-held,
}
use nicof.Sockets.Ledger.Flags.{
  note_recv-IsSound, note_acpt-IsSound, clear_recv-IsSound, clear_acpt-IsSound, with_rest-IsSound,
  no_chunk, accepted-IsSound, moving_recv,
}
use nicof.Sockets.Ledger.Exchange.{ask_proxy-held, take_number-Settled}
use nicof.Sockets.Ledger.Setting.{Keeps, sound-Entry, guarded}
use nicof.Sockets.Ledger.Moving.{filled_request-held}

false-true : ◌≡◌ {A = Bool} false true → ⊥
false-true h = cc

module _ {S : Type 0} (lost : ℕ → ℕ) (r : Requests S) (fd : ℕ) where
  received-held :
      (s : Sock) (buflen h word : ℕ)
      → s.server ≡ false
      → not s.client ≡ false
      → IsSound s
      → Triple
          (Holds lost (Entry fd (clear_recv s)) (some h))
          (received (logged r) fd buflen (h, word))
          (λ _. Settled lost)
          (Settled lost)
  unfolding received logged
  received-held s buflen h word a b sound =
      let F = Entry fd (clear_recv s) in
      Triple-bind (unless_refused-held lost r F h word) λ _.
        Triple-bind (attempt-held lost r F h (r.data_length h) (settle lost F)) λ n.
          Triple-bind (attempt-held lost r F h (r.bytes h buflen 0) (settle lost F)) λ bytes.
            Triple-if (ltb (length bytes) n) _ _
              (λ y.
                Triple-bind
                  (update-Entry lost fd (clear_recv s) (with_rest h (length bytes) n) (some h) none
                    (with_rest-IsSound s h (length bytes) n a b sound) (λ k. omega arith))
                  λ _.
                    Triple-weaken
                      (settle lost (Entry fd (with_rest h (length bytes) n (clear_recv s))))
                      (Triple-pure bytes))
              λ y.
                Triple-bind (free_request-held lost r F h)
                  λ _. Triple-weaken (settle lost F) (Triple-pure bytes)

  recv_new-held :
      (s : Sock) (buflen flags : ℕ)
      → s.server ≡ false
      → not s.client ≡ false
      → is_other s.recv_handle s.pend_recv ≡ false
      → IsSound s
      → Triple
          (Holds lost (Entry fd s) none)
          (recv_new (logged r) fd s buflen flags)
          (λ _. Settled lost)
          (Settled lost)
  unfolding recv_new
  recv_new-held s buflen flags a b c sound =
      Triple-if (not (is_noted s.recv_handle) && ltb buflen 1) _ _
        (λ y. Triple-weaken (settle lost (Entry fd s)) (Triple-pure []))
        λ y.
          Triple-bind
            (ask_proxy-held lost r fd s s.recv_handle _ note_recv clear_recv
              (λ e. filled_request-held lost r fd (Entry fd s) 48 flags (length_bytes buflen))
              (λ e h. note_recv-IsSound s h a b e sound)
              (λ e h k. moving_recv s.recv_handle s.send_handle h k e)
              (clear_recv-IsSound s a b c sound) (λ k. omega arith))
            λ reply. received-held s buflen reply.0 reply.1 a b sound

  recv_from_handle-held :
      (s : Sock) (handle : Option ℕ) (buflen : ℤ) (flags : ℕ)
      → s.recv_handle ≡ handle
      → s.server ≡ false
      → not s.client ≡ false
      → is_other s.recv_handle s.pend_recv ≡ false
      → IsSound s
      → Triple
          (Holds lost (Entry fd s) none)
          (recv_from_handle (logged r) fd s handle buflen flags)
          (λ _. Settled lost)
          (Settled lost)
  unfolding recv_from_handle
  recv_from_handle-held s none buflen flags e a b c sound =
      recv_new-held s (cut 2048 buflen) flags a b c sound
  recv_from_handle-held s (some h) buflen flags e a b c sound =
      Triple-if (ltb 0 s.recv_remaining) _ _
        (λ y. absurd (false-true (sym (no_chunk s h e c sound) ∙ y)))
        (λ y. recv_new-held s (cut 2048 buflen) flags a b c sound)

  pub recv-Keeps : (buflen : ℤ) (flags : ℕ) → Keeps lost (recv (logged r) fd buflen flags)
  unfolding recv
  recv-Keeps buflen flags = Triple-bind (get_sock-Entry lost fd) λ s.
      sound-Entry lost r fd s λ sound. guarded lost r fd s s.server enotconn λ a.
        guarded lost r fd s (not s.client) enotconn λ b.
          guarded lost r fd s (is_other s.recv_handle s.pend_recv) einprogress λ c.
            guarded lost r fd s (is_negative buflen) einval
              λ d. recv_from_handle-held s s.recv_handle buflen flags refl a b c sound

  from_address-held :
      (F : List Sock → Type 0) (h : ℕ) (room : Option ℕ)
      → Triple
          (Holds lost F (some h))
          (from_address (logged r) h room)
          (λ _. Holds lost F (some h))
          (Settled lost)
  unfolding from_address logged
  from_address-held F h none = Triple-pure none
  from_address-held F h (some room) =
      Triple-bind
        (attempt-held lost r F h (r.bytes h (if leb 16 room then 16 else room) 0) (settle lost F))
        λ addr. Triple-pure (some addr)

  received_from-held :
      (F : List Sock → Type 0) (buflen : ℕ) (room : Option ℕ) (h word : ℕ)
      → Triple
          (Holds lost F (some h))
          (received_from (logged r) buflen room (h, word))
          (λ _. Settled lost)
          (Settled lost)
  unfolding received_from logged
  received_from-held F buflen room h word = Triple-bind (unless_refused-held lost r F h word) λ _.
      Triple-bind (attempt-held lost r F h (r.data_length h) (settle lost F)) λ n.
        Triple-if (ltb n 16) _ _
          (λ y.
            Triple-bind (free_request-held lost r F h)
              λ _. Triple-refuse econnreset (λ t e p. (tt, p.1)))
          λ y. Triple-bind (from_address-held F h room) λ from.
            Triple-bind (attempt-held lost r F h (r.bytes h buflen 16) (settle lost F)) λ bytes.
              Triple-bind (free_request-held lost r F h)
                λ _. Triple-weaken (settle lost F) (Triple-pure (bytes, from))

  pub recvfrom-Keeps :
      (buflen : ℤ) (flags : ℕ) (room : Option ℕ)
      → Keeps lost (recvfrom (logged r) fd buflen flags room)
  unfolding recvfrom
  recvfrom-Keeps buflen flags room = Triple-bind (get_sock-Entry lost fd) λ s.
      sound-Entry lost r fd s λ sound. guarded lost r fd s s.server enotconn λ a.
        guarded lost r fd s (not s.client) enotconn λ b.
          guarded lost r fd s (is_other s.recv_handle s.pend_recv) einprogress λ c.
            guarded lost r fd s (is_negative buflen) einval λ d.
              Triple-if (not (is_noted s.recv_handle) && ltb (cut 2032 buflen) 1) _ _
                (λ y. Triple-weaken (settle lost (Entry fd s)) (Triple-pure ([], none)))
                λ y.
                  Triple-bind
                    (ask_proxy-held lost r fd s s.recv_handle _ note_recv clear_recv
                      (λ e.
                        filled_request-held lost r fd (Entry fd s) 49 flags
                          (length_bytes (cut 2032 buflen)))
                      (λ e h. note_recv-IsSound s h a b e sound)
                      (λ e h k. moving_recv s.recv_handle s.send_handle h k e)
                      (clear_recv-IsSound s a b c sound) (λ k. omega arith))
                    λ reply.
                      received_from-held (Entry fd (clear_recv s)) (cut 2032 buflen) room reply.0
                        reply.1

  peer_address-held :
      (F : List Sock → Type 0) (h : ℕ) (room : Option ℕ)
      → Triple
          (Holds lost F (some h))
          (peer_address (logged r) h room)
          (λ _. Holds lost F (some h))
          (Settled lost)
  unfolding peer_address logged
  peer_address-held F h none = record { at = λ t p. p }
  peer_address-held F h (some room) = record { at = λ t p. p }

  pub accept-Keeps : (room : Option ℕ) → Keeps lost (accept (logged r) fd room)
  unfolding accept
  accept-Keeps room = Triple-bind (get_sock-Entry lost fd) λ s. sound-Entry lost r fd s λ sound.
      guarded lost r fd s s.client eopnotsupp λ a. guarded lost r fd s (not s.server) einval λ b.
        guarded lost r fd s (is_other s.recv_handle s.pend_acpt) einprogress λ c.
          guarded lost r fd s (is_too_small room) einval λ d.
            let F = Entry fd (clear_acpt s) in
            Triple-bind
              (ask_proxy-held lost r fd s s.recv_handle _ note_acpt clear_acpt
                (λ e. new_sock_request-held lost r (Entry fd s) 37 fd 0)
                (λ e h. note_acpt-IsSound s h a b e sound)
                (λ e h k. moving_recv s.recv_handle s.send_handle h k e)
                (clear_acpt-IsSound s a b c sound) (λ k. omega arith))
              λ reply. Triple-bind (unless_refused-held lost r F reply.0 reply.1) λ _.
                Triple-bind (peer_address-held F reply.0 room) λ addr.
                  Triple-bind (free_request-held lost r F reply.0) λ _.
                    Triple-bind
                      (Triple-weaken (settle lost F) (
                        take_number-Settled lost r (low_half reply.1) accepted accepted-IsSound
                          (λ h e. refl)))
                      λ n. Triple-pure (n, addr)
