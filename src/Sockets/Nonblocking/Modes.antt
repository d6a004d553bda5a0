-- ===== src/Sockets/Nonblocking/Modes.antt =====
-- cms/ncfsockt.c: on a socket in non-blocking mode the calls return.
use nicof.Prelude.{
  ℕ, ◌≡◌, subst, Bool, true, false, not, ◌&&◌, Option, none, some, List, [], arith, take, length,
  get_or, ltb, leb, if◌then◌else◌,
}
use nicof.Prelude.Int.{ℤ}
use nicof.Sockets.Requests.{
  Requests, Sock, no_sock, Tcp, Run, eafnosupport, econnreset, low_half, pure, give_up, refuse_if,
  is_other, ◌>>=◌, ◌>>◌, get_sock, update, free_request,
}
use nicof.Sockets.Transfer.{
  is_negative, nonneg, is_noted, length_bytes, with_rest, note_conn, note_recv, note_send,
  clear_conn, clear_recv, clear_send, next_chunk, dropped, cut, filled_request, connect_request,
  connect, sent_count, send_by, send, sendto_request, sendto, received, recv_chunk, recv_new,
  recv_from_handle, recv, from_address, received_from, recvfrom,
}
use nicof.Sockets.Calls.{Call, perform}
use nicof.Sockets.Refused.{descriptor}
use nicof.Sockets.Nonblocking.{
  Returns, ReturnsFrom, AvailableReturns, Returns-pure, Returns-give_up, Returns-refuse, Returns-if,
  Returns-if_eok, Returns-bind, Returns-new, Returns-free, Returns-update, Returns-get,
  Returns-unless_refused, Returns-called, Returns-attempt, refuse_if-returns, bind_returns,
  exchange_returns,
}

Returns-refuse_if :
    {S A : Type 0} (b : Bool) (code : ℕ) (m : Run S A) → Returns m → Returns (refuse_if b code m)
Returns-refuse_if b code m k = record { at = λ t. refuse_if-returns b code m t (k.at t) }

module _ {S : Type 0} (fd : ℕ) (t : Tcp S)
    (mode : (get_or t.sockets fd no_sock).nonblock ≡ true) where
  got_mode : (u : Tcp S) (s : Sock) → get_sock fd t ≡ some (u, some s) → s.nonblock ≡ true
  unfolding get_sock
  got_mode u s e = ground arith

  got_state : (u : Tcp S) (s : Sock) → get_sock fd t ≡ some (u, some s) → t ≡ u
  unfolding get_sock
  got_state u s e = ground arith

module _ {S : Type 0} (r : Requests S) (law : AvailableReturns r) (fd : ℕ) where
  filled_returns : (cmd w2 : ℕ) (bytes : List ℕ) → Returns (filled_request r cmd fd w2 bytes)
  unfolding filled_request
  filled_returns cmd w2 bytes =
      Returns-bind (Returns-new r cmd fd w2)
        λ h. Returns-bind (Returns-attempt r h (r.fill h bytes)) λ _. Returns-pure h

  connect_request_returns :
      (addr : List ℕ) (addrlen : ℤ) → Returns (connect_request r fd addr addrlen)
  unfolding connect_request
  connect_request_returns addr addrlen =
      Returns-refuse_if _ eafnosupport _ (filled_returns 35 0 (take 8 addr))

  sendto_request_returns :
      (flags : ℕ) (to buf : List ℕ) → Returns (sendto_request r fd flags to buf)
  unfolding sendto_request
  sendto_request_returns flags to buf =
      Returns-bind (Returns-new r 51 fd flags)
        λ h. Returns-bind (Returns-attempt r h (r.fill_both h to buf)) λ _. Returns-pure h

  send_by_returns :
      (s : Sock) (buflen : ℕ) (make : Run S ℕ)
      → s.nonblock ≡ true
      → Returns make
      → Returns (send_by r fd s buflen make)
  unfolding send_by sent_count
  send_by_returns s buflen make mode k =
      Returns-if (not (is_noted s.send_handle) && ltb buflen 1) _ _ (Returns-pure 0) (
        Returns-bind (exchange_returns r law fd s mode s.send_handle make note_send clear_send k)
          λ reply.
            Returns-bind (Returns-unless_refused r reply.0 reply.1)
              λ _. Returns-bind (Returns-free r reply.0) λ _. Returns-pure (low_half reply.1))

  received_returns : (buflen h word : ℕ) → Returns (received r fd buflen (h, word))
  unfolding received
  received_returns buflen h word = Returns-bind (Returns-unless_refused r h word) λ _.
      Returns-bind (Returns-attempt r h (r.data_length h)) λ n.
        Returns-bind (Returns-attempt r h (r.bytes h buflen 0)) λ bytes.
          Returns-if (ltb (length bytes) n) _ _
            (Returns-bind (Returns-update r fd (with_rest h (length bytes) n))
              (λ _. Returns-pure bytes))
            (Returns-bind (Returns-free r h) (λ _. Returns-pure bytes))

  recv_new_returns :
      (s : Sock) (buflen flags : ℕ) → s.nonblock ≡ true → Returns (recv_new r fd s buflen flags)
  unfolding recv_new
  recv_new_returns s buflen flags mode =
      Returns-if (not (is_noted s.recv_handle) && ltb buflen 1) _ _ (Returns-pure []) (
        Returns-bind
          (exchange_returns r law fd s mode s.recv_handle _ note_recv clear_recv
            (filled_returns 48 flags (length_bytes buflen)))
          (λ reply. received_returns buflen reply.0 reply.1))

  recv_chunk_returns : (s : Sock) (h buflen : ℕ) → Returns (recv_chunk r fd s h buflen)
  unfolding recv_chunk
  recv_chunk_returns s h buflen =
      Returns-bind (Returns-called r _ (Returns-attempt r h (r.bytes h buflen s.recv_from))) chunk
    where
      chunk :
          (got : Option (List ℕ))
          → Returns {S = S} {A = List ℕ} (elim got [
            | none ↦ do update fd dropped; give_up
            | some bytes ↦ do
              update fd (next_chunk buflen)
              if ltb buflen s.recv_remaining then pure bytes else (do free_request r h; pure bytes)
          ])
      chunk none = Returns-bind (Returns-update r fd dropped) (λ _. Returns-give_up)
      chunk (some bytes) = Returns-bind (Returns-update r fd (next_chunk buflen)) λ _.
          Returns-if (ltb buflen s.recv_remaining) _ _ (Returns-pure bytes)
            (Returns-bind (Returns-free r h) (λ _. Returns-pure bytes))

  recv_from_handle_returns :
      (s : Sock) (handle : Option ℕ) (buflen : ℤ) (flags : ℕ)
      → s.nonblock ≡ true
      → Returns (recv_from_handle r fd s handle buflen flags)
  unfolding recv_from_handle
  recv_from_handle_returns s none buflen flags mode =
      recv_new_returns s (cut 2048 buflen) flags mode
  recv_from_handle_returns s (some h) buflen flags mode =
      Returns-if (ltb 0 s.recv_remaining) _ _ (recv_chunk_returns s h (nonneg buflen))
        (recv_new_returns s (cut 2048 buflen) flags mode)

  from_address_returns : (h : ℕ) (room : Option ℕ) → Returns (from_address r h room)
  unfolding from_address
  from_address_returns h none = Returns-pure none
  from_address_returns h (some room) =
      Returns-bind (Returns-attempt r h (r.bytes h (if leb 16 room then 16 else room) 0))
        (λ addr. Returns-pure (some addr))

  received_from_returns :
      (buflen : ℕ) (room : Option ℕ) (h word : ℕ) → Returns (received_from r buflen room (h, word))
  unfolding received_from
  received_from_returns buflen room h word = Returns-bind (Returns-unless_refused r h word) λ _.
      Returns-bind (Returns-attempt r h (r.data_length h)) λ n.
        Returns-if (ltb n 16) _ _ (Returns-bind (Returns-free r h) (λ _. Returns-refuse econnreset))
          (Returns-bind (from_address_returns h room) λ from.
            Returns-bind (Returns-attempt r h (r.bytes h buflen 16))
              λ bytes. Returns-bind (Returns-free r h) λ _. Returns-pure (bytes, from))

  module _ (t : Tcp S) (mode : (get_or t.sockets fd no_sock).nonblock ≡ true) where
    on_socket :
        {A : Type 0} (body : Sock → Run S A)
        → ((s : Sock) → s.nonblock ≡ true → ReturnsFrom t (body s))
        → ReturnsFrom t (get_sock fd >>= body)
    on_socket body k = bind_returns (get_sock fd) body t ((Returns-get r fd).at t) (λ u s e.
        subst (λ v. ReturnsFrom v (body s)) (got_state fd t mode u s e)
          (k s (got_mode fd t mode u s e)))

    connect_returns : (addr : List ℕ) (addrlen : ℤ) → ReturnsFrom t (connect r fd addr addrlen)
    unfolding connect
    connect_returns addr addrlen = on_socket _ λ s m.
        (Returns-refuse_if s.server _ _ (
            Returns-refuse_if s.client _ _ (
              Returns-refuse_if (is_other s.recv_handle s.pend_conn) _ _ (
                Returns-bind
                  (exchange_returns r law fd s m s.recv_handle _ note_conn clear_conn
                    (connect_request_returns addr addrlen))
                  λ reply.
                    Returns-bind (Returns-free r reply.0)
                      λ _. Returns-if_eok reply.1 _ (Returns-update r fd _))))).at
          t

    send_returns :
        (buf : List ℕ) (buflen : ℤ) (flags : ℕ) → ReturnsFrom t (send r fd buf buflen flags)
    unfolding send
    send_returns buf buflen flags = on_socket _ λ s m.
        (Returns-refuse_if s.server _ _ (
            Returns-refuse_if (not s.client) _ _ (
              Returns-refuse_if (is_negative buflen) _ _ (
                send_by_returns s (cut 2048 buflen) _ m
                  (filled_returns 50 flags (take (cut 2048 buflen) buf)))))).at
          t

    sendto_returns :
        (buf : List ℕ) (buflen : ℤ) (flags : ℕ) (to : Option (List ℕ))
        → ReturnsFrom t (sendto r fd buf buflen flags to)
    unfolding sendto
    sendto_returns buf buflen flags none = on_socket _ λ s m. refuse_if-returns s.server _ _ t (
        refuse_if-returns (not s.client) _ _ t
          (refuse_if-returns (is_negative buflen) _ _ t (send_returns buf buflen flags)))
    sendto_returns buf buflen flags (some addr) = on_socket _ λ s m.
        (Returns-refuse_if s.server _ _ (
            Returns-refuse_if (not s.client) _ _ (
              Returns-refuse_if (is_negative buflen) _ _ (
                send_by_returns s (cut 2032 buflen) _ m
                  (sendto_request_returns flags (take 16 addr) (take (cut 2032 buflen) buf)))))).at
          t

    recv_returns : (buflen : ℤ) (flags : ℕ) → ReturnsFrom t (recv r fd buflen flags)
    unfolding recv
    recv_returns buflen flags = on_socket _ λ s m.
        (Returns-refuse_if s.server _ _ (
            Returns-refuse_if (not s.client) _ _ (
              Returns-refuse_if (is_other s.recv_handle s.pend_recv) _ _ (
                Returns-refuse_if (is_negative buflen) _ _
                  (recv_from_handle_returns s s.recv_handle buflen flags m))))).at
          t

    recvfrom_returns :
        (buflen : ℤ) (flags : ℕ) (room : Option ℕ) → ReturnsFrom t (recvfrom r fd buflen flags room)
    unfolding recvfrom
    recvfrom_returns buflen flags room = on_socket _ λ s m.
        (Returns-refuse_if s.server _ _ (
            Returns-refuse_if (not s.client) _ _ (
              Returns-refuse_if (is_other s.recv_handle s.pend_recv) _ _ (
                Returns-refuse_if (is_negative buflen) _ _ (
                  Returns-if (not (is_noted s.recv_handle) && ltb (cut 2032 buflen) 1) _ _
                    (Returns-pure ([], none))
                    (Returns-bind
                      (exchange_returns r law fd s m s.recv_handle _ note_recv clear_recv
                        (filled_returns 49 flags (length_bytes (cut 2032 buflen))))
                      (λ reply.
                        received_from_returns (cut 2032 buflen) room reply.0 reply.1))))))).at
          t

-- A call of one of the five that transfer data or connect.
abbrev pub transfers : Call → Bool
transfers (Call.connect fd addr addrlen) = true
transfers (Call.send fd buf buflen flags) = true
transfers (Call.sendto fd buf buflen flags to) = true
transfers (Call.recv fd buflen flags) = true
transfers (Call.recvfrom fd buflen flags room) = true
transfers _ = false

-- The socket of a call is in non-blocking mode.
abbrev pub IsNonblocking : Option ℕ → List Sock → Type 0
IsNonblocking none ss = ⊥
IsNonblocking (some fd) ss = (get_or ss fd no_sock).nonblock ≡ true

no_transfer : ◌≡◌ {A = Bool} false true → ⊥
no_transfer e = cc

module _ {S : Type 0} (r : Requests S) (law : AvailableReturns r) (t : Tcp S) where
  ignored_returns : {A : Type 0} (m : Run S A) → ReturnsFrom t m → ReturnsFrom t (m >> pure tt)
  ignored_returns m k = bind_returns m _ t k (λ u a e. (Returns-pure tt).at u)

  -- Over a client whose wait for a response that is there returns, connect, send, sendto, recv and
  -- recvfrom on a socket in non-blocking mode return.
  pub perform_nonblocking :
      (c : Call)
      → transfers c ≡ true
      → IsNonblocking (descriptor c) t.sockets
      → ReturnsFrom t (perform r c)
  unfolding perform
  perform_nonblocking (Call.connect fd addr addrlen) e mode =
      connect_returns r law fd t mode addr addrlen
  perform_nonblocking (Call.send fd buf buflen flags) e mode =
      ignored_returns _ (send_returns r law fd t mode buf buflen flags)
  perform_nonblocking (Call.sendto fd buf buflen flags to) e mode =
      ignored_returns _ (sendto_returns r law fd t mode buf buflen flags to)
  perform_nonblocking (Call.recv fd buflen flags) e mode =
      ignored_returns _ (recv_returns r law fd t mode buflen flags)
  perform_nonblocking (Call.recvfrom fd buflen flags room) e mode =
      ignored_returns _ (recvfrom_returns r law fd t mode buflen flags room)
  perform_nonblocking (Call.socket family kind protocol) e mode = absurd mode
  perform_nonblocking (Call.closesocket fd) e mode = absurd (no_transfer e)
  perform_nonblocking (Call.shutdown fd how) e mode = absurd (no_transfer e)
  perform_nonblocking (Call.bind fd myaddr) e mode = absurd (no_transfer e)
  perform_nonblocking (Call.listen fd backlog) e mode = absurd (no_transfer e)
  perform_nonblocking (Call.getsockname fd room) e mode = absurd (no_transfer e)
  perform_nonblocking (Call.getpeername fd room) e mode = absurd (no_transfer e)
  perform_nonblocking (Call.ioctlsocket fd flag value) e mode = absurd (no_transfer e)
  perform_nonblocking (Call.accept fd room) e mode = absurd (no_transfer e)
  perform_nonblocking (Call.select n rd wr timeout) e mode = absurd mode
