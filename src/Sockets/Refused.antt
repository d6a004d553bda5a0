-- ===== src/Sockets/Refused.antt =====
-- cms/ncfsockt.c: calls that are refused.
use nicof.Prelude.{
  ℕ, ◌<◌, ◌≡◌, ◌∙◌, refl, Bool, true, false, not, ◌&&◌, Option, none, some, List, arith, get_or,
  ltb,
}
use nicof.Prelude.Int.{ℤ}
use nicof.Sockets.{fd_setsize}
use nicof.Sockets.Requests.{
  Requests, Sock, no_sock, Tcp, Run, enotsock, einprogress, refuse, refuse_if, get_sock, is_other,
  ◌>>=◌,
}
use nicof.Sockets.Setup
use nicof.Sockets.Setup.{get_sock_info}
use nicof.Sockets.Transfer
use nicof.Sockets.Transfer.{is_noted}
use nicof.Sockets.Calls.{Call, perform}
use nicof.Sockets.Ledger.{IsSound}

-- The socket that a call is about, where it is about one.
abbrev pub descriptor : Call → Option ℕ
descriptor (Call.socket family kind protocol) = none
descriptor (Call.closesocket fd) = some fd
descriptor (Call.shutdown fd how) = some fd
descriptor (Call.bind fd myaddr) = some fd
descriptor (Call.listen fd backlog) = some fd
descriptor (Call.getsockname fd room) = some fd
descriptor (Call.getpeername fd room) = some fd
descriptor (Call.ioctlsocket fd flag value) = some fd
descriptor (Call.connect fd addr addrlen) = some fd
descriptor (Call.send fd buf buflen flags) = some fd
descriptor (Call.sendto fd buf buflen flags to) = some fd
descriptor (Call.recv fd buflen flags) = some fd
descriptor (Call.recvfrom fd buflen flags room) = some fd
descriptor (Call.accept fd room) = some fd
descriptor (Call.select n rd wr timeout) = none

-- A call that returns -1 with an error code, and changes nothing else.
abbrev pub Refuses : {S A : Type 0} → ℕ → Run S A → Tcp S → Type 0
Refuses code m t = m t ≡ some (record t { errno = ℤ.pos code }, none)

module _ {S A : Type 0} where
  Refuses-bind :
      {B : Type 0} (code : ℕ) (m : Run S A) (f : A → Run S B) (t : Tcp S)
      → Refuses code m t
      → Refuses code (m >>= f) t
  unfolding ◌>>=◌
  Refuses-bind code m f t e = rw (e, ◌>>=◌) refl

  pub found :
      (fd : ℕ) (f : Sock → Run S A) (t : Tcp S)
      → (ltb fd fd_setsize && (get_or t.sockets fd no_sock).active) ≡ true
      → (get_sock fd >>= f) t ≡ f (get_or t.sockets fd no_sock) t
  unfolding ◌>>=◌ get_sock
  found fd f t e = rw (e, ◌>>=◌) refl

-- A call names a number that is not that of a socket: one that is too large, or not in use.
abbrev pub Lacks : Option ℕ → List Sock → Type 0
Lacks none ss = ⊥
Lacks (some fd) ss = (ltb fd fd_setsize && (get_or ss fd no_sock).active) ≡ false

module _ {S : Type 0} (r : Requests S) (t : Tcp S) where
  not_found : (fd : ℕ) → Lacks (some fd) t.sockets → Refuses enotsock (get_sock {S = S} fd) t
  unfolding get_sock
  not_found fd e = rw e refl

  after_get :
      {A : Type 0} (fd : ℕ) (f : Sock → Run S A)
      → Lacks (some fd) t.sockets
      → Refuses enotsock (get_sock fd >>= f) t
  after_get fd f e = Refuses-bind enotsock (get_sock fd) f t (not_found fd e)

  -- Each call on a number that is not that of a socket in use fails with ENOTSOCK and changes
  -- nothing else.
  pub perform_not_socket :
      (c : Call) → Lacks (descriptor c) t.sockets → Refuses enotsock (perform r c) t
  unfolding perform get_sock_info Setup.closesocket Setup.shutdown Setup.bind Setup.listen
      Setup.ioctlsocket Transfer.connect Transfer.send Transfer.sendto Transfer.recv
      Transfer.recvfrom Transfer.accept
  perform_not_socket (Call.socket family kind protocol) e = absurd e
  perform_not_socket (Call.select n rd wr timeout) e = absurd e
  perform_not_socket (Call.closesocket fd) e = after_get fd _ e
  perform_not_socket (Call.shutdown fd how) e = after_get fd _ e
  perform_not_socket (Call.bind fd myaddr) e = after_get fd _ e
  perform_not_socket (Call.listen fd backlog) e = after_get fd _ e
  perform_not_socket (Call.ioctlsocket fd flag value) e = after_get fd _ e
  perform_not_socket (Call.connect fd addr addrlen) e = after_get fd _ e
  perform_not_socket (Call.getsockname fd room) e = Refuses-bind enotsock _ _ t (after_get fd _ e)
  perform_not_socket (Call.getpeername fd room) e = Refuses-bind enotsock _ _ t (after_get fd _ e)
  perform_not_socket (Call.send fd buf buflen flags) e =
      Refuses-bind enotsock _ _ t (after_get fd _ e)
  perform_not_socket (Call.sendto fd buf buflen flags to) e =
      Refuses-bind enotsock _ _ t (after_get fd _ e)
  perform_not_socket (Call.recv fd buflen flags) e = Refuses-bind enotsock _ _ t (after_get fd _ e)
  perform_not_socket (Call.recvfrom fd buflen flags room) e =
      Refuses-bind enotsock _ _ t (after_get fd _ e)
  perform_not_socket (Call.accept fd room) e = Refuses-bind enotsock _ _ t (after_get fd _ e)

  refused_next :
      {A : Type 0} (s : Sock) (b : Bool) (code : ℕ) (m : Run S A)
      → b ≡ true
      → Refuses code (refuse_if b code m) t
  unfolding refuse_if refuse
  refused_next s b code m e = rw e refl

  pub passed :
      {A : Type 0} (b : Bool) (code : ℕ) (m : Run S A) → b ≡ false → refuse_if b code m t ≡ m t
  unfolding refuse_if
  passed b code m e = rw e refl

  other_left :
      (s : Sock) → IsSound s → 0 < s.recv_remaining → is_other s.recv_handle s.pend_recv ≡ true
  other_left s k l = ground arith

  no_server : (s : Sock) → IsSound s → s.client ≡ true → s.server ≡ false
  no_server s k l = ground arith

  -- The guards of recv and recvfrom.
  guarded_left :
      {A : Type 0} (fd : ℕ) (m : Sock → Run S A)
      → fd < fd_setsize
      → (get_or t.sockets fd no_sock).active ≡ true
      → (get_or t.sockets fd no_sock).client ≡ true
      → IsSound (get_or t.sockets fd no_sock)
      → 0 < (get_or t.sockets fd no_sock).recv_remaining
      → Refuses einprogress
          (do
            s ← get_sock fd
            refuse_if s.server 0x10a0000 (
                refuse_if
                  (not s.client)
                  0x10a0000
                  (refuse_if (is_other s.recv_handle s.pend_recv) einprogress (m s))))
          t
  guarded_left fd m inside active client sound left =
      let s = get_or t.sockets fd no_sock in
      found fd _ t (ground arith)
      ∙ (passed s.server _ _ (no_server s sound client)
          ∙ (passed (not s.client) _ _ (ground arith)
              ∙ refused_next s (is_other s.recv_handle s.pend_recv) einprogress _
                  (other_left s sound left)))

  -- On a connected socket whose table entry is in order, while part of a response is left over,
  -- recv and recvfrom fail with EINPROGRESS and change nothing else: the part is never delivered.
  pub recv_after_part :
      (fd : ℕ) (buflen : ℤ) (flags : ℕ) (room : Option ℕ)
      → fd < fd_setsize
      → (get_or t.sockets fd no_sock).active ≡ true
      → (get_or t.sockets fd no_sock).client ≡ true
      → IsSound (get_or t.sockets fd no_sock)
      → 0 < (get_or t.sockets fd no_sock).recv_remaining
      → Refuses einprogress (Transfer.recv r fd buflen flags) t
        × Refuses einprogress (Transfer.recvfrom r fd buflen flags room) t
  unfolding Transfer.recv Transfer.recvfrom
  recv_after_part fd buflen flags room inside active client sound left = (
    guarded_left fd _ inside active client sound left,
    guarded_left fd _ inside active client sound left,
  )
