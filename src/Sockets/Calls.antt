-- ===== src/Sockets/Calls.antt =====
-- cms/ncfsockt.c: a program's calls on sockets, one after the other.
use nicof.Prelude.{ℕ, Option, none, some, List, [], ◌∷◌}
use nicof.Prelude.Int.{ℤ}
use nicof.Sockets.Requests.{Requests, Tcp, Run, pure, ◌>>◌}
use nicof.Sockets.Setup
use nicof.Sockets.Transfer
use nicof.Sockets.Select.{select_x}

pub data Call : Type 0 where
  socket : (family kind protocol : ℕ) → Call
  closesocket : (fd : ℕ) → Call
  shutdown : (fd how : ℕ) → Call
  bind : ℕ → List ℕ → Call
  listen : ℕ → ℤ → Call
  getsockname : (fd room : ℕ) → Call
  getpeername : (fd room : ℕ) → Call
  ioctlsocket : (fd flag value : ℕ) → Call
  connect : ℕ → List ℕ → ℤ → Call
  send : ℕ → List ℕ → ℤ → ℕ → Call
  sendto : ℕ → List ℕ → ℤ → ℕ → Option (List ℕ) → Call
  recv : ℕ → ℤ → ℕ → Call
  recvfrom : ℕ → ℤ → ℕ → Option ℕ → Call
  accept : ℕ → Option ℕ → Call
  select : ℕ → (rd wr : Option (List ℕ)) → Option (ℕ × ℕ) → Call

abbrev pub ignored : {S A : Type 0} → Run S A → Run S (Unit {0})
ignored m = m >> pure tt

module _ {S : Type 0} (r : Requests S) where
  -- A call, of which only the effect is looked at.
  unfoldable pub perform : Call → Run S (Unit {0})
  perform (socket family kind protocol) = ignored (Setup.socket r family kind protocol)
  perform (closesocket fd) = Setup.closesocket r fd
  perform (shutdown fd how) = Setup.shutdown r fd how
  perform (bind fd myaddr) = Setup.bind r fd myaddr
  perform (listen fd backlog) = Setup.listen r fd backlog
  perform (getsockname fd room) = ignored (Setup.getsockname r fd room)
  perform (getpeername fd room) = ignored (Setup.getpeername r fd room)
  perform (ioctlsocket fd flag value) = Setup.ioctlsocket fd flag value
  perform (connect fd addr addrlen) = Transfer.connect r fd addr addrlen
  perform (send fd buf buflen flags) = ignored (Transfer.send r fd buf buflen flags)
  perform (sendto fd buf buflen flags to) = ignored (Transfer.sendto r fd buf buflen flags to)
  perform (recv fd buflen flags) = ignored (Transfer.recv r fd buflen flags)
  perform (recvfrom fd buflen flags room) = ignored (Transfer.recvfrom r fd buflen flags room)
  perform (accept fd room) = ignored (Transfer.accept r fd room)
  perform (select n rd wr timeout) = ignored (select_x r n rd wr timeout)

  -- The state after some calls, each of which may fail; `none` is a call that waits for ever.
  unfoldable pub perform_all : List Call → Tcp S → Option (Tcp S)
  perform_all [] t = some t
  perform_all (c ∷ calls) t = elim (perform c t) [ none ↦ none | some (u, _) ↦ perform_all calls u ]
