-- ===== src/Sockets/Setup.antt =====
-- cms/ncfsockt.c: the calls that make, close and set up a socket and ask for its addresses.
use nicof.Prelude.{
  ℕ, ◌+◌, ◌*◌, ◌^◌, ◌%◌, Bool, true, false, not, ◌&&◌, Option, none, some, List, [], ◌∷◌, take, ltb,
  leb, ◌==◌, if◌then◌else◌,
}
use nicof.Prelude.Int.{ℤ}
use nicof.Sockets.{fd_setsize, eok, einval}
use nicof.Sockets.Requests.{
  Requests, Sock, without_flags, no_sock, Run, eprotonosupport, emfile, enotconn, eopnotsupp,
  eisconn, einprogress, low_half, high_half, pure, give_up, refuse, refuse_if, if_eok, called,
  ◌>>=◌, ◌>>◌, get_sock, update, new_sock_request, attempt, free_request, send_and_wait,
  closeproxysocket, unless_refused,
}

-- The protocol that socket asks for, where it knows one.
abbrev pub chosen_protocol : (family kind protocol : ℕ) → Option ℕ
chosen_protocol family kind protocol =
    if protocol == 0
    then (if family == 2 && kind == 1
        then some 6
        else if family == 2 && kind == 2
        then some 17
        else none)
    else some protocol

-- The second word of the request.
abbrev pub alloc_word : (family kind protocol : ℕ) → ℕ
alloc_word family kind protocol =
    family % 256 * 2 ^ 24 + kind % 256 * 2 ^ 16 + protocol % 256 * 2 ^ 8

-- The entry of a new socket.
abbrev pub new_sock : ℕ → Sock
new_sock kind =
    if kind == 2
    then record no_sock { active = true; dgram = true; client = true }
    else record no_sock { active = true }

abbrev pub backlog_byte : ℤ → ℕ
backlog_byte (ℤ.pos n) = if ltb 255 n then 255 else n
backlog_byte (ℤ.negsuc n) = 0

-- `addr && (!addrlen || *addrlen < 8)`: the room for an address that is wanted is too small.
abbrev pub is_too_small : Option ℕ → Bool
is_too_small none = false
is_too_small (some n) = ltb n 8

module _ {S : Type 0} where
  -- `if (errno != 0) { return -1; }` for what failed before.
  unfoldable pub finished : Option (Unit {0}) → Run S (Unit {0})
  finished none = give_up
  finished (some _) = pure tt

  -- `SOCK_SET(F_INIT); m; SOCK_UNSET(F_INIT);`
  unfoldable pub during_init : ℕ → Run S (Unit {0}) → Run S (Unit {0})
  during_init fd m = do
    update fd (λ s. record s { init = true })
    done ← called m
    update fd (λ s. record s { init = false })
    finished done

  -- ioctlsocket; `value` is the word behind the pointer.
  unfoldable pub ioctlsocket : (fd flag value : ℕ) → Run S (Unit {0})
  ioctlsocket fd flag value = do
    get_sock fd
    refuse_if (not (flag == 0x70)) einval
        (update fd (λ s. record s { nonblock = not (value == 0) }))

module _ {S : Type 0} (r : Requests S) where
  -- The end of socket and of accept, with the number that the proxy gives: `note` makes the entry.
  unfoldable pub take_number : ℕ → (Sock → Sock) → Run S ℕ
  take_number n note =
      if leb fd_setsize n
      then (do called (closeproxysocket r n); refuse emfile)
      else (do update n note; pure n)

  unfoldable pub alloc_socket : (family kind protocol : ℕ) → Run S ℕ
  alloc_socket family kind protocol = do
    h ← new_sock_request r 32 0 (alloc_word family kind protocol)
    send_and_wait r h
    words ← attempt r h (r.words h)
    free_request r h
    if_eok (high_half words.0) (take_number (low_half words.0) (λ _. new_sock kind))

  -- socket behind its choice of a protocol.
  unfoldable pub socket_for : (family kind : ℕ) → Option ℕ → Run S ℕ
  socket_for family kind none = refuse eprotonosupport
  socket_for family kind (some protocol) = alloc_socket family kind protocol

  -- socket; the arguments as words.
  unfoldable pub socket : (family kind protocol : ℕ) → Run S ℕ
  socket family kind protocol = socket_for family kind (chosen_protocol family kind protocol)

  unfoldable pub closesocket : ℕ → Run S (Unit {0})
  closesocket fd = do get_sock fd; update fd without_flags; closeproxysocket r fd

  -- The common course of shutdown, bind and listen behind their guards; `send` sends and waits.
  unfoldable pub manage : (cmd fd : ℕ) → List ℕ → (ℕ → Run S (Unit {0})) → Run S (Unit {0})
  manage cmd fd bytes send = do
    h ← new_sock_request r cmd fd 0
    attempt r h (r.fill h bytes)
    send h
    words ← attempt r h (r.words h)
    free_request r h
    if_eok (high_half words.0) (pure tt)

  -- shutdown; a negative `how` is a large one here.
  unfoldable pub shutdown : (fd how : ℕ) → Run S (Unit {0})
  shutdown fd how = do
    s ← get_sock fd
    refuse_if s.server eopnotsupp (
        refuse_if (not s.client) enotconn
          (refuse_if (ltb 2 how) einval (manage 40 fd (how ∷ []) (send_and_wait r))))

  -- bind, with the memory behind `myaddr`.
  unfoldable pub bind : ℕ → List ℕ → Run S (Unit {0})
  bind fd myaddr = do
    s ← get_sock fd
    refuse_if s.server eisconn (
        refuse_if (not s.dgram && s.client) eisconn (
          refuse_if s.init einprogress
            (manage 34 fd (take 8 myaddr) (λ h. during_init fd (send_and_wait r h)))))

  unfoldable pub listen : ℕ → ℤ → Run S (Unit {0})
  listen fd backlog = do
    s ← get_sock fd
    if s.server
        then if_eok eok (pure tt)
        else refuse_if s.client eopnotsupp (
            refuse_if s.init einprogress (do
              manage 36 fd (backlog_byte backlog ∷ []) (λ h. during_init fd (send_and_wait r h))
              update fd (λ e. record e { server = true })))

  -- getSockInfo, for a caller that wants the address; `room` is `*addrlen`.
  unfoldable pub get_sock_info : (cmd fd room : ℕ) → Run S (List ℕ)
  get_sock_info cmd fd room = do
    get_sock fd
    refuse_if (is_too_small (some room)) einval (do
      h ← new_sock_request r cmd fd 0
      send_and_wait r h
      words ← attempt r h (r.words h)
      unless_refused r h words.0
      addr ← attempt r h (r.bytes h room 0)
      free_request r h
      pure addr)

  abbrev pub getsockname : (fd room : ℕ) → Run S (List ℕ)
  getsockname = get_sock_info 38

  abbrev pub getpeername : (fd room : ℕ) → Run S (List ℕ)
  getpeername = get_sock_info 39
