-- ===== src/Sockets/Transfer.antt =====
-- cms/ncfsockt.c: connect, accept, and the calls that send and receive.
use nicof.Prelude.{
  ℕ, ◌+◌, ◌-◌, ◌/◌, ◌%◌, Bool, true, false, not, ◌&&◌, ◌||◌, Option, none, some, List, [], ◌∷◌,
  length, take, get_or, ltb, leb, ◌==◌, if◌then◌else◌,
}
use nicof.Prelude.Int.{ℤ, is_zero}
use nicof.Sockets.{einval}
use nicof.Sockets.Requests.{
  Requests, Sock, Run, eafnosupport, enotconn, eopnotsupp, econnreset, eisconn, einprogress, ebadf,
  low_half, is_other, pure, give_up, refuse, without_flags, refuse_if, if_eok, called, ◌>>=◌, ◌>>◌,
  get_sock, update, new_sock_request, attempt, free_request, ask_proxy, unless_refused,
}
use nicof.Sockets.Setup.{is_too_small, take_number}

abbrev pub is_negative : ℤ → Bool
is_negative (ℤ.pos n) = false
is_negative (ℤ.negsuc n) = true

-- A length that is not negative, cut off at a limit.
abbrev pub cut : ℕ → ℤ → ℕ
cut limit (ℤ.pos n) = if ltb limit n then limit else n
cut limit (ℤ.negsuc n) = 0

abbrev pub nonneg : ℤ → ℕ
nonneg (ℤ.pos n) = n
nonneg (ℤ.negsuc n) = 0

-- `blen`
abbrev pub length_bytes : ℕ → List ℕ
length_bytes n = (n / 256) % 256 ∷ n % 256 ∷ []

abbrev pub is_noted : Option ℕ → Bool
is_noted none = false
is_noted (some h) = true

-- What recv does with the number of bytes that are left over.
abbrev pub with_rest : (handle received transmitted : ℕ) → Sock → Sock
with_rest h received transmitted s = record s {
  recv_handle = some h;
  recv_remaining = transmitted - received;
  recv_from = received;
}

abbrev pub note_conn : ℕ → Sock → Sock
note_conn h s = record s { recv_handle = some h; pend_conn = true; init = true }

abbrev pub note_recv : ℕ → Sock → Sock
note_recv h s = record s { recv_handle = some h; pend_recv = true }

abbrev pub note_acpt : ℕ → Sock → Sock
note_acpt h s = record s { recv_handle = some h; pend_acpt = true }

abbrev pub note_send : ℕ → Sock → Sock
note_send h s = record s { send_handle = some h }

abbrev pub clear_conn : Sock → Sock
clear_conn s = record s { recv_handle = none; pend_conn = false; init = false }

abbrev pub clear_recv : Sock → Sock
clear_recv s = record s { recv_handle = none; pend_recv = false }

abbrev pub clear_acpt : Sock → Sock
clear_acpt s = record s { recv_handle = none; pend_acpt = false }

abbrev pub clear_send : Sock → Sock
clear_send s = record s { send_handle = none }

-- The part of a response that recv leaves for the next call: `recvRemaining` and `recvFrom`.
abbrev pub next_chunk : ℕ → Sock → Sock
next_chunk buflen s =
    if ltb buflen s.recv_remaining
    then record s { recv_remaining = s.recv_remaining - buflen; recv_from = s.recv_from + buflen }
    else record s { recv_remaining = 0; recv_from = 0; recv_handle = none }

-- What recv leaves where the rest of a response cannot be fetched.
abbrev pub dropped : Sock → Sock
dropped s = record s { recv_handle = none; recv_remaining = 0; recv_from = 0 }

-- accept sets the flags of the new entry, and nothing else.
abbrev pub accepted : Sock → Sock
accepted s = record (without_flags s) { active = true; client = true }

module _ {S : Type 0} (r : Requests S) where
  -- A request with data, not sent yet.
  unfoldable pub filled_request : (cmd fd w2 : ℕ) → List ℕ → Run S ℕ
  filled_request cmd fd w2 bytes = do
    h ← new_sock_request r cmd fd w2
    attempt r h (r.fill h bytes)
    pure h

  -- The address has its family in its first two bytes.
  unfoldable pub connect_request : ℕ → List ℕ → ℤ → Run S ℕ
  connect_request fd addr addrlen =
      refuse_if
        (is_negative addrlen
          || ltb (cut 8 addrlen) 8
          || not (get_or addr 0 0 == 0 && get_or addr 1 0 == 2))
        eafnosupport (filled_request 35 fd 0 (take 8 addr))

  -- connect, with the memory behind `addr`.
  unfoldable pub connect : ℕ → List ℕ → ℤ → Run S (Unit {0})
  connect fd addr addrlen = do
    s ← get_sock fd
    refuse_if s.server eisconn (
        refuse_if s.client eisconn (
          refuse_if (is_other s.recv_handle s.pend_conn) ebadf (do
            reply ←
                ask_proxy r fd s s.recv_handle (connect_request fd addr addrlen) note_conn
                  clear_conn
            free_request r reply.0
            if_eok reply.1 (update fd (λ e. record e { client = true })))))

  -- The end of send and sendto.
  unfoldable pub sent_count : ℕ × ℕ → Run S ℕ
  sent_count (h, word) = do unless_refused r h word; free_request r h; pure (low_half word)

  -- send and sendto behind their guards, with `buflen` cut off already.
  unfoldable pub send_by : ℕ → Sock → ℕ → Run S ℕ → Run S ℕ
  send_by fd s buflen make =
      if not (is_noted s.send_handle) && ltb buflen 1
      then pure 0
      else (do reply ← ask_proxy r fd s s.send_handle make note_send clear_send; sent_count reply)

  -- send: the number of bytes sent. `buf` is the memory behind the pointer.
  unfoldable pub send : ℕ → List ℕ → ℤ → ℕ → Run S ℕ
  send fd buf buflen flags = do
    s ← get_sock fd
    refuse_if s.server enotconn (
        refuse_if (not s.client) enotconn (
          refuse_if (is_negative buflen) einval (
            send_by fd s (cut 2048 buflen)
              (filled_request 50 fd flags (take (cut 2048 buflen) buf)))))

  unfoldable pub sendto_request : (fd flags : ℕ) → (to buf : List ℕ) → Run S ℕ
  sendto_request fd flags to buf = do
    h ← new_sock_request r 51 fd flags
    attempt r h (r.fill_both h to buf)
    pure h

  -- sendto; there is no `to` where the pointer is NULL or `tolen` is not positive.
  unfoldable pub sendto : ℕ → List ℕ → ℤ → ℕ → Option (List ℕ) → Run S ℕ
  sendto fd buf buflen flags to = do
    s ← get_sock fd
    refuse_if s.server eopnotsupp (
        refuse_if (not s.client) eopnotsupp (
          refuse_if (is_negative buflen) einval (elim to [
            | none ↦ send fd buf buflen flags
            | some addr ↦
                send_by fd s (cut 2032 buflen)
                  (sendto_request fd flags (take 16 addr) (take (cut 2032 buflen) buf))
          ])))

  -- The branch of recv for what is left of a response.
  unfoldable pub recv_chunk : (fd : ℕ) → Sock → (handle buflen : ℕ) → Run S (List ℕ)
  recv_chunk fd s h buflen = do
    got ← called (attempt r h (r.bytes h buflen s.recv_from))
    elim got [
      | none ↦ (do update fd dropped; give_up)
      | some bytes ↦ (do
        update fd (next_chunk buflen)
        if ltb buflen s.recv_remaining then pure bytes else (do free_request r h; pure bytes))
    ]

  -- The end of recv: a response longer than the buffer stays noted.
  unfoldable pub received : (fd buflen : ℕ) → ℕ × ℕ → Run S (List ℕ)
  received fd buflen (h, word) = do
    unless_refused r h word
    transmitted ← attempt r h (r.data_length h)
    bytes ← attempt r h (r.bytes h buflen 0)
    (if ltb (length bytes) transmitted
        then (do update fd (with_rest h (length bytes) transmitted); pure bytes)
        else (do free_request r h; pure bytes))

  unfoldable pub recv_new : ℕ → Sock → (buflen flags : ℕ) → Run S (List ℕ)
  recv_new fd s buflen flags = if not (is_noted s.recv_handle) && ltb buflen 1 then pure [] else (do
    reply ←
        ask_proxy r fd s s.recv_handle (filled_request 48 fd flags (length_bytes buflen)) note_recv
          clear_recv
    received fd buflen reply)

  -- The choice in recv between its two branches, by the noted request.
  unfoldable pub recv_from_handle : ℕ → Sock → Option ℕ → ℤ → ℕ → Run S (List ℕ)
  recv_from_handle fd s none buflen flags = recv_new fd s (cut 2048 buflen) flags
  recv_from_handle fd s (some h) buflen flags =
      if ltb 0 s.recv_remaining
      then recv_chunk fd s h (nonneg buflen)
      else recv_new fd s (cut 2048 buflen) flags

  -- recv: the bytes that are written to the buffer.
  unfoldable pub recv : ℕ → ℤ → ℕ → Run S (List ℕ)
  recv fd buflen flags = do
    s ← get_sock fd
    refuse_if s.server enotconn (
        refuse_if (not s.client) enotconn (
          refuse_if (is_other s.recv_handle s.pend_recv) einprogress (
            refuse_if (is_negative buflen) einval
              (recv_from_handle fd s s.recv_handle buflen flags))))

  -- The address that recvfrom writes; `room` is `*fromlen`.
  unfoldable pub from_address : ℕ → Option ℕ → Run S (Option (List ℕ))
  from_address h none = pure none
  from_address h (some room) = do
    addr ← attempt r h (r.bytes h (if leb 16 room then 16 else room) 0)
    pure (some addr)

  -- The end of recvfrom.
  unfoldable pub received_from : (buflen : ℕ) → Option ℕ → ℕ × ℕ → Run S (List ℕ × Option (List ℕ))
  received_from buflen room (h, word) = do
    unless_refused r h word
    transmitted ← attempt r h (r.data_length h)
    if ltb transmitted 16 then (do free_request r h; refuse econnreset) else (do
      from ← from_address h room
      bytes ← attempt r h (r.bytes h buflen 16)
      free_request r h
      pure (bytes, from))

  -- recvfrom; there is no room where `from` or `fromlen` is NULL or `*fromlen` is not positive.
  unfoldable pub recvfrom : ℕ → ℤ → ℕ → Option ℕ → Run S (List ℕ × Option (List ℕ))
  recvfrom fd buflen flags room = do
    s ← get_sock fd
    refuse_if s.server enotconn (
        refuse_if (not s.client) enotconn (
          refuse_if (is_other s.recv_handle s.pend_recv) einprogress (
            refuse_if (is_negative buflen) einval (
              if not (is_noted s.recv_handle) && ltb (cut 2032 buflen) 1
              then pure ([], none)
              else (do
                reply ←
                    ask_proxy r fd s s.recv_handle
                      (filled_request 49 fd flags (length_bytes (cut 2032 buflen))) note_recv
                      clear_recv
                received_from (cut 2032 buflen) room reply)))))

  -- The address that accept writes; where the client refuses it, `*addrlen` becomes 0.
  unfoldable pub peer_address : ℕ → Option ℕ → Run S (List ℕ)
  peer_address h none t = some (t, some [])
  peer_address h (some room) t =
      let (w, code, addr) = r.bytes h room 0 t.world in
      some (record t { world = w }, some (if is_zero code then addr else []))

  -- accept; `room` is `*addrlen` where an address is wanted.
  unfoldable pub accept : ℕ → Option ℕ → Run S (ℕ × List ℕ)
  accept fd room = do
    s ← get_sock fd
    refuse_if s.client eopnotsupp (
        refuse_if (not s.server) einval (
          refuse_if (is_other s.recv_handle s.pend_acpt) einprogress (
            refuse_if (is_too_small room) einval (do
              reply ←
                  ask_proxy r fd s s.recv_handle (new_sock_request r 37 fd 0) note_acpt clear_acpt
              unless_refused r reply.0 reply.1
              addr ← peer_address reply.0 room
              free_request r reply.0
              n ← take_number r (low_half reply.1) accepted
              pure (n, addr)))))
