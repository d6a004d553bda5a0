-- ===== src/Sockets/Tests.antt =====
-- cms/socket.h and cms/ncfsockt.c: sets and addresses at concrete inputs.
use nicof.Prelude.{
  ℕ, ◌≡◌, ◌+◌, ◌*◌, ◌^◌, refl, false, true, ◌≢◌, replicate, none, some, List, [], ◌∷◌, arith,
}
use nicof.Prelude.Int.{ℤ}
use nicof.Client.{Request, Client, mid_free}
use nicof.Client.Wait.{Arrival}
use nicof.Client.Validity.{IsValid}
use nicof.Client.Delivery.{IsAnswer}
use nicof.Client.Delivery.Exchange.{IsPositive}
use nicof.Client.Delivery.Taking.{IsIn}
use nicof.Sockets.Requests.{Sock, no_sock, Tcp, init_sockets, enotsock, einprogress}
use nicof.Sockets.Transfer.{recv, recvfrom}
use nicof.Sockets.Over.{World, client_requests, client_requests-AvailableReturns}
use nicof.Sockets.Blocking.{handle_of}
use nicof.Sockets.Blocking.Receiving.{recv-returns}
use nicof.Sockets.Calls.{Call, perform, perform_all}
use nicof.Sockets.Refused.{perform_not_socket, recv_after_part}
use nicof.Sockets.Nonblocking.Modes.{perform_nonblocking}
use nicof.Sockets.Ledger.{Logged, logged}
use nicof.Sockets.Ledger.History.{
  InOrder, history-InOrder, Accounted, perform-Accounted, one_socket-Owing,
}
use nicof.Sockets.{inet_addr, eok}
use nicof.Sockets.Addresses.{dotted, inet_addr-dotted}

abbrev some_sockets : List ℕ
some_sockets = 0x80 ∷ 0 ∷ 3 ∷ 0 ∷ 0 ∷ 0 ∷ 0 ∷ 255 ∷ []

inet_addr-dotted_example :
    inet_addr (some (dotted 127 0 0 1)) ≡ (127 * 2 ^ 24 + 0 * 2 ^ 16 + 0 * 2 ^ 8 + 1, eok)
inet_addr-dotted_example =
    inet_addr-dotted 127 0 0 1 (omega arith) (omega arith) (omega arith) (omega arith)

abbrev block : Request
block = record {
  me = 100;
  msg_id = 0;
  recv_rc = ℤ.pos 0;
  filter_tag = 0;
  user_word1 = 0;
  user_word2 = 0;
  data_len = 0;
  buf = replicate 2048 0;
}

abbrev empty : Client
empty = record {
  initialized = true;
  requests = [];
  last_msg_id = 10;
  response_filter = 0;
  posted = false;
}

empty-IsValid : IsValid empty
empty-IsValid = record { slots = tt; apart = tt; counter = omega arith }

-- The response of the proxy to a recv, with two bytes.
abbrev response : Arrival
response = record {
  header = record {
    intr_code = 0x4001;
    func = 3;
    mid = 11;
    rejected = false;
    answered = true;
    lenb = 2046;
    w1 = 0x1000002;
    w2 = 0;
  };
  stored = 7 ∷ 8 ∷ [];
}

response-IsAnswer : IsAnswer 11 response
response-IsAnswer = record { code = refl; func = refl; mid = refl }

response-IsPositive : IsPositive response
response-IsPositive = record { accepted = refl; final = refl; counted = refl }

abbrev connected : Sock
connected = record no_sock { active = true; client = true }

abbrev world : World
world = record { client = empty; arrivals = response ∷ []; timers = [] }

-- One connected socket, number 0.
abbrev with_sock : {S : Type 0} → Sock → S → Tcp S
with_sock s w = record {
  world = w;
  sockets = s ∷ replicate 63 no_sock;
  errno = ℤ.pos 0;
  curr_filter_tag = 0;
}

recv-returns_example :
    (u : Tcp World) × (recv
        (client_requests (λ c. block) 9)
        0
        (ℤ.pos 100)
        0
        (with_sock connected world)
      ≡ some (u, some (7 ∷ 8 ∷ [])))
    × (u.sockets ≡ connected ∷ replicate 63 no_sock)
    × IsIn mid_free (handle_of (λ c. block) 9 48 0 0 (with_sock connected world)) u.world.client
recv-returns_example =
    recv-returns (λ c. block) 9 0 100 0 (with_sock connected world) response []
      (record {
        active = refl;
        client = refl;
        server = refl;
        blocks = refl;
        waits = refl;
        idle = refl;
      })
      (omega arith)
      (record {
        valid = empty-IsValid;
        room = (refl, tt);
        open_filter = refl;
        clear = refl;
        counter = omega arith;
      })
      refl response-IsAnswer response-IsPositive refl (omega arith) (omega arith) (omega arith)

abbrev calls : List Call
calls = Call.socket 2 1 0 ∷ Call.recv 0 (ℤ.pos 100) 0 ∷ Call.closesocket 0 ∷ []

history-InOrder_example : InOrder (
    perform_all
      (logged (client_requests (λ c. block) 9))
      calls
      (init_sockets (record { base = world; created = []; freed = [] })))
history-InOrder_example = history-InOrder (client_requests (λ c. block) 9) world calls

abbrev logged_world : Logged World
logged_world = record { base = world; created = []; freed = [] }

perform-Accounted_example : Accounted (
    perform
      (logged (client_requests (λ c. block) 9))
      (Call.recv 0 (ℤ.pos 100) 0)
      (with_sock connected logged_world))
perform-Accounted_example =
    perform-Accounted (client_requests (λ c. block) 9) (Call.recv 0 (ℤ.pos 100) 0)
      (with_sock connected logged_world) refl (one_socket-Owing connected [] refl refl refl)

perform_not_socket_example :
    perform
      (client_requests (λ c. block) 9)
      (Call.send 70 (1 ∷ []) (ℤ.pos 1) 0)
      (with_sock connected world)
    ≡ some (record (with_sock connected world) { errno = ℤ.pos enotsock }, none)
perform_not_socket_example =
    perform_not_socket (client_requests (λ c. block) 9) (with_sock connected world)
      (Call.send 70 (1 ∷ []) (ℤ.pos 1) 0) refl

-- A socket with three bytes of a response left over.
abbrev left_over : Sock
left_over = record connected { recv_handle = some 100; recv_remaining = 3; recv_from = 2 }

recv_after_part_example :
    (recv (client_requests (λ c. block) 9) 0 (ℤ.pos 100) 0 (with_sock left_over world)
      ≡ some (record (with_sock left_over world) { errno = ℤ.pos einprogress }, none))
    × (recvfrom (client_requests (λ c. block) 9) 0 (ℤ.pos 100) 0 none (with_sock left_over world)
        ≡ some (record (with_sock left_over world) { errno = ℤ.pos einprogress }, none))
recv_after_part_example =
    recv_after_part (client_requests (λ c. block) 9) (with_sock left_over world) 0 (ℤ.pos 100) 0
      none (omega arith) refl refl refl (omega arith)

-- A connected socket in non-blocking mode.
abbrev nonblocking : Sock
nonblocking = record connected { nonblock = true }

perform_nonblocking_example :
    perform
      (client_requests (λ c. block) 9)
      (Call.recv 0 (ℤ.pos 100) 0)
      (with_sock nonblocking world)
    ≢ none
perform_nonblocking_example =
    perform_nonblocking (client_requests (λ c. block) 9)
      (client_requests-AvailableReturns (λ c. block) 9) (with_sock nonblocking world)
      (Call.recv 0 (ℤ.pos 100) 0) refl refl
