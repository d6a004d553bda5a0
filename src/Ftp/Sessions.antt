-- ===== src/Ftp/Sessions.antt =====
-- cms/cmsftpd.c: the table of the server's clients. A set of sockets is a list of bytes, an `int` its
-- word of 32 bits; of a session the texts and the address are left out. Dropping a client gives the
-- sockets that are closed.
use nicof.Prelude.{
  ℕ, ◌+◌, ◌-◌, ◌%◌, ◌^◌, ◌≤◌, ◌<◌, ◌≡◌, Bool, true, false, ◌||◌, Option, none, some, List, [], ◌∷◌,
  All, length, arith, leb, ◌==◌, if◌then◌else◌, Bool-cases, inl, inr,
}
use nicof.Sockets.{fd_zero, fd_set, fd_clr}

pub record Session : Type 0 where
  ctl_socket : ℕ
  psv_socket : Option ℕ
  logged_in : Bool
  having_active_client_addr : Bool
  ftp_trf_binary : Bool
  curr_disk : Option ℕ
  rename_disk_idx : Option ℕ

pub record Clients : Type 0 where
  pub client_socks : List ℕ
  pub client_sock_count : ℕ
  pub last_sock_plus1 : ℕ
  pub sessions : List Session

unfoldable pub init_client_socks : ℕ → Clients → Clients
init_client_socks srv_socket c = record c {
  client_socks = fd_set srv_socket fd_zero;
  last_sock_plus1 = srv_socket + 1;
  client_sock_count = 0;
}

abbrev pub new_session : ℕ → Session
new_session sock = record {
  ctl_socket = sock;
  psv_socket = none;
  logged_in = false;
  having_active_client_addr = false;
  ftp_trf_binary = false;
  curr_disk = none;
  rename_disk_idx = none;
}

unfoldable pub add_client_sock : ℕ → Clients → Clients
add_client_sock sock c = record {
  client_socks = fd_set sock c.client_socks;
  client_sock_count = (c.client_sock_count + 1) % 2 ^ 32;
  last_sock_plus1 = if leb c.last_sock_plus1 sock then sock + 1 else c.last_sock_plus1;
  sessions = new_session sock ∷ c.sessions;
}

-- The list without the first session of the socket.
unfoldable pub unlinked : ℕ → List Session → List Session
unlinked sock [] = []
unlinked sock (h ∷ sessions) = if h.ctl_socket == sock then sessions else h ∷ unlinked sock sessions

-- The sockets that are closed with it.
unfoldable pub closed : ℕ → List Session → List ℕ
closed sock [] = []
closed sock (h ∷ sessions) =
    if h.ctl_socket == sock
    then elim h.psv_socket [ none ↦ h.ctl_socket ∷ [] | some psv ↦ psv ∷ h.ctl_socket ∷ [] ]
    else closed sock sessions

-- `n <= 0` for an `int`.
abbrev pub is_done : ℕ → Bool
is_done n = n == 0 || leb (2 ^ 31) n

unfoldable pub drop_client_sock : ℕ → Clients → Clients × (List ℕ × Bool)
drop_client_sock sock c =
    let count = (c.client_sock_count + (2 ^ 32 - 1)) % 2 ^ 32 in
    (
      record c {
        client_socks = fd_clr sock c.client_socks;
        client_sock_count = count;
        sessions = unlinked sock c.sessions;
      },
      (closed sock c.sessions, is_done count),
    )

abbrev pub has_session : ℕ → List Session → Bool
has_session sock [] = false
has_session sock (h ∷ sessions) = h.ctl_socket == sock || has_session sock sessions

-- The count is that of the sessions, and select looks at each of their sockets.
abbrev pub IsSound : Clients → Type 0
IsSound c =
    (c.client_sock_count ≡ length c.sessions)
    × All (λ h. h.ctl_socket < c.last_sock_plus1) c.sessions

length-unlinked :
    (sock : ℕ) (sessions : List Session)
    → has_session sock sessions ≡ true
    → length (unlinked sock sessions) + 1 ≡ length sessions
unfolding unlinked
length-unlinked sock [] h = ground arith
length-unlinked sock (s ∷ sessions) h = elim (Bool-cases (s.ctl_socket == sock)) [
  | inl e ↦ rw e (omega arith)
  | inr e ↦
      let there : has_session sock sessions ≡ true = ground arith in
      rw e (omega (arith, length-unlinked sock sessions there))
]

All-unlinked :
    (sock n : ℕ) (sessions : List Session)
    → All (λ h. h.ctl_socket < n) sessions
    → All (λ h. h.ctl_socket < n) (unlinked sock sessions)
unfolding unlinked
All-unlinked sock n [] a = a
All-unlinked sock n (s ∷ sessions) (h, a) = elim (Bool-cases (s.ctl_socket == sock)) [
  | inl e ↦ rw e a
  | inr e ↦ rw e (h, All-unlinked sock n sessions a)
]

All-below :
    (m n : ℕ) (sessions : List Session)
    → m ≤ n
    → All (λ h. h.ctl_socket < m) sessions
    → All (λ h. h.ctl_socket < n) sessions
All-below m n [] e a = a
All-below m n (s ∷ sessions) e (h, a) = (omega arith, All-below m n sessions e a)

add_client_sock-IsSound :
    (sock : ℕ) (c : Clients)
    → IsSound c
    → c.client_sock_count + 1 < 2 ^ 31
    → IsSound (add_client_sock sock c)
unfolding add_client_sock
add_client_sock-IsSound sock c (count, below) small =
    let last = if leb c.last_sock_plus1 sock then sock + 1 else c.last_sock_plus1 in
    let above : sock < last = ground arith in
    let raised : c.last_sock_plus1 ≤ last = ground arith in
    (omega (arith, count), (above, All-below c.last_sock_plus1 last c.sessions raised below))

drop_client_sock-IsSound :
    (sock : ℕ) (c : Clients)
    → IsSound c
    → c.client_sock_count < 2 ^ 31
    → has_session sock c.sessions ≡ true
    → IsSound (drop_client_sock sock c).0
      × ((drop_client_sock sock c).1.1 ≡ (length (drop_client_sock sock c).0.sessions == 0))
unfolding drop_client_sock
drop_client_sock-IsSound sock c (count, below) small h =
    let fewer = length-unlinked sock c.sessions h in
    let left : (c.client_sock_count + (2 ^ 32 - 1)) % 2 ^ 32 ≡ length (unlinked sock c.sessions) =
      omega (arith, fewer, count) in
    (
      (left, All-unlinked sock c.last_sock_plus1 c.sessions below),
      rw left (ground (arith, fewer, count)),
    )

-- Where clientSockCount is the number of sessions and lastSockPlus1 is above each of their sockets,
-- both hold after addClientSock, for any socket, while the count stays below 2 ^ 31, and after
-- dropClientSock for a socket that has a session; dropClientSock then says that it was the last
-- client just where no session is left.
pub client_socks-IsSound :
    (new old : ℕ) (c : Clients)
    → IsSound c
    → c.client_sock_count + 1 < 2 ^ 31
    → has_session old c.sessions ≡ true
    → IsSound (add_client_sock new c)
      × IsSound (drop_client_sock old c).0
      × ((drop_client_sock old c).1.1 ≡ (length (drop_client_sock old c).0.sessions == 0))
client_socks-IsSound new old c sound small h =
    let dropped = drop_client_sock-IsSound old c sound (omega arith) h in
    (add_client_sock-IsSound new c sound small, dropped.0, dropped.1)
