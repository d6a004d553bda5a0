-- ===== src/Sockets.antt =====
-- cms/socket.h and cms/ncfsockt.c: sets of sockets, and addresses in text.
pub mod Requests
pub mod Setup
pub mod Transfer
pub mod Select
pub mod Over
pub mod Blocking
pub mod Refused
pub mod Nonblocking
pub mod Calls
pub mod Ledger
pub mod Sets
pub mod Addresses
mod Tests
use Prim.Native.Nat.{bit_and, bit_or}
use nicof.Prelude.{
  ℕ, zero, suc, ◌+◌, ◌*◌, ◌-◌, ◌^◌, ◌/◌, ◌%◌, Bool, true, false, not, ◌&&◌, Option, none, some,
  List, [], ◌∷◌, set, get_or, replicate, ltb, leb, ◌==◌, if◌then◌else◌,
}

abbrev pub fd_setsize : ℕ
fd_setsize = 64

abbrev pub fd_bytes : ℕ
fd_bytes = (fd_setsize + 7) / 8

-- __FDSET1
abbrev pub fdset1 : ℕ → ℕ
fdset1 pos = 0x80 / 2 ^ pos

-- __FDSET0: the complement, as a byte.
abbrev pub fdset0 : ℕ → ℕ
fdset0 pos = 255 - fdset1 pos

abbrev pub fd_zero : List ℕ
fd_zero = replicate fd_bytes 0

-- FD_ISSET; a negative number is a large one here.
unfoldable pub fd_isset : ℕ → List ℕ → ℕ
fd_isset fd fds = if leb fd_setsize fd then 0 else bit_and (get_or fds (fd / 8) 0) (fdset1 (fd % 8))

unfoldable pub fd_set : ℕ → List ℕ → List ℕ
fd_set fd fds =
    if ltb fd fd_setsize
    then set fds (fd / 8) (bit_or (get_or fds (fd / 8) 0) (fdset1 (fd % 8)))
    else fds

unfoldable pub fd_clr : ℕ → List ℕ → List ℕ
fd_clr fd fds =
    if ltb fd fd_setsize
    then set fds (fd / 8) (bit_and (get_or fds (fd / 8) 0) (fdset0 (fd % 8)))
    else fds

-- The error codes `EOK` and `EINVAL`.
abbrev pub eok : ℕ
eok = 0x1000000

abbrev pub einval : ℕ
einval = 0x1070000

-- The end of `inet_addr`.
abbrev pub address : List ℕ → ℕ
address nibbles =
    get_or nibbles 0 0 * 2 ^ 24
    + get_or nibbles 1 0 * 2 ^ 16
    + get_or nibbles 2 0 * 2 ^ 8
    + get_or nibbles 3 0

-- The loop of `inet_addr`: the result and `h_errno`. For another character than a digit or a dot the
-- code returns EINVAL.
unfoldable pub inet_loop : (nibbles : List ℕ) (n : ℕ) → List ℕ → ℕ × ℕ
inet_loop nibbles n [] = (address nibbles, eok)
inet_loop nibbles n (c ∷ addr) =
    let v = get_or nibbles n 0 * 10 + (c - 0xf0) in
    elim (leb 0xf0 c && leb c 0xf9) [
      | true ↦ elim (ltb 255 v) [
        | true ↦ (0xffffffff, einval)
        | false ↦ inet_loop (set nibbles n v) n addr
      ]
      | false ↦ elim (c == 0x4b) [
        | true ↦ elim (leb 4 (n + 1)) [
          | true ↦ (0xffffffff, einval)
          | false ↦ inet_loop nibbles (n + 1) addr
        ]
        | false ↦ (einval, einval)
      ]
    ]

-- inet_addr; no text is NULL.
unfoldable pub inet_addr : Option (List ℕ) → ℕ × ℕ
inet_addr none = (0xffffffff, einval)
inet_addr (some addr) = inet_loop (replicate 4 0) 0 addr
