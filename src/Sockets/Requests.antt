-- ===== src/Sockets/Requests.antt =====
-- cms/ncfsockt.c: the table of sockets, and what the calls on sockets are made of. They reach the
-- requests of the VMCF client through an interface. A call that returns -1 is a failed run, and a
-- call that waits for ever is `none`.
use nicof.Prelude.{
  ℕ, ◌+◌, ◌*◌, ◌^◌, ◌/◌, ◌%◌, Bool, true, false, not, ◌&&◌, ◌||◌, Option, none, some, List, set,
  get_or, replicate, ltb, ◌==◌, if◌then◌else◌,
}
use nicof.Prelude.Int.{ℤ, to_int, is_zero}
use nicof.Sockets.{fd_setsize, eok}

-- The calls of the VMCF client, over the state `S` of all that they reach. The number in a result
-- is the return code; what stands behind it is written where that is 0.
pub record Requests (S : Type 0) : Type 0 where
  pub create : (w1 w2 : ℕ) → S → S × Option ℕ
  pub fill : ℕ → List ℕ → S → S × ℤ × Unit {0}
  pub fill_both : ℕ → (first second : List ℕ) → S → S × ℤ × Unit {0}
  pub send : ℕ → S → S × ℤ × Unit {0}
  pub await : ℕ → S → Option (S × ℤ)
  pub words : ℕ → S → S × ℤ × (ℕ × ℕ)
  pub data_length : ℕ → S → S × ℤ × ℕ
  pub bytes : ℕ → (max from : ℕ) → S → S × ℤ × List ℕ
  pub free : ℕ → S → S
  pub is_available : ℕ → S → Bool
  pub set_filter_tag : ℕ → ℕ → S → S
  pub get_filter_tag : ℕ → S → ℕ
  pub wait_for_any : (tag timeout : ℕ) → S → Option (S × ℤ)
  pub pause : ℕ → S → Option S

-- `struct __sock`: each flag is a bit of `flags`, and no two of them share one.
pub record Sock : Type 0 where
  pub active : Bool
  pub client : Bool
  pub server : Bool
  pub dgram : Bool
  pub init : Bool
  pub nonblock : Bool
  pub nbselect : Bool
  pub pend_conn : Bool
  pub pend_acpt : Bool
  pub pend_recv : Bool
  pub recv_from : ℕ
  pub recv_remaining : ℕ
  pub recv_handle : Option ℕ
  pub send_handle : Option ℕ

-- `flags = 0`
abbrev pub without_flags : Sock → Sock
without_flags s = record s {
  active = false;
  client = false;
  server = false;
  dgram = false;
  init = false;
  nonblock = false;
  nbselect = false;
  pend_conn = false;
  pend_acpt = false;
  pend_recv = false;
}

-- What memset leaves.
abbrev pub no_sock : Sock
no_sock = record {
  active = false;
  client = false;
  server = false;
  dgram = false;
  init = false;
  nonblock = false;
  nbselect = false;
  pend_conn = false;
  pend_acpt = false;
  pend_recv = false;
  recv_from = 0;
  recv_remaining = 0;
  recv_handle = none;
  send_handle = none;
}

-- The static variables, and the state of the client.
pub record Tcp (S : Type 0) : Type 0 where
  pub world : S
  pub sockets : List Sock
  pub errno : ℤ
  pub curr_filter_tag : ℕ

-- What the first call's initSockets makes, of the state behind nicofclt_init.
unfoldable pub init_sockets : {S : Type 0} → S → Tcp S
init_sockets w = record {
  world = w;
  sockets = replicate fd_setsize no_sock;
  errno = ℤ.pos 0;
  curr_filter_tag = 0;
}

abbrev pub Run : Type 0 → Type 0 → Type 0
Run S A = Tcp S → Option (Tcp S × Option A)

abbrev pub eafnosupport : ℕ
eafnosupport = 0x1010000

abbrev pub eprotonosupport : ℕ
eprotonosupport = 0x1020000

abbrev pub emfile : ℕ
emfile = 0x1030000

abbrev pub enotsock : ℕ
enotsock = 0x1040000

abbrev pub enotconn : ℕ
enotconn = 0x10a0000

abbrev pub eopnotsupp : ℕ
eopnotsupp = 0x10b0000

abbrev pub econnreset : ℕ
econnreset = 0x10c0000

abbrev pub eisconn : ℕ
eisconn = 0x10e0000

abbrev pub no_recovery : ℕ
no_recovery = 0x1220000

abbrev pub einprogress : ℕ
einprogress = 0x1900000

abbrev pub ealready : ℕ
ealready = 0x1910000

abbrev pub ewouldblock : ℕ
ewouldblock = 0x1920000

abbrev pub ebadf : ℕ
ebadf = 0x1930000

-- `x & 0xFFFF0000` and `x & 0xFFFF`
abbrev pub high_half : ℕ → ℕ
high_half w = w / 2 ^ 16 * 2 ^ 16

abbrev pub low_half : ℕ → ℕ
low_half w = w % 2 ^ 16

-- SOCKERR_IF_INPROGRESSOTHER: a request is noted, and not for the operation of the flag.
abbrev pub is_other : Option ℕ → Bool → Bool
is_other none flag = false
is_other (some h) flag = not flag

module _ {S A : Type 0} where
  unfoldable pub pure : A → Run S A
  pure a t = some (t, some a)

  -- A return of -1 with `errno` as it is.
  unfoldable pub give_up : Run S A
  give_up t = some (t, none)

  -- RET_WITH_ERR
  unfoldable pub refuse : ℕ → Run S A
  refuse code t = some (record t { errno = ℤ.pos code }, none)

  -- `if (test) { errno = code; return -1; }`, before `m`.
  unfoldable pub refuse_if : Bool → ℕ → Run S A → Run S A
  unfolding refuse
  refuse_if true code m = refuse code
  refuse_if false code m = m

  -- `errno = (int)w; if (errno != EOK) { return -1; }`, before `m`.
  unfoldable pub if_eok : ℕ → Run S A → Run S A
  if_eok w m t = let u = record t { errno = to_int w } in if w == eok then m u else some (u, none)

  -- A call whose return code the caller does not read, so that its failure does not end it.
  unfoldable pub called : Run S A → Run S (Option A)
  called m t = elim (m t) [ none ↦ none | some (u, r) ↦ some (u, some r) ]

module _ {S A B : Type 0} where
  infixl 5 ◌>>=◌ ◌>>◌
  unfoldable pub ◌>>=◌ : Run S A → (A → Run S B) → Run S B
  ◌>>=◌ m f t = elim (m t) [
    | none ↦ none
    | some (u, r) ↦ elim r [ none ↦ some (u, none) | some a ↦ f a u ]
  ]

  abbrev pub ◌>>◌ : Run S A → Run S B → Run S B
  m >> n = m >>= λ _. n

module _ {S : Type 0} where
  -- GETSOCK
  unfoldable pub get_sock : ℕ → Run S Sock
  get_sock fd t =
      let s = get_or t.sockets fd no_sock in
      if ltb fd fd_setsize && s.active
      then some (t, some s)
      else some (record t { errno = ℤ.pos enotsock }, none)

  unfoldable pub update : ℕ → (Sock → Sock) → Run S (Unit {0})
  update fd f t =
      some (record t { sockets = set t.sockets fd (f (get_or t.sockets fd no_sock)) }, some tt)

module _ {S : Type 0} (r : Requests S) where
  -- newSockRequest
  unfoldable pub new_sock_request : (cmd sock_no w2 : ℕ) → Run S ℕ
  new_sock_request cmd sock_no w2 t =
      let (w, handle) = r.create (low_half cmd * 2 ^ 16 + low_half sock_no) w2 t.world in
      elim handle [
        | none ↦ some (record t { world = w; errno = ℤ.pos no_recovery }, none)
        | some h ↦ some (record t { world = w }, some h)
      ]

  -- `errno = op; if (errno != 0) { nicofclt_freeRequest(h); return -1; }`
  unfoldable pub attempt : {A : Type 0} → ℕ → (S → S × ℤ × A) → Run S A
  attempt h op t =
      let (w, code, a) = op t.world in
      if is_zero code
      then some (record t { world = w; errno = code }, some a)
      else some (record t { world = r.free h w; errno = code }, none)

  -- The same with nicofclt_waitForResponse.
  unfoldable pub attempt_wait : ℕ → Run S (Unit {0})
  attempt_wait h t = elim (r.await h t.world) [
    | none ↦ none
    | some (w, code) ↦
        if is_zero code
        then some (record t { world = w; errno = code }, some tt)
        else some (record t { world = r.free h w; errno = code }, none)
  ]

  unfoldable pub free_request : ℕ → Run S (Unit {0})
  free_request h t = some (record t { world = r.free h t.world }, some tt)

  -- The same with nicofclt_sendRequestToAndWait.
  unfoldable pub send_and_wait : ℕ → Run S (Unit {0})
  send_and_wait h = do attempt h (r.send h); attempt_wait h

  unfoldable pub closeproxysocket : ℕ → Run S (Unit {0})
  closeproxysocket sock_no = do h ← new_sock_request 33 sock_no 0; send_and_wait h; free_request h

  -- Sending the request, in the calls that may leave it under way: without a noted request one is
  -- made, and noted where the socket does not block.
  unfoldable pub posted : ℕ → Sock → Run S ℕ → (ℕ → Sock → Sock) → Run S ℕ
  posted fd s make note = do
    h ← make
    attempt h (r.send h)
    if s.nbselect || s.nonblock then (do update fd (note h); refuse ewouldblock) else pure h

  unfoldable pub reached : Option ℕ → Run S ℕ → Run S ℕ
  reached none m = m
  reached (some h) m = pure h

  -- `if (SOCK_ISSET(F_NONBLOCK) && !nicofclt_isAvailable(h)) { RET_WITH_ERR(EALREADY); }`
  unfoldable pub unless_pending : Sock → ℕ → Run S (Unit {0})
  unless_pending s h t =
      refuse_if (s.nonblock && not (r.is_available h t.world)) ealready (pure tt) t

  -- From the request to the first word of its response: what connect, send, recv, sendto, recvfrom
  -- and accept have in common.
  unfoldable pub ask_proxy :
      ℕ → Sock → Option ℕ → Run S ℕ → (ℕ → Sock → Sock) → (Sock → Sock) → Run S (ℕ × ℕ)
  ask_proxy fd s noted make note clear = do
    h ← reached noted (posted fd s make note)
    unless_pending s h
    update fd clear
    attempt_wait h
    words ← attempt h (r.words h)
    pure (h, words.0)

  -- `if (errno != EOK) { nicofclt_freeRequest(h); return -1; }` after `errno = uw1 & 0xFFFF0000`.
  unfoldable pub unless_refused : ℕ → ℕ → Run S (Unit {0})
  unless_refused h w t =
      if high_half w == eok
      then some (record t { errno = to_int (high_half w) }, some tt)
      else some (record t { world = r.free h t.world; errno = to_int (high_half w) }, none)
