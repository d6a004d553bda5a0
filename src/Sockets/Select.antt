-- ===== src/Sockets/Select.antt =====
-- cms/ncfsockt.c: selectX. Its input sets are read before its output sets are written, so that select,
-- which passes the same sets for both, is the same call.
use nicof.Prelude.{
  ℕ, zero, suc, ◌+◌, ◌*◌, ◌^◌, ◌/◌, ◌%◌, Bool, true, false, not, ◌&&◌, ◌||◌, Option, none, some,
  List, get_or, ltb, ◌==◌, if◌then◌else◌,
}
use nicof.Prelude.Int.{ℤ, is_zero}
use nicof.Client.TimedWait.{waitany_timedout}
use nicof.HostFiles.{same_int}
use nicof.Sockets.{fd_setsize, fd_zero, fd_isset, fd_set}
use nicof.Sockets.Requests.{Requests, Sock, no_sock, Run, pure, called, ◌>>=◌, ◌>>◌, update}
use nicof.Sockets.Transfer.{is_noted, recv, accept}

abbrev pub no_timeout : ℕ
no_timeout = 0xffffffff

-- The timeout in 1/100 seconds, of seconds and microseconds.
unfoldable pub timeout_of : Option (ℕ × ℕ) → ℕ
timeout_of none = no_timeout
timeout_of (some (sec, usec)) =
    let units = (sec * 100 + (usec + 9999) / 10000) % 2 ^ 32 in
    if sec == 0 && usec == 0 then 0 else if units == 0 then 1 else units

-- What the first loop gathers: `activeHandles` and `noWait`.
pub record Watched : Type 0 where
  pub active_handles : ℕ
  pub no_wait : Bool

-- What the second loop gathers.
pub record Ready : Type 0 where
  pub active_sockets : ℕ
  pub rd_fds : List ℕ
  pub wr_fds : List ℕ

abbrev pub watch : Bool → Watched → Watched
watch ready x = record { active_handles = x.active_handles + 1; no_wait = x.no_wait || ready }

abbrev pub is_in : ℕ → List ℕ → Bool
is_in fd fds = not (fd_isset fd fds == 0)

abbrev pub mark : ℕ → Sock → (recv_ready send_ready : Bool) → Ready → Ready
mark fd s recv_ready send_ready y = record {
  active_sockets = y.active_sockets + (if recv_ready || send_ready then 1 else 0);
  rd_fds = if recv_ready && not s.pend_conn then fd_set fd y.rd_fds else y.rd_fds;
  wr_fds = if (recv_ready && s.pend_conn) || send_ready then fd_set fd y.wr_fds else y.wr_fds;
}

-- FD_ZERO on both sets.
abbrev pub nothing_ready : Ready
nothing_ready = record { active_sockets = 0; rd_fds = fd_zero; wr_fds = fd_zero }

-- `dummyFdSet` stands for a set that is NULL.
abbrev pub or_dummy : Option (List ℕ) → List ℕ
or_dummy none = fd_zero
or_dummy (some fds) = fds

module _ {S : Type 0} where
  -- The entry of a socket, which is there only if it is active.
  unfoldable pub peek : ℕ → Run S Sock
  peek fd t = some (t, some (get_or t.sockets fd no_sock))

  unfoldable pub clear_errno : Run S (Unit {0})
  clear_errno t = some (record t { errno = ℤ.pos 0 }, some tt)

  unfoldable pub next_filter_tag : Run S ℕ
  next_filter_tag t =
      let tag = (t.curr_filter_tag + 1) % 2 ^ 32 in
      some (record t { curr_filter_tag = tag }, some tag)

module _ {S : Type 0} (r : Requests S) where
  -- A response is there for a noted request. NULL is no request, and has none.
  unfoldable pub available : Option ℕ → Run S Bool
  available none t = some (t, some false)
  available (some h) t = some (t, some (r.is_available h t.world))

  unfoldable pub tag_request : ℕ → ℕ → Run S (Unit {0})
  tag_request h tag t = some (record t { world = r.set_filter_tag h tag t.world }, some tt)

  -- The accept or recv that selectX itself begins on a socket to be read.
  unfoldable pub begin_reading : ℕ → Sock → Run S (Unit {0})
  begin_reading fd s = do
    update fd (λ e. record e { nbselect = true })
    called (
        if s.server
        then (accept r fd none >> pure tt)
        else if s.client
        then (recv r fd (ℤ.pos 2048) 0 >> pure tt)
        else pure tt)
    update fd (λ e. record e { nbselect = false })
    clear_errno

  -- A noted request is watched; `more` tells that the socket is ready in any case.
  unfoldable pub watch_request : Option ℕ → Option ℕ → Bool → ℕ → Watched → Run S Watched
  watch_request none tested more tag x = pure x
  watch_request (some h) tested more tag x = do
    tag_request h tag
    ready ← available tested
    pure (watch (ready || more) x)

  unfoldable pub watch_reading : ℕ → (is_rd is_wr : Bool) → ℕ → Watched → Run S Watched
  watch_reading fd true is_wr tag x = do
    s ← peek fd
    (if is_noted s.recv_handle then pure tt else begin_reading fd s)
    e ← peek fd
    watch_request e.recv_handle e.recv_handle (ltb 0 e.recv_remaining) tag x
  watch_reading fd false is_wr tag x = do
    s ← peek fd
    (if is_wr && s.pend_conn then watch_request s.recv_handle s.recv_handle false tag x else pure x)

  -- The request that is tested for a response is the one of `recvHandle` here too.
  unfoldable pub watch_writing : ℕ → Bool → ℕ → Watched → Run S Watched
  watch_writing fd is_wr tag x = do
    s ← peek fd
    (if is_wr then watch_request s.send_handle s.recv_handle false tag x else pure x)

  unfoldable pub watch_socket : ℕ → (rd wr : List ℕ) → ℕ → Watched → Run S Watched
  watch_socket fd rd wr tag x = do
    s ← peek fd
    (if s.active
        then (do
          y ← watch_reading fd (is_in fd rd) (is_in fd wr) tag x
          watch_writing fd (is_in fd wr) tag y)
        else pure x)

  -- The first loop, over `n` sockets from `fd` on.
  unfoldable pub watch_all : ℕ → ℕ → (rd wr : List ℕ) → ℕ → Watched → Run S Watched
  watch_all zero fd rd wr tag x = pure x
  watch_all (suc n) fd rd wr tag x = do
    y ← watch_socket fd rd wr tag x
    watch_all n (fd + 1) rd wr tag y

  -- A noted request with the tag of this call has its response.
  unfoldable pub is_ready : Option ℕ → ℕ → Run S Bool
  is_ready none tag t = some (t, some false)
  is_ready (some h) tag t =
      some (t, some (r.get_filter_tag h t.world == tag && r.is_available h t.world))

  unfoldable pub gather_socket : ℕ → ℕ → Ready → Run S Ready
  gather_socket fd tag y = do
    s ← peek fd
    (if s.active
        then (do
          recv_ready ← is_ready s.recv_handle tag
          send_ready ← is_ready s.send_handle tag
          pure (mark fd s recv_ready send_ready y))
        else pure y)

  -- The second loop.
  unfoldable pub gather_all : ℕ → ℕ → ℕ → Ready → Run S Ready
  gather_all zero fd tag y = pure y
  gather_all (suc n) fd tag y = do z ← gather_socket fd tag y; gather_all n (fd + 1) tag z

  -- The timer that is used where there is nothing to watch.
  unfoldable pub pause_for : ℕ → Run S (Unit {0})
  pause_for timeout t =
      if ltb 0 timeout && not (timeout == no_timeout)
      then elim (r.pause timeout t.world) [
        | none ↦ none
        | some w ↦ some (record t { world = w }, some tt)
      ]
      else some (t, some tt)

  -- nicofclt_waitForAnyAvailableX; a timeout is no error.
  unfoldable pub wait_for_any : (tag timeout : ℕ) → Run S (Unit {0})
  wait_for_any tag timeout t = elim (r.wait_for_any tag timeout t.world) [
    | none ↦ none
    | some (w, code) ↦
        if is_zero code || same_int code waitany_timedout
        then some (record t { world = w; errno = code }, some tt)
        else some (record t { world = w; errno = code }, none)
  ]

  -- selectX; no set is a NULL pointer, and a negative number of sockets is 0 here.
  unfoldable pub select_x : ℕ → (rd wr : Option (List ℕ)) → Option (ℕ × ℕ) → Run S Ready
  select_x num_fds rd wr timeout = do
    tag ← next_filter_tag
    let n = if ltb fd_setsize num_fds then fd_setsize else num_fds
    x ←
        watch_all n 0 (or_dummy rd) (or_dummy wr) tag
          (record { active_handles = 0; no_wait = false })
    (if x.active_handles == 0 then (do pause_for (timeout_of timeout); pure nothing_ready) else (do
      (if x.no_wait || timeout_of timeout == 0
          then pure tt
          else wait_for_any tag (timeout_of timeout))
      clear_errno
      gather_all n 0 tag nothing_ready))
