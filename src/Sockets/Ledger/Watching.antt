-- ===== src/Sockets/Ledger/Watching.antt =====
-- The account over selectX (cms/ncfsockt.c).
use nicof.Prelude.{
  ℕ, zero, suc, ◌+◌, ◌<◌, ◌≤◌, refl, Bool, true, false, not, ◌&&◌, ◌||◌, Option, none, some, List,
  arith, inl, inr, ltb, ◌==◌, Bool-cases, if◌then◌else◌,
}
use nicof.Prelude.Int.{ℤ, is_zero}
use nicof.Client.TimedWait.{waitany_timedout}
use nicof.HostFiles.{same_int}
use nicof.Sockets.{fd_setsize}
use nicof.Sockets.Requests.{Requests, Sock, Tcp}
use nicof.Sockets.Transfer.{is_noted}
use nicof.Sockets.Select.{
  no_timeout, timeout_of, Watched, Ready, watch, is_in, mark, nothing_ready, or_dummy, peek,
  clear_errno, next_filter_tag, available, tag_request, begin_reading, watch_request, watch_reading,
  watch_writing, watch_socket, watch_all, is_ready, gather_socket, gather_all, pause_for,
  wait_for_any, select_x,
}
use nicof.Sockets.Ledger.{Logged, note_wait, note_pause, logged}
use nicof.Sockets.Ledger.Rules.{After, Triple-pure, Triple-if, Triple-called, Triple-bind}
use nicof.Sockets.Ledger.Steps.{Settled, update-Settled}
use nicof.Sockets.Ledger.Setting.{Keeps}
use nicof.Sockets.Ledger.Receiving.{recv-Keeps, accept-Keeps}

module _ {S : Type 0} (lost : ℕ → ℕ) where
  peek-Keeps : (fd : ℕ) → Keeps lost (peek {S = Logged S} fd)
  unfolding peek
  peek-Keeps fd = record { at = λ t p. p }

  clear_errno-Keeps : Keeps lost (clear_errno {S = Logged S})
  unfolding clear_errno
  clear_errno-Keeps = record { at = λ t p. p }

  next_filter_tag-Keeps : Keeps lost (next_filter_tag {S = Logged S})
  unfolding next_filter_tag
  next_filter_tag-Keeps = record { at = λ t p. p }

module _ {S : Type 0} (lost : ℕ → ℕ) (r : Requests S) where
  available-Keeps : (o : Option ℕ) → Keeps lost (available (logged r) o)
  unfolding available
  available-Keeps none = record { at = λ t p. p }
  available-Keeps (some h) = record { at = λ t p. p }

  tag_request-Keeps : (h tag : ℕ) → Keeps lost (tag_request (logged r) h tag)
  unfolding tag_request logged
  tag_request-Keeps h tag = record { at = λ t p. p }

  is_ready-Keeps : (o : Option ℕ) (tag : ℕ) → Keeps lost (is_ready (logged r) o tag)
  unfolding is_ready
  is_ready-Keeps none tag = record { at = λ t p. p }
  is_ready-Keeps (some h) tag = record { at = λ t p. p }

  begin_reading-Keeps :
      (fd : ℕ) (s : Sock) → fd < fd_setsize → Keeps lost (begin_reading (logged r) fd s)
  unfolding begin_reading
  begin_reading-Keeps fd s inside =
      Triple-bind (update-Settled lost fd _ inside (λ e k. k) (λ h e. refl)) λ _.
        Triple-bind
          (Triple-called (λ a t p. p) (λ t p. p)
            (Triple-if s.server _ _
              (λ y. Triple-bind (accept-Keeps lost r fd none) (λ _. Triple-pure tt))
              (λ y.
                Triple-if s.client _ _
                  (λ z. Triple-bind (recv-Keeps lost r fd (ℤ.pos 2048) 0) (λ _. Triple-pure tt))
                  (λ z. Triple-pure tt))))
          λ _.
            Triple-bind (update-Settled lost fd _ inside (λ e k. k) (λ h e. refl))
              λ _. clear_errno-Keeps lost

  watch_request-Keeps :
      (o tested : Option ℕ) (more : Bool) (tag : ℕ) (x : Watched)
      → Keeps lost (watch_request (logged r) o tested more tag x)
  unfolding watch_request
  watch_request-Keeps none tested more tag x = Triple-pure x
  watch_request-Keeps (some h) tested more tag x =
      Triple-bind (tag_request-Keeps h tag)
        λ _. Triple-bind (available-Keeps tested) λ ready. Triple-pure (watch (ready || more) x)

  watch_reading-Keeps :
      (fd : ℕ) (is_rd is_wr : Bool) (tag : ℕ) (x : Watched)
      → fd < fd_setsize
      → Keeps lost (watch_reading (logged r) fd is_rd is_wr tag x)
  unfolding watch_reading
  watch_reading-Keeps fd true is_wr tag x inside = Triple-bind (peek-Keeps lost fd) λ s.
      Triple-bind
        (Triple-if (is_noted s.recv_handle) _ _ (λ y. Triple-pure tt)
          (λ y. begin_reading-Keeps fd s inside))
        λ _.
          Triple-bind (peek-Keeps lost fd)
            λ e. watch_request-Keeps e.recv_handle e.recv_handle (ltb 0 e.recv_remaining) tag x
  watch_reading-Keeps fd false is_wr tag x inside = Triple-bind (peek-Keeps lost fd) λ s.
      Triple-if (is_wr && s.pend_conn) _ _
        (λ y. watch_request-Keeps s.recv_handle s.recv_handle false tag x) (λ y. Triple-pure x)

  watch_writing-Keeps :
      (fd : ℕ) (is_wr : Bool) (tag : ℕ) (x : Watched)
      → Keeps lost (watch_writing (logged r) fd is_wr tag x)
  unfolding watch_writing
  watch_writing-Keeps fd is_wr tag x = Triple-bind (peek-Keeps lost fd) λ s.
      Triple-if is_wr _ _ (λ y. watch_request-Keeps s.send_handle s.recv_handle false tag x)
        (λ y. Triple-pure x)

  watch_all-Keeps :
      (n fd : ℕ) (rd wr : List ℕ) (tag : ℕ) (x : Watched)
      → fd + n ≤ fd_setsize
      → Keeps lost (watch_all (logged r) n fd rd wr tag x)
  unfolding watch_all watch_socket
  watch_all-Keeps zero fd rd wr tag x fits = Triple-pure x
  watch_all-Keeps (suc n) fd rd wr tag x fits =
      Triple-bind
        (Triple-bind (peek-Keeps lost fd) λ s.
          Triple-if s.active _ _
            (λ y.
              Triple-bind (watch_reading-Keeps fd (is_in fd rd) (is_in fd wr) tag x (omega arith))
                λ z. watch_writing-Keeps fd (is_in fd wr) tag z)
            (λ y. Triple-pure x))
        λ y. watch_all-Keeps n (fd + 1) rd wr tag y (omega arith)

  gather_all-Keeps : (n fd tag : ℕ) (y : Ready) → Keeps lost (gather_all (logged r) n fd tag y)
  unfolding gather_all gather_socket
  gather_all-Keeps zero fd tag y = Triple-pure y
  gather_all-Keeps (suc n) fd tag y =
      Triple-bind
        (Triple-bind (peek-Keeps lost fd) λ s.
          Triple-if s.active _ _
            (λ _. Triple-bind (is_ready-Keeps s.recv_handle tag) λ recv_ready.
              Triple-bind (is_ready-Keeps s.send_handle tag)
                λ send_ready. Triple-pure (mark fd s recv_ready send_ready y))
            (λ _. Triple-pure y))
        λ z. gather_all-Keeps n (fd + 1) tag z

  after_pause :
      (t : Tcp (Logged S)) (o : Option S)
      → Settled lost t
      → After {A = Unit {0}}
          (λ _. Settled lost)
          (Settled lost)
          (elim (note_pause t.world o) [
            | none ↦ none
            | some w ↦ some (record t { world = w }, some tt)
          ])
  after_pause t none p = tt
  after_pause t (some w) p = p

  pause_for-Keeps : (timeout : ℕ) → Keeps lost (pause_for (logged r) timeout)
  unfolding pause_for logged
  pause_for-Keeps timeout = record {
    at = λ t p. elim (Bool-cases (ltb 0 timeout && not (timeout == no_timeout))) [
      | inl y ↦ rw y (after_pause t (r.pause timeout t.world.base) p)
      | inr y ↦ rw y p
    ];
  }

  after_any :
      (t : Tcp (Logged S)) (o : Option (S × ℤ))
      → Settled lost t
      → After {A = Unit {0}}
          (λ _. Settled lost)
          (Settled lost)
          (elim (note_wait t.world o) [
            | none ↦ none
            | some (w, code) ↦
                if is_zero code || same_int code waitany_timedout
                then some (record t { world = w; errno = code }, some tt)
                else some (record t { world = w; errno = code }, none)
          ])
  after_any t none p = tt
  after_any t (some (w, code)) p =
      elim (Bool-cases (is_zero code || same_int code waitany_timedout)) [
        | inl y ↦ rw y p
        | inr y ↦ rw y p
      ]

  wait_for_any-Keeps : (tag timeout : ℕ) → Keeps lost (wait_for_any (logged r) tag timeout)
  unfolding wait_for_any logged
  wait_for_any-Keeps tag timeout = record {
    at = λ t p. after_any t (r.wait_for_any tag timeout t.world.base) p;
  }

  pub select_x-Keeps :
      (num_fds : ℕ) (rd wr : Option (List ℕ)) (timeout : Option (ℕ × ℕ))
      → Keeps lost (select_x (logged r) num_fds rd wr timeout)
  unfolding select_x
  select_x-Keeps num_fds rd wr timeout = Triple-bind (next_filter_tag-Keeps lost) λ tag.
      Triple-bind (watch_all-Keeps _ 0 (or_dummy rd) (or_dummy wr) tag _ (ground arith)) λ x.
        Triple-if (x.active_handles == 0) _ _
          (λ y. Triple-bind (pause_for-Keeps (timeout_of timeout)) (λ _. Triple-pure nothing_ready))
          λ y.
            Triple-bind
              (Triple-if (x.no_wait || timeout_of timeout == 0) _ _ (λ z. Triple-pure tt)
                (λ z. wait_for_any-Keeps tag (timeout_of timeout)))
              λ _. Triple-bind (clear_errno-Keeps lost) λ _. gather_all-Keeps _ 0 tag nothing_ready
