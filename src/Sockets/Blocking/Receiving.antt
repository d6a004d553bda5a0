-- ===== src/Sockets/Blocking/Receiving.antt =====
-- cms/ncfsockt.c over cms/nicofclt.c: recv in blocking mode.
use nicof.Prelude.{
  ℕ, ◌+◌, ◌^◌, ◌<◌, ◌≤◌, ◌≡◌, ◌∙◌, refl, sym, ap, subst, Bool, true, false, not, ◌&&◌, ◌||◌, Option,
  none, some, List, [], ◌∷◌, arith, length, set, get_or, take, ltb, if◌then◌else◌,
}
use nicof.Prelude.Int.{ℤ, to_int}
use nicof.Client
use nicof.Client.{Request, Client, rc_ok, collect, mid_new, mid_free, mid_rtrn, find}
use nicof.Client.Wait.{Arrival}
use nicof.Client.Delivery.{IsAnswer}
use nicof.Client.Delivery.Exchange.{IsPositive, sent_message}
use nicof.Client.Delivery.Taking.{IsIn, free-IsIn, returned}
use nicof.Client.Delivery.Await.{HasTaken, wait-HasTaken}
use nicof.Base.Invoke.{IsReady}
use nicof.Sockets.{fd_setsize, eok}
use nicof.Sockets.Requests.{
  Sock, no_sock, Tcp, Run, high_half, pure, ◌>>=◌, ◌>>◌, update, free_request, posted, reached,
  unless_pending, ask_proxy, unless_refused, refuse_if, is_other,
}
use nicof.Sockets.Transfer.{
  is_negative, is_noted, cut, length_bytes, with_rest, note_recv, clear_recv, filled_request,
  received, recv_new, recv_from_handle, recv,
}
use nicof.Sockets.Over.{World, client_requests}
use nicof.Sockets.Refused.{found, passed}
use nicof.Sockets.Blocking.{
  bind_some, attempt_ok, world_of, with_client, client, handle_of, IsIdle, filled_request-IsReady,
  sending, awaiting, waited, wording, measuring, fetching,
}

-- A socket in blocking mode, with no receiving under way.
pub record IsBlocking (s : Sock) : Type 0 where
  pub blocks : s.nonblock ≡ false
  pub waits : s.nbselect ≡ false
  pub idle : s.recv_handle ≡ none

by_mode :
    {S A : Type 0} (b c : Bool) (m n : Run S A) (t : Tcp S)
    → b ≡ false
    → c ≡ false
    → (if b || c then m else n) t ≡ n t
by_mode b c m n t e f = rw (e, f) refl

module _ (block_of : Client → Request) (to_vm fd : ℕ) (s : Sock) (t : Tcp World) (h : ℕ)
    (d : Client) (make : Run World ℕ) (a : Arrival) (later : List Arrival)
    (blocks : s.nonblock ≡ false) (waits : s.nbselect ≡ false)
    (made : make t ≡ some (with_client d (a ∷ later) t, some h)) (last : ℕ)
    (ready : IsReady h last d) (k : last + 1 < 2 ^ 32) where
  posted_sent :
      (note : ℕ → Sock → Sock)
      → posted (client block_of to_vm) fd s make note t
        ≡ some (with_client (sent_message h d) (a ∷ later) t, some h)
  unfolding posted pure
  posted_sent note =
      bind_some make _ made
      ∙ (bind_some _ _ (
            attempt_ok (client block_of to_vm) h ((client block_of to_vm).send h)
              (with_client d (a ∷ later) t) _ tt
              (sending block_of to_vm h d (a ∷ later) t.world.timers ready.found
                (omega (arith, ready.counter))))
          ∙ by_mode s.nbselect s.nonblock _ (pure h) _ waits blocks)

  not_pending : (u : Tcp World) → unless_pending (client block_of to_vm) s h u ≡ some (u, some tt)
  unfolding unless_pending refuse_if pure
  not_pending u = rw blocks refl

  -- The response that comes is taken in.
  exchange_taken :
      (note : ℕ → Sock → Sock) (clear : Sock → Sock)
      → IsAnswer (last + 1) a
      → IsPositive a
      → (e : Client) × (q : Request) × (ask_proxy
            (client block_of to_vm)
            fd
            s
            none
            make
            note
            clear
            t
          ≡ some (
            with_client
                (collect h e)
                later
                (record t { sockets = set t.sockets fd (clear (get_or t.sockets fd no_sock)) }),
            some (h, q.user_word1),
          ))
        × HasTaken h a e q
  unfolding ask_proxy reached update pure
  exchange_taken note clear ans good =
      let (q0, there, new) = ready.found in
      let (e, q, returns, taken) =
        wait-HasTaken h d q0 a later ready.valid there new ready.open_filter ready.clear
          (omega (arith, ready.counter)) (subst (λ m. IsAnswer (m + 1) a) (sym ready.counter) ans)
          good in
      (
        e,
        q,
        bind_some _ _ (posted_sent note)
            ∙ (bind_some _ _ (not_pending (with_client (sent_message h d) (a ∷ later) t))
                ∙ (bind_some (update fd clear) _ refl
                    ∙ (bind_some _ _ (
                          waited block_of to_vm h _ (world_of e later t.world.timers) (
                            awaiting block_of to_vm h (sent_message h d) e (a ∷ later) later
                              t.world.timers returns))
                        ∙ bind_some _ _ (
                            attempt_ok (client block_of to_vm) h ((client block_of to_vm).words h) _
                              _ _
                              (wording block_of to_vm h e q later t.world.timers taken.found
                                taken.state))))),
        taken,
      )

module _ (block_of : Client → Request) (to_vm fd n : ℕ) (h word : ℕ) (t : Tcp World) (e : Client)
    (a : Arrival) (later : List Arrival) (q : Request) (taken : HasTaken h a e q)
    (ok : high_half word ≡ eok) (fits : length a.stored ≤ n) where
  accepted :
      (u : Tcp World)
      → unless_refused (client block_of to_vm) h word u
        ≡ some (record u { errno = to_int (high_half word) }, some tt)
  unfolding unless_refused
  accepted u = rw ok refl

  -- The end of recv, where nothing is left over.
  freed :
      (bytes : List ℕ) (size : ℕ) (u : Tcp World)
      → bytes ≡ a.stored
      → length a.stored ≡ size
      → (if ltb (length bytes) size
            then update fd (with_rest h (length bytes) size) >> pure bytes
            else free_request (client block_of to_vm) h >> pure bytes)
          u
        ≡ some (
          record u { world = record u.world { client = (Client.free_request h u.world.client).0 } },
          some a.stored,
        )
  unfolding free_request ◌>>=◌ pure client_requests
  freed bytes size u p e =
      let whole : ltb (length a.stored) size ≡ false = ground arith in rw (p, whole) refl

  -- The whole response fits the buffer, and its request is given back.
  received_whole :
      (u : Tcp World) × (received
          (client block_of to_vm)
          fd
          n
          (h, word)
          (with_client (collect h e) later t)
        ≡ some (u, some a.stored))
      × (u.sockets ≡ t.sockets)
      × IsIn mid_free h u.world.client
  unfolding received
  received_whole = (
    record t { world = world_of (Client.free_request h e3).0 later t.world.timers; errno = rc_ok },
    bind_some _ _ (accepted (with_client e1 later t))
        ∙ (bind_some _ _ (
              attempt_ok (client block_of to_vm) h ((client block_of to_vm).data_length h) _ _ _ (
                measuring block_of to_vm h e1 q later t.world.timers there1 taken.state taken.fits))
            ∙ (bind_some _ _ (
                  attempt_ok (client block_of to_vm) h ((client block_of to_vm).bytes h n 0) _ _ _ (
                    fetching block_of to_vm h e2 q later t.world.timers there2 taken.state n
                      (omega (arith, taken.size))))
                ∙ freed (take q.data_len q.buf) q.data_len _ taken.bytes (sym taken.size))),
    refl,
    free-IsIn h mid_rtrn e3 (q, there3, taken.state) (omega arith),
  )
    where
      e1 : Client
      e1 = collect h e

      e2 : Client
      e2 = collect h e1

      e3 : Client
      e3 = collect h e2

      there1 : find h e1.requests ≡ some q
      there1 = returned h e q taken.found taken.state

      there2 : find h e2.requests ≡ some q
      there2 = returned h e1 q there1 taken.state

      there3 : find h e3.requests ≡ some q
      there3 = returned h e2 q there2 taken.state

-- A socket that can receive, in blocking mode, with no receiving under way.
pub record IsReceiver (s : Sock) : Type 0 where
  pub active : s.active ≡ true
  pub client : s.client ≡ true
  pub server : s.server ≡ false
  pub blocks : s.nonblock ≡ false
  pub waits : s.nbselect ≡ false
  pub idle : s.recv_handle ≡ none

module _ (block_of : Client → Request) (to_vm fd n flags : ℕ) (t : Tcp World) (a : Arrival)
    (later : List Arrival) (v : IsReceiver (get_or t.sockets fd no_sock)) (pos : 0 < n)
    (idle : IsIdle block_of to_vm t.world.client) (come : t.world.arrivals ≡ a ∷ later)
    (ans : IsAnswer (t.world.client.last_msg_id + 1) a) (good : IsPositive a)
    (ok : high_half a.header.w1 ≡ eok) (fits : length a.stored ≤ n) where
  s : Sock
  s = get_or t.sockets fd no_sock

  h : ℕ
  h = handle_of block_of to_vm 48 fd flags t

  -- What a run of recv comes to.
  abbrev Comes : Option (Tcp World × Option (List ℕ)) → Type 0
  Comes o =
      (u : Tcp World) × (o ≡ some (u, some a.stored))
      × (u.sockets ≡ set t.sockets fd (clear_recv (get_or t.sockets fd no_sock)))
      × IsIn mid_free (handle_of block_of to_vm 48 fd flags t) u.world.client

  request : Run World ℕ
  request = filled_request (client block_of to_vm) 48 fd flags (length_bytes n)

  new_sent_for :
      (o : Option ℕ)
      → o ≡ none
      → (if not (is_noted o) && ltb n 1
            then pure []
            else ask_proxy (client block_of to_vm) fd s o request note_recv clear_recv >>= λ reply.
                received (client block_of to_vm) fd n reply)
          t
        ≡ (ask_proxy (client block_of to_vm) fd s none request note_recv clear_recv >>= λ reply.
              received (client block_of to_vm) fd n reply)
            t
  new_sent_for o e = let some_room : ltb n 1 ≡ false = ground arith in rw (e, some_room) refl

  new_sent :
      recv_new (client block_of to_vm) fd s n flags t
      ≡ (ask_proxy (client block_of to_vm) fd s none request note_recv clear_recv >>= λ reply.
            received (client block_of to_vm) fd n reply)
          t
  unfolding recv_new s request
  new_sent = new_sent_for s.recv_handle v.idle

  new-Comes : Comes (recv_new (client block_of to_vm) fd s n flags t)
  unfolding h s request
  new-Comes =
      let (d, made, ready) =
        filled_request-IsReady block_of to_vm 48 fd flags (length_bytes n) t idle in
      let made_now =
        made
        ∙ ap (λ xs. some (with_client d xs t, some (handle_of block_of to_vm 48 fd flags t)))
            come in
      let (e, q, exchanged, taken) =
        exchange_taken block_of to_vm fd s t h d request a later v.blocks v.waits made_now
          t.world.client.last_msg_id ready idle.counter note_recv clear_recv ans good in
      let (u, received_now, table, free) =
        received_whole block_of to_vm fd n h q.user_word1
          (record t { sockets = set t.sockets fd (clear_recv s) }) e a later q taken
          (ap high_half taken.word1 ∙ ok) fits in
      (u, new_sent ∙ (bind_some _ _ exchanged ∙ received_now), table, free)

  by_handle :
      (o : Option ℕ)
      → o ≡ none
      → n ≤ 2048
      → recv_from_handle (client block_of to_vm) fd s o (ℤ.pos n) flags t
        ≡ recv_new (client block_of to_vm) fd s n flags t
  unfolding recv_from_handle
  by_handle o e most = let whole : cut 2048 (ℤ.pos n) ≡ n = ground arith in rw (e, whole) refl

  -- On a connected socket in blocking mode with no receiving under way, over a valid client without
  -- a filter, with no posted event, a new block of memory and fewer than 2 ^ 32 messages sent, a
  -- recv with a buffer of 1 to 2048 bytes, whose positive response is the next arrival, says EOK
  -- and fits the buffer, returns with exactly the bytes of the response; of the table only the
  -- socket's noted request and pending flag are cleared, and the call's request is free.
  pub recv-returns :
      fd < fd_setsize → n ≤ 2048 → Comes (recv (client block_of to_vm) fd (ℤ.pos n) flags t)
  unfolding recv s
  recv-returns inside most =
      let (u, done, table, free) = new-Comes in
      (
        u,
        found fd _ t (ground (arith, v.active))
            ∙ (passed (client block_of to_vm) t s.server _ _ v.server
                ∙ (passed (client block_of to_vm) t (not s.client) _ _ (ground (arith, v.client))
                    ∙ (passed (client block_of to_vm) t (is_other s.recv_handle s.pend_recv) _ _
                          (ap (λ o. is_other o s.pend_recv) v.idle)
                        ∙ (passed (client block_of to_vm) t (is_negative (ℤ.pos n)) _ _ refl
                            ∙ by_handle s.recv_handle v.idle most
                            ∙ done)))),
        table,
        free,
      )
