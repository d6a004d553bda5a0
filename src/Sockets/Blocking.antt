-- ===== src/Sockets/Blocking.antt =====
-- cms/ncfsockt.c over cms/nicofclt.c: a call on a socket in blocking mode sends its request, waits
-- for the response and brings it back.
pub mod Receiving
use nicof.Prelude.{
  ℕ, ◌+◌, ◌*◌, ◌^◌, ◌<◌, ◌≤◌, ◌≡◌, ◌∙◌, refl, sym, ap, subst, Bool, true, false, not, ◌&&◌, ◌||◌,
  Option, none, some, List, [], ◌∷◌, arith, length, set, get_or, take, ltb, ◌==◌, if◌then◌else◌,
}
use nicof.Prelude.Int.{ℤ, to_int, is_zero}
use nicof.Client.{
  Request, Client, rc_ok, collect, mid_new, mid_free, mid_rtrn, create_request, set_request_data,
  find,
}
use nicof.Client
use nicof.Client.Wait.{Arrival, wait_for_response}
use nicof.Client.Validity.{IsValid}
use nicof.Client.Validity.Calls.{IsNewBlock}
use nicof.Client.Delivery.{IsAnswer}
use nicof.Client.Delivery.Exchange.{IsPositive, sent_message, send_request-ok}
use nicof.Client.Delivery.Taking.{
  IsIn, free-IsIn, returned, words-returned, length-returned, part-returned,
}
use nicof.Client.Delivery.Await.{HasTaken, wait-HasTaken}
use nicof.Base.Invoke.{IsReady, created-IsReady, set_request_data-IsReady}
use nicof.Sockets.{fd_setsize, eok}
use nicof.Sockets.Requests.{
  Requests, Sock, no_sock, Tcp, Run, high_half, low_half, pure, ◌>>=◌, ◌>>◌, get_sock, update,
  new_sock_request, attempt, attempt_wait, free_request, posted, reached, unless_pending, ask_proxy,
  unless_refused, refuse_if,
}
use nicof.Sockets.Transfer.{
  is_noted, cut, length_bytes, note_recv, clear_recv, filled_request, received, recv_new,
  recv_from_handle, recv,
}
use nicof.Sockets.Over.{World, client_requests, words_of, length_of, bytes_of}
use nicof.Sockets.Refused.{found, passed}

module _ {S A B : Type 0} where
  pub bind_some :
      (m : Run S A) (f : A → Run S B) {t u : Tcp S} {a : A}
      → m t ≡ some (u, some a)
      → (m >>= f) t ≡ f a u
  unfolding ◌>>=◌
  bind_some m f e = rw (e, ◌>>=◌) refl

module _ {S A : Type 0} (r : Requests S) where
  pub attempt_ok :
      (h : ℕ) (op : S → S × ℤ × A) (t : Tcp S) (w : S) (a : A)
      → op t.world ≡ (w, rc_ok, a)
      → attempt r h op t ≡ some (record t { world = w; errno = rc_ok }, some a)
  unfolding attempt
  attempt_ok h op t w a e = rw (e, attempt) refl

abbrev pub world_of : Client → List Arrival → List ℕ → World
world_of c arrivals timers = record { client = c; arrivals = arrivals; timers = timers }

-- The state with another client and other arrivals, and no error.
abbrev pub with_client : Client → List Arrival → Tcp World → Tcp World
with_client c arrivals t = record t { world = world_of c arrivals t.world.timers; errno = rc_ok }

module _ (block_of : Client → Request) (to_vm : ℕ) where
  abbrev pub client : Requests World
  client = client_requests block_of to_vm

  -- The handle that a call's request gets.
  abbrev pub handle_of : (cmd fd w2 : ℕ) → Tcp World → ℕ
  handle_of cmd fd w2 t =
      (create_request (low_half cmd * 2 ^ 16 + low_half fd) w2 (block_of t.world.client)
        t.world.client).1

  -- A client that can make one more exchange.
  pub record IsIdle (c : Client) : Type 0 where
    pub valid : IsValid c
    pub room : IsNewBlock (block_of c) c
    pub open_filter : c.response_filter ≡ 0
    pub clear : c.posted ≡ false
    pub counter : c.last_msg_id + 1 < 2 ^ 32

  pub made :
      (cmd fd w2 : ℕ) (t : Tcp World)
      → new_sock_request client cmd fd w2 t
        ≡ some (
          record t {
            world = record t.world {
              client =
                  (create_request
                    (low_half cmd * 2 ^ 16 + low_half fd)
                    w2
                    (block_of t.world.client)
                    t.world.client).0;
            };
          },
          some (handle_of cmd fd w2 t),
        )
  unfolding new_sock_request client_requests
  made cmd fd w2 t = refl

  pub filling :
      (h : ℕ) (bytes : List ℕ) (w : World)
      → (set_request_data h (length bytes) bytes none w.client).1 ≡ rc_ok
      → client.fill h bytes w ≡ (
        record w { client = (set_request_data h (length bytes) bytes none w.client).0 },
        rc_ok,
        tt,
      )
  unfolding client_requests
  filling h bytes w e =
      ap
        (λ x.
          (record w { client = (set_request_data h (length bytes) bytes none w.client).0 }, x, tt))
        e

  pub filled_request-IsReady :
      (cmd fd w2 : ℕ) (bytes : List ℕ) (t : Tcp World)
      → IsIdle t.world.client
      → (d : Client) × (filled_request client cmd fd w2 bytes t
          ≡ some (with_client d t.world.arrivals t, some (handle_of cmd fd w2 t)))
        × IsReady (handle_of cmd fd w2 t) t.world.client.last_msg_id d
  unfolding filled_request pure
  filled_request-IsReady cmd fd w2 bytes t v = (
    d,
    bind_some _ _ (made cmd fd w2 t)
        ∙ bind_some _ _
            (attempt_ok client h (client.fill h bytes) _ _ tt (filling h bytes _ fill.0)),
    fill.1,
  )
    where
      c : Client
      c = t.world.client

      h : ℕ
      h = handle_of cmd fd w2 t

      b : Client
      b = (create_request (low_half cmd * 2 ^ 16 + low_half fd) w2 (block_of c) c).0

      d : Client
      d = (set_request_data h (length bytes) bytes none b).0

      fill :
          ((set_request_data h (length bytes) bytes none b).1 ≡ rc_ok) × IsReady h c.last_msg_id d
      fill =
          set_request_data-IsReady h c.last_msg_id (length bytes) bytes none b
            (created-IsReady _ w2 (block_of c) c v.valid v.room v.open_filter v.clear)

  pub sending :
      (h : ℕ) (d : Client) (arrivals : List Arrival) (timers : List ℕ)
      → IsIn mid_new h d
      → d.last_msg_id + 1 < 2 ^ 32
      → client.send h (world_of d arrivals timers)
        ≡ (world_of (sent_message h d) arrivals timers, rc_ok, tt)
  unfolding client_requests
  sending h d arrivals timers (q, e, n) k =
      ap (λ x. (world_of x.0 arrivals timers, x.1, tt)) (send_request-ok h to_vm d q e n k)

  pub awaiting :
      (h : ℕ) (d e : Client) (arrivals rest : List Arrival) (timers : List ℕ)
      → wait_for_response h arrivals d ≡ some (e, rc_ok, rest)
      → client.await h (world_of d arrivals timers) ≡ some (world_of e rest timers, rc_ok)
  unfolding client_requests
  awaiting h d e arrivals rest timers p = rw p refl

  pub waited :
      (h : ℕ) (t : Tcp World) (w : World)
      → client.await h t.world ≡ some (w, rc_ok)
      → attempt_wait client h t ≡ some (record t { world = w; errno = rc_ok }, some tt)
  unfolding attempt_wait
  waited h t w e = rw (e, attempt_wait) refl

  module _ (h : ℕ) (c : Client) (q : Request) (arrivals : List Arrival) (timers : List ℕ)
      (there : find h c.requests ≡ some q) (state : q.msg_id ≡ mid_rtrn) where
    pub wording :
        client.words h (world_of c arrivals timers)
        ≡ (world_of (collect h c) arrivals timers, rc_ok, (q.user_word1, q.user_word2))
    unfolding client_requests
    wording =
        ap (λ x. (world_of x.0 arrivals timers, x.1, words_of x.2))
          (words-returned h c q there state)

    pub measuring :
        q.data_len ≤ 2048
        → client.data_length h (world_of c arrivals timers)
          ≡ (world_of (collect h c) arrivals timers, rc_ok, q.data_len)
    unfolding client_requests
    measuring fits =
        ap (λ x. (world_of x.0 arrivals timers, x.1, length_of x.2))
          (length-returned h c q there state fits)

    pub fetching :
        (room : ℕ)
        → q.data_len ≤ room
        → client.bytes h room 0 (world_of c arrivals timers)
          ≡ (world_of (collect h c) arrivals timers, rc_ok, take q.data_len q.buf)
    unfolding client_requests
    fetching room fits =
        ap (λ x. (world_of x.0 arrivals timers, x.1, bytes_of x.2))
          (part-returned h c q there state room fits)
