-- ===== src/Client/Delivery/Exchange.antt =====
-- cms/nicofclt.c: a request's whole way, from the send to the response's data.
use nicof.Prelude.{
  ℕ, ◌+◌, ◌-◌, ◌^◌, ◌%◌, ◌≤◌, ◌<◌, ◌≡◌, ◌∙◌, refl, ap, subst, true, false, none, some, arith, ◌==◌,
  if◌then◌else◌, overwrite, length, take, take-append,
}
use nicof.Client.{
  Request, Client, mid_new, mid_rcvd, mid_rtrn, max_packet_len, rc_ok, find, on, send_request,
  get_response_user_words, get_response_data, collect, with_request,
}
use nicof.Client.Wait.{Arrival, Vmcmhdr, arrive, respond}
use nicof.Client.Validity.{IsValid}
use nicof.Client.Validity.Calls.{send_request-IsValid}
use nicof.Client.Phases.Find.{find-modify_self, find-me}
use nicof.Client.Delivery.{IsAnswer, find-arrive, answered, stored_in}

-- A positive response that carries `a.stored` and the user words of its header.
pub record IsPositive (a : Arrival) : Type 0 where
  pub accepted : a.header.rejected ≡ false
  pub final : a.header.answered ≡ true
  pub counted : length a.stored + a.header.lenb ≡ max_packet_len

unfoldable pub sent_message : ℕ → Client → Client
sent_message h c = record (on h (λ r. record r { msg_id = c.last_msg_id + 1 }) c) {
  last_msg_id = c.last_msg_id + 1;
}

pub send_request-ok :
    (h to_vm : ℕ) (c : Client) (r : Request)
    → find h c.requests ≡ some r
    → r.msg_id ≡ mid_new
    → c.last_msg_id + 1 < 2 ^ 32
    → send_request h to_vm 0 c ≡ (
      sent_message h c,
      rc_ok,
      some (record {
        user = to_vm;
        data_of = h;
        lena = r.data_len;
        lenb = max_packet_len;
        w1 = r.user_word1;
        w2 = r.user_word2;
        mid = c.last_msg_id + 1;
      }),
    )
unfolding send_request sent_message
send_request-ok h to_vm c r e n k = simp no_wrap (ground (arith, find-me h c.requests r e))
  where
    no_wrap : (c.last_msg_id + 1) % 2 ^ 32 ≡ c.last_msg_id + 1
    no_wrap = omega arith

module _ (h : ℕ) (c : Client) (r : Request) (e : find h c.requests ≡ some r)
    (n : r.msg_id ≡ mid_rcvd) where
  collected_request : Request
  collected_request = record r { msg_id = mid_rtrn }

  find-collect : find h (collect h c).requests ≡ some collected_request
  unfolding collected_request
  find-collect =
      find-modify_self h (λ q. if q.msg_id == mid_rcvd then record q { msg_id = mid_rtrn } else q)
        c.requests r (λ q. ground arith) e
      ∙ ground arith

  pub words-received : (get_response_user_words h c).2 ≡ some (r.user_word1, r.user_word2)
  unfolding get_response_user_words collected_request
  words-received = rw (find-collect, with_request)

  pub data-received :
      r.data_len ≤ max_packet_len
      → (get_response_data h max_packet_len none 0 c).2 ≡ some (take r.data_len r.buf)
  unfolding get_response_data collected_request
  data-received fits = ground (arith, find-collect)

pub respond_positive :
    (m : Vmcmhdr) (r : Request)
    → m.rejected ≡ false
    → m.answered ≡ true
    → m.lenb ≤ max_packet_len
    → respond m r ≡ record r {
      recv_rc = rc_ok;
      data_len = max_packet_len - m.lenb;
      user_word1 = m.w1;
      user_word2 = m.w2;
      msg_id = mid_rcvd;
    }
unfolding respond
respond_positive m r x y l = ground arith

-- In a valid client with fewer than 2 ^ 32 messages sent, the send of a new request that CP accepts
-- hands CP the request's own words, data length and buffer under the next message number; once an
-- arrival answers that message with a positive response whose lengths agree, the client reads
-- exactly the words and the bytes of the response.
pub exchange :
    (h to_vm : ℕ) (c : Client) (r : Request) (a : Arrival)
    → IsValid c
    → find h c.requests ≡ some r
    → r.msg_id ≡ mid_new
    → c.last_msg_id + 1 < 2 ^ 32
    → IsAnswer (c.last_msg_id + 1) a
    → IsPositive a
    → let out = send_request h to_vm 0 c in
      let d = arrive a out.0 in
      (out.2
        ≡ some (record {
          user = to_vm;
          data_of = h;
          lena = r.data_len;
          lenb = max_packet_len;
          w1 = r.user_word1;
          w2 = r.user_word2;
          mid = c.last_msg_id + 1;
        }))
      × ((get_response_user_words h d).2 ≡ some (a.header.w1, a.header.w2))
      × ((get_response_data h max_packet_len none 0 d).2 ≡ some a.stored)
unfolding sent_message
exchange h to_vm c r a v e n k ans good = rw (send_request-ok h to_vm c r e n k) (
  refl,
  words-received h d q there (ap (λ p. p.msg_id) shape)
      ∙ ap (λ (p : Request). some (p.user_word1, p.user_word2)) shape,
  data-received h d q there (ap (λ p. p.msg_id) shape) (ground (arith, shape)) ∙ ap some bytes,
)
  where
    sent : Request
    sent = record r { msg_id = c.last_msg_id + 1 }

    d : Client
    d = arrive a (sent_message h c)

    q : Request
    q = answered a sent

    sent-found : find h (sent_message h c).requests ≡ some sent
    sent-found = find-modify_self h _ c.requests r (λ p. refl) e

    there : find h d.requests ≡ some q
    there =
        find-arrive h h sent (sent_message h c) a
          (subst IsValid (ap (λ o. o.0) (send_request-ok h to_vm c r e n k))
            (send_request-IsValid h to_vm 0 c k v))
          sent-found (omega (arith, v.counter)) ans
        ∙ ground arith

    shape : q ≡ record sent {
      recv_rc = rc_ok;
      data_len = max_packet_len - a.header.lenb;
      user_word1 = a.header.w1;
      user_word2 = a.header.w2;
      msg_id = mid_rcvd;
      buf = overwrite a.stored r.buf;
    }
    shape =
        respond_positive a.header (stored_in a sent) good.accepted good.final
          (omega (arith, good.counted))

    len : max_packet_len - a.header.lenb ≡ length a.stored
    len = omega (arith, good.counted)

    bytes : take q.data_len q.buf ≡ a.stored
    bytes = rw (shape, len) (take-append a.stored _)
