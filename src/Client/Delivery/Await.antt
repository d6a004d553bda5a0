-- ===== src/Client/Delivery/Await.antt =====
-- cms/nicofclt.c: a request that has been sent, up to the end of the wait for its response.
use nicof.Prelude.{
  ℕ, ◌+◌, ◌-◌, ◌^◌, ◌≤◌, ◌<◌, ◌≡◌, ◌∙◌, refl, ap, subst, false, some, List, ◌∷◌, arith, length,
  take, overwrite, take-append,
}
use nicof.Client.{Request, Client, max_packet_len, mid_new, mid_rcvd, mid_rtrn, rc_ok, find, on}
use nicof.Client.Wait.{Arrival, arrive, wait_for_response}
use nicof.Client.Validity.{IsValid}
use nicof.Client.Validity.Calls.{send_request-IsValid}
use nicof.Client.Phases.Find.{find-modify_self}
use nicof.Client.Delivery.{IsAnswer, find-arrive, arrive-answer, answered, after_answer, stored_in}
use nicof.Client.Delivery.Exchange.{IsPositive, sent_message, send_request-ok, respond_positive}
use nicof.Client.Delivery.Taking.{wait_next}

-- The request behind `h` has been given the positive response of `a`.
pub record HasTaken (h : ℕ) (a : Arrival) (d : Client) (q : Request) : Type 0 where
  pub found : find h d.requests ≡ some q
  pub state : q.msg_id ≡ mid_rtrn
  pub word1 : q.user_word1 ≡ a.header.w1
  pub word2 : q.user_word2 ≡ a.header.w2
  pub fits : q.data_len ≤ max_packet_len
  pub size : q.data_len ≡ length a.stored
  pub bytes : take q.data_len q.buf ≡ a.stored

pub wait-HasTaken :
    (h : ℕ) (c : Client) (r : Request) (a : Arrival) (later : List Arrival)
    → IsValid c
    → find h c.requests ≡ some r
    → r.msg_id ≡ mid_new
    → c.response_filter ≡ 0
    → c.posted ≡ false
    → c.last_msg_id + 1 < 2 ^ 32
    → IsAnswer (c.last_msg_id + 1) a
    → IsPositive a
    → (d : Client) × (q : Request) × (wait_for_response h (a ∷ later) (sent_message h c)
        ≡ some (d, rc_ok, later))
      × HasTaken h a d q
unfolding sent_message
wait-HasTaken h c r a later v e n o f k ans good = (
  taken,
  record q { msg_id = mid_rtrn },
  wait_next h a later s sent q sent-found (omega (arith, v.counter)) f there
        (ap (λ p. p.msg_id) shape) (ap (λ p. p.posted) arrived ∙ ground (arith, o))
      ∙ ap (λ x. some (taken, x, later)) (ap (λ p. p.recv_rc) shape),
  record {
    found =
        find-modify_self h (λ p. record p { msg_id = mid_rtrn }) (arrive a s).requests q (λ p. refl)
          there;
    state = refl;
    word1 = ap (λ p. p.user_word1) shape;
    word2 = ap (λ p. p.user_word2) shape;
    fits = ground (arith, shape);
    size = ap (λ p. p.data_len) shape ∙ len;
    bytes = rw (shape, len) (take-append a.stored _);
  },
)
  where
    s : Client
    s = sent_message h c

    sent : Request
    sent = record r { msg_id = c.last_msg_id + 1 }

    q : Request
    q = answered a sent

    taken : Client
    taken = on h (λ p. record p { msg_id = mid_rtrn }) (record (arrive a s) { posted = false })

    valid : IsValid s
    valid =
        subst IsValid (ap (λ x. x.0) (send_request-ok h 0 c r e n k))
          (send_request-IsValid h 0 0 c k v)

    sent-found : find h s.requests ≡ some sent
    sent-found = find-modify_self h _ c.requests r (λ p. refl) e

    arrived : arrive a s ≡ after_answer h sent a s
    arrived = arrive-answer h sent s a valid sent-found (omega (arith, v.counter)) ans

    there : find h (arrive a s).requests ≡ some q
    there = find-arrive h h sent s a valid sent-found (omega (arith, v.counter)) ans ∙ ground arith

    shape : q ≡ record sent {
      recv_rc = rc_ok;
      data_len = max_packet_len - a.header.lenb;
      user_word1 = a.header.w1;
      user_word2 = a.header.w2;
      msg_id = mid_rcvd;
      buf = overwrite a.stored r.buf;
    }
    shape =
        respond_positive a.header (stored_in a sent) good.accepted good.final
          (omega (arith, good.counted))

    len : max_packet_len - a.header.lenb ≡ length a.stored
    len = omega (arith, good.counted)
