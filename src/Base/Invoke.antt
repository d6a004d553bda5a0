-- ===== src/Base/Invoke.antt =====
-- cms/ncfbases.c: a service call brings the response back and leaves its request free.
use nicof.Prelude.{
  none, if◌then◌else◌, ℕ, ◌+◌, ◌^◌, ◌<◌, ◌≡◌, ◌∙◌, refl, sym, ap, subst, Bool, true, false, Option,
  some, List, ◌∷◌, arith, length, ltb, Bool-cases, inl, inr, take, overwrite,
}
use nicof.Prelude.Int.{ℤ, to_int}
use nicof.Client.{
  Request, Client, mid_free, mid_new, mid_rtrn, rc_ok, find, on, xlate, clip, collect,
  create_request, set_request_data, free_request,
}
use nicof.Client.Wait.{Arrival, wait_for_response}
use nicof.Client.Validity.{IsValid}
use nicof.Client.Validity.Calls.{IsNewBlock, create_request-IsValid, set_request_data-IsValid}
use nicof.Client.Phases.Find.{find-modify_self}
use nicof.Client.Delivery.{IsAnswer}
use nicof.Client.Delivery.Exchange.{IsPositive, sent_message, send_request-ok}
use nicof.Client.Delivery.Taking.{
  IsIn, free-IsIn, returned, words-returned, data-returned, create_request-new, create_request-rest,
  set_request_data-ok,
}
use nicof.Client.Delivery.Await.{HasTaken, wait-HasTaken}
use nicof.Base.{Ask, Outcome, service_word, filled, invoke_begin, invoke_end, take_response, invoke}

-- What a call gives that is answered.
abbrev pub outcome : Bool → Option (ℕ → ℕ) → Arrival → Outcome
outcome wants_data table a = record {
  rc = to_int a.header.w1;
  ctl_word = some a.header.w2;
  bytes = if wants_data then some (xlate table a.stored) else none;
}

-- A response that has been taken in is handed on, and its request is free.
take_response-HasTaken :
    (h : ℕ) (wants_data : Bool) (table : Option (ℕ → ℕ)) (garbage : ℕ × ℕ) (a : Arrival)
    (c : Client) (q : Request)
    → HasTaken h a c q
    → (d : Client) × (take_response h wants_data table garbage c ≡ (d, outcome wants_data table a))
      × IsIn mid_free h d
unfolding take_response
take_response-HasTaken h false table garbage a c q t = (
  (free_request h (collect h c)).0,
  rw (words-returned h c q t.found t.state, t.word1, t.word2) refl,
  free-IsIn h mid_rtrn (collect h c) (q, returned h c q t.found t.state, t.state) (omega arith),
)
take_response-HasTaken h true table garbage a c q t = (
  (free_request h c2).0,
  rw (words-returned h c q t.found t.state)
      (rw (data-returned h c1 q found t.state table t.fits, t.word1, t.word2, t.bytes) refl),
  free-IsIn h mid_rtrn c2 (q, again, t.state) (omega arith),
)
  where
    c1 : Client
    c1 = collect h c

    c2 : Client
    c2 = collect h c1

    found : find h c1.requests ≡ some q
    found = returned h c q t.found t.state

    again : find h c2.requests ≡ some q
    again = returned h c1 q found t.state

-- A client that is about to send a new request.
pub record IsReady (h last : ℕ) (c : Client) : Type 0 where
  pub valid : IsValid c
  pub found : IsIn mid_new h c
  pub counter : c.last_msg_id ≡ last
  pub open_filter : c.response_filter ≡ 0
  pub clear : c.posted ≡ false

pub set_request_data-IsReady :
    (h last len : ℕ) (bytes : List ℕ) (table : Option (ℕ → ℕ)) (c : Client)
    → IsReady h last c
    → ((set_request_data h len bytes table c).1 ≡ rc_ok)
      × IsReady h last (set_request_data h len bytes table c).0
set_request_data-IsReady h last len bytes table c v =
    (ap (λ x. x.1) did, subst (IsReady h last) (sym (ap (λ x. x.0) did)) after)
  where
    r : Request
    r = v.found.0

    fill : Request → Request
    fill p = record p {
      buf = overwrite (xlate table (take (clip len) bytes)) p.buf;
      data_len = clip len;
    }

    did : set_request_data h len bytes table c ≡ (on h fill c, rc_ok)
    did = set_request_data-ok h len bytes table c r v.found.1 v.found.2

    after : IsReady h last (on h fill c)
    after = record {
      valid =
          subst IsValid (ap (λ x. x.0) did) (set_request_data-IsValid h len bytes table c v.valid);
      found = (fill r, find-modify_self h fill c.requests r (λ p. refl) v.found.1, v.found.2);
      counter = v.counter;
      open_filter = v.open_filter;
      clear = v.clear;
    }

pub filled-IsReady :
    (h last : ℕ) (q : Ask) (c : Client)
    → IsReady h last c
    → ((filled h q c).1 ≡ rc_ok) × IsReady h last (filled h q c).0
unfolding filled
filled-IsReady h last q c v = elim (Bool-cases (ltb 0 (length q.bytes))) [
  | inl t ↦ rw t (set_request_data-IsReady h last (length q.bytes) q.bytes q.table c v)
  | inr t ↦ rw t (refl, v)
]

pub created-IsReady :
    (w1 w2 : ℕ) (block : Request) (c : Client)
    → IsValid c
    → IsNewBlock block c
    → c.response_filter ≡ 0
    → c.posted ≡ false
    → let (d, h) = create_request w1 w2 block c in IsReady h c.last_msg_id d
created-IsReady w1 w2 block c v new o f =
    let (r, e, n, _, _, _) = create_request-new w1 w2 block c v in
    let (last, filter, posted) = create_request-rest w1 w2 block c in
    record {
      valid = create_request-IsValid w1 w2 block c new v;
      found = (r, e, n);
      counter = last;
      open_filter = filter ∙ o;
      clear = posted ∙ f;
    }

-- The handle that ncf_010 gives for a call.
abbrev pub handle_for : Ask → Request → Client → ℕ
handle_for q block c = (create_request (service_word q.svc_id q.svc_cmd) q.ctl_word block c).1

begun :
    (q : Ask) (block : Request) (to_vm : ℕ) (c : Client) (h : ℕ) (b d : Client)
    → create_request (service_word q.svc_id q.svc_cmd) q.ctl_word block c ≡ (b, h)
    → filled h q b ≡ (d, rc_ok)
    → IsIn mid_new h d
    → d.last_msg_id + 1 < 2 ^ 32
    → invoke_begin q block to_vm 0 c ≡ (sent_message h d, some h, ℤ.pos 0)
unfolding invoke_begin
begun q block to_vm c h b d made fill (r, e, n) k =
    rw made (rw fill (rw (send_request-ok h to_vm d r e n k) refl))

invoke_end-eq :
    (h : ℕ) (wants_data : Bool) (table : Option (ℕ → ℕ)) (garbage : ℕ × ℕ)
    (arrivals later : List Arrival) (c b d : Client) (out : Outcome)
    → wait_for_response h arrivals c ≡ some (b, rc_ok, later)
    → take_response h wants_data table garbage b ≡ (d, out)
    → invoke_end h wants_data table garbage arrivals c ≡ some (d, out, later)
unfolding invoke_end
invoke_end-eq h wants_data table garbage arrivals later c b d out w t =
    rw (w, invoke_end) (rw (t, invoke_end) refl)

invoke-eq :
    (q : Ask) (block : Request) (to_vm send_rc : ℕ) (wants_data : Bool) (table : Option (ℕ → ℕ))
    (garbage : ℕ × ℕ) (arrivals : List Arrival) (c b : Client) (h : ℕ)
    → invoke_begin q block to_vm send_rc c ≡ (b, some h, ℤ.pos 0)
    → invoke q block to_vm send_rc wants_data table garbage arrivals c
      ≡ invoke_end h wants_data table garbage arrivals b
unfolding invoke
invoke-eq q block to_vm send_rc wants_data table garbage arrivals c b h e =
    rw (e, invoke) (ap (λ x. invoke_end h wants_data table garbage arrivals x.0) e)

ended :
    (h last : ℕ) (wants_data : Bool) (table : Option (ℕ → ℕ)) (garbage : ℕ × ℕ) (a : Arrival)
    (later : List Arrival) (c : Client)
    → IsReady h last c
    → last + 1 < 2 ^ 32
    → IsAnswer (last + 1) a
    → IsPositive a
    → (d : Client) × (invoke_end h wants_data table garbage (a ∷ later) (sent_message h c)
        ≡ some (d, outcome wants_data table a, later))
      × IsIn mid_free h d
ended h last wants_data table garbage a later c v k ans good =
    let (r, e, n) = v.found in
    let (b, q, waited, taken) =
      wait-HasTaken h c r a later v.valid e n v.open_filter v.clear (omega (arith, v.counter))
        (subst (λ m. IsAnswer (m + 1) a) (sym v.counter) ans) good in
    let (d, took, free) = take_response-HasTaken h wants_data table garbage a b q taken in
    (
      d,
      invoke_end-eq h wants_data table garbage (a ∷ later) later (sent_message h c) b d _ waited
          took,
      free,
    )

-- In a valid client without a filter and with no posted event, for a new block of memory and fewer
-- than 2 ^ 32 messages sent, a synchronous service call whose SEND/RECV CP accepts and whose
-- positive response is the next arrival returns with the first word of the response as return code,
-- the second as control word and, where they are wanted, the response's bytes, translated; the
-- call's request is then free.
pub invoke-returns :
    (q : Ask) (block : Request) (to_vm : ℕ) (wants_data : Bool) (table : Option (ℕ → ℕ))
    (garbage : ℕ × ℕ) (a : Arrival) (later : List Arrival) (c : Client)
    → IsValid c
    → IsNewBlock block c
    → c.response_filter ≡ 0
    → c.posted ≡ false
    → c.last_msg_id + 1 < 2 ^ 32
    → IsAnswer (c.last_msg_id + 1) a
    → IsPositive a
    → (d : Client) × (invoke q block to_vm 0 wants_data table garbage (a ∷ later) c
        ≡ some (d, outcome wants_data table a, later))
      × IsIn mid_free (handle_for q block c) d
invoke-returns q block to_vm wants_data table garbage a later c v new o f k ans good =
    let start =
      begun q block to_vm c h b d refl (ap (λ x. (d, x)) fill.0) fill.1.found
        (omega (arith, fill.1.counter)) in
    let (e, done, free) =
      ended h c.last_msg_id wants_data table garbage a later d fill.1 k ans good in
    (
      e,
      invoke-eq q block to_vm 0 wants_data table garbage (a ∷ later) c (sent_message h d) h start
          ∙ done,
      free,
    )
  where
    h : ℕ
    h = handle_for q block c

    b : Client
    b = (create_request (service_word q.svc_id q.svc_cmd) q.ctl_word block c).0

    d : Client
    d = (filled h q b).0

    fill : ((filled h q b).1 ≡ rc_ok) × IsReady h c.last_msg_id d
    fill =
        filled-IsReady h c.last_msg_id q b
          (created-IsReady (service_word q.svc_id q.svc_cmd) q.ctl_word block c v new o f)
