-- ===== src/Client/Delivery/Waiting.antt =====
-- cms/nicofclt.c: the wait for a response ends once its response has arrived.
use nicof.Prelude.{
  ℕ, zero, suc, ◌≤◌, ◌<◌, ◌≡◌, ◌∙◌, refl, ap, ◌⊎◌, inl, inr, Bool, true, false, ◌&&◌, Option, none,
  some, List, [], ◌∷◌, All, arith, ◌==◌, Bool-cases, length,
}
use nicof.Prelude.Int.{ℤ}
use nicof.Client.{Request, Client, mid_pend, mid_rcvd, mid_rtrn, modify, find, on}
use nicof.Client.Wait.{
  Arrival, Vmcmhdr, vmcf_interrupt, vmcpsenr, respond, handle_ext, arrive, wait_for_vmcf_response,
  wait_received, wait_for_response,
}
use nicof.Client.Validity.{IsValid}
use nicof.Client.Validity.Calls.{IsReply, arrive-IsValid}
use nicof.Client.Phases.{respond_facts}
use nicof.Client.Phases.Find.{find-modify, find-modify_self}
use nicof.Client.Delivery.{IsAnswer, arrive-answer, answered, answered-me, after_answer, stored_in}

-- Some arrival of the list answers message `m`.
abbrev pub HasAnswer : ℕ → List Arrival → Type 0
HasAnswer m [] = ⊥
HasAnswer m (a ∷ later) = IsAnswer m a ⊎ HasAnswer m later

-- The request behind `h` waits for message `m`, and nothing filters responses.
pub record IsWaiting (h m : ℕ) (c : Client) : Type 0 where
  pub valid : IsValid c
  pub open_filter : c.response_filter ≡ 0
  pub sent : mid_pend < m
  pub found : (r : Request) × (find h c.requests ≡ some r) × (r.msg_id ≡ m)

-- Its response has arrived.
pub record HasArrived (h : ℕ) (c : Client) : Type 0 where
  pub valid : IsValid c
  pub found : (r : Request) × (find h c.requests ≡ some r) × (r.msg_id ≡ mid_rcvd)

pub filter-arrive : (a : Arrival) (c : Client) → (arrive a c).response_filter ≡ c.response_filter
unfolding arrive handle_ext
filter-arrive a c = ground arith

handle_ext-keeps :
    (h : ℕ) (m : Vmcmhdr) (c : Client) (r : Request)
    → find h c.requests ≡ some r
    → (m.intr_code == vmcf_interrupt && m.func == vmcpsenr && m.mid == r.msg_id) ≡ false
    → find h (handle_ext m c).requests ≡ some r
unfolding handle_ext
handle_ext-keeps h m c r e b = ground (arith, kept)
  where
    kept :
        (r.msg_id == m.mid) ≡ false
        → find h (modify (λ q. q.msg_id == m.mid) (respond m) c.requests) ≡ some r
    kept n =
        elim (find-modify h (λ q. q.msg_id == m.mid) (respond m) c.requests r
          (λ q. (respond_facts m q).0) e) [ inl same ↦ same | inr (t, _) ↦ absurd (ground arith) ]

answer-HasArrived :
    (h m : ℕ) (a : Arrival) (c : Client)
    → IsReply a
    → IsWaiting h m c
    → IsAnswer m a
    → HasArrived h (arrive a c) × ((arrive a c).posted ≡ true)
answer-HasArrived h m a c g w ans =
    let (r, e, n) = w.found in
    let step : arrive a c ≡ after_answer h r a c =
      arrive-answer h r c a w.valid e (rw n w.sent) (rw n ans) in
    (
      record {
        valid = arrive-IsValid a c g w.valid;
        found = (
          answered a r,
          ap (λ d. find h d.requests) step
              ∙ find-modify_self h (answered a) c.requests r (answered-me a) e,
          (respond_facts a.header (stored_in a r)).1,
        );
      },
      ground (arith, step, w.open_filter),
    )

is_answer : ℕ → Arrival → Bool
is_answer m a =
    a.header.intr_code == vmcf_interrupt && a.header.func == vmcpsenr && a.header.mid == m

is_answer-IsAnswer : (m : ℕ) (a : Arrival) → is_answer m a ≡ true → IsAnswer m a
unfolding is_answer
is_answer-IsAnswer m a e = ground arith

later_answer :
    (m : ℕ) (a : Arrival) (later : List Arrival)
    → HasAnswer m (a ∷ later)
    → is_answer m a ≡ false
    → HasAnswer m later
unfolding is_answer
later_answer m a later (inl ans) t = absurd (ground (arith, ans.code, ans.func, ans.mid))
later_answer m a later (inr more) t = more

-- Another request's response leaves this one waiting.
other-found :
    (h : ℕ) (a : Arrival) (c : Client) (r : Request)
    → find h c.requests ≡ some r
    → is_answer r.msg_id a ≡ false
    → (q : Request) × (find h (arrive a c).requests ≡ some q) × (q.msg_id ≡ r.msg_id)
unfolding arrive is_answer
other-found h a c r e b = elim (find-modify h _ (stored_in a) c.requests r (λ q. refl) e) [
  | inl same ↦ (r, handle_ext-keeps h a.header _ r same b, refl)
  | inr (t, there) ↦ (stored_in a r, handle_ext-keeps h a.header _ (stored_in a r) there b, refl)
]

other-IsWaiting :
    (h m : ℕ) (a : Arrival) (c : Client)
    → IsReply a
    → IsWaiting h m c
    → is_answer m a ≡ false
    → IsWaiting h m (arrive a c)
other-IsWaiting h m a c g w b =
    let (r, e, n) = w.found in
    let (q, f, k) = other-found h a c r e (rw n b) in
    record {
      valid = arrive-IsValid a c g w.valid;
      open_filter = filter-arrive a c ∙ w.open_filter;
      sent = w.sent;
      found = (q, f, k ∙ n);
    }

-- One wait on the ECB ends with the response there, or still to come among fewer arrivals.
abbrev Progress : ℕ → ℕ → ℕ → Option (Client × List Arrival) → Type 0
Progress h m n none = ⊥
Progress h m n (some (c, rest)) =
    (c.posted ≡ false)
    × All IsReply rest
    × (HasArrived h c ⊎ IsWaiting h m c × HasAnswer m rest × (length rest < n))

module _ (h m : ℕ) where
  clear-IsWaiting : (c : Client) → IsWaiting h m c → IsWaiting h m (record c { posted = false })
  clear-IsWaiting c w = record {
    valid = record { slots = w.valid.slots; apart = w.valid.apart; counter = w.valid.counter };
    open_filter = w.open_filter;
    sent = w.sent;
    found = w.found;
  }

  clear-HasArrived : (c : Client) → HasArrived h c → HasArrived h (record c { posted = false })
  clear-HasArrived c w = record {
    valid = record { slots = w.valid.slots; apart = w.valid.apart; counter = w.valid.counter };
    found = w.found;
  }

  arrived-Progress :
      (n : ℕ) (arrivals : List Arrival) (c : Client)
      → All IsReply arrivals
      → HasArrived h c
      → c.posted ≡ true
      → Progress h m n (wait_for_vmcf_response arrivals c)
  unfolding wait_for_vmcf_response
  arrived-Progress n [] c g w p = rw p (refl, tt, inl (clear-HasArrived c w))
  arrived-Progress n (a ∷ later) c g w p = rw p (refl, g, inl (clear-HasArrived c w))

  posted-Progress :
      (n : ℕ) (arrivals : List Arrival) (c : Client)
      → length arrivals < n
      → All IsReply arrivals
      → IsWaiting h m c
      → HasAnswer m arrivals
      → c.posted ≡ true
      → Progress h m n (wait_for_vmcf_response arrivals c)
  unfolding wait_for_vmcf_response
  posted-Progress n [] c k g w has p = absurd has
  posted-Progress n (a ∷ later) c k g w has p = rw p (refl, g, inr (clear-IsWaiting c w, has, k))

  wait_unposted :
      (a : Arrival) (later : List Arrival) (c : Client)
      → c.posted ≡ false
      → wait_for_vmcf_response (a ∷ later) c ≡ wait_for_vmcf_response later (arrive a c)
  unfolding wait_for_vmcf_response
  wait_unposted a later c p = simp p

  wait-Progress :
      (n : ℕ) (arrivals : List Arrival) (c : Client)
      → length arrivals ≤ n
      → All IsReply arrivals
      → IsWaiting h m c
      → HasAnswer m arrivals
      → c.posted ≡ false
      → Progress h m n (wait_for_vmcf_response arrivals c)
  wait-Progress n [] c k g w has p = absurd has
  wait-Progress n (a ∷ later) c k g w has p =
      rw (wait_unposted a later c p) (elim (Bool-cases (is_answer m a)) [
        | inl t ↦
            let there = answer-HasArrived h m a c g.0 w (is_answer-IsAnswer m a t) in
            arrived-Progress n later (arrive a c) g.1 there.0 there.1
        | inr t ↦
            let still = other-IsWaiting h m a c g.0 w t in
            let more = later_answer m a later has t in
            elim (Bool-cases (arrive a c).posted) [
              | inl b ↦ posted-Progress n later (arrive a c) (omega arith) g.1 still more b
              | inr b ↦ wait-Progress n later (arrive a c) (omega arith) g.1 still more b
            ]
      ])

  received_now :
      (fuel : ℕ) (arrivals : List Arrival) (c : Client) (r : Request)
      → find h c.requests ≡ some r
      → r.msg_id ≡ mid_rcvd
      → wait_received (suc fuel) h arrivals c
        ≡ some (on h (λ q. record q { msg_id = mid_rtrn }) c, r.recv_rc, arrivals)
  unfolding wait_received
  received_now fuel arrivals c r e n = ground arith

  received_later :
      (fuel : ℕ) (arrivals rest : List Arrival) (c c' : Client) (r : Request)
      → find h c.requests ≡ some r
      → r.msg_id ≡ m
      → mid_pend < m
      → wait_for_vmcf_response arrivals c ≡ some (c', rest)
      → wait_received (suc fuel) h arrivals c ≡ wait_received fuel h rest c'
  unfolding wait_received
  received_later fuel arrivals rest c c' r e n p w = ground arith

  abbrev Returns : Option (Client × ℤ × List Arrival) → Type 0
  Returns o = (out : Client × ℤ × List Arrival) × (o ≡ some out)

  abbrev Within : ℕ → List Arrival → Client → Type 0
  Within fuel arrivals c =
      HasArrived h c ⊎ IsWaiting h m c × HasAnswer m arrivals × (length arrivals ≤ fuel)

  -- The rounds of ncf_030: as many as there are arrivals, and one to see the response.
  received :
      (fuel : ℕ) (arrivals : List Arrival) (c : Client)
      → All IsReply arrivals
      → c.posted ≡ false
      → Within fuel arrivals c
      → Returns (wait_received (suc fuel) h arrivals c)
  received fuel arrivals c g p (inl there) =
      let (r, e, n) = there.found in (_, received_now fuel arrivals c r e n)
  received zero [] c g p (inr (w, has, k)) = absurd has
  received zero (a ∷ later) c g p (inr (w, has, k)) = absurd (omega arith)
  received (suc fuel) arrivals c g p (inr (w, has, k)) =
      next (wait_for_vmcf_response arrivals c) refl
        (wait-Progress (length arrivals) arrivals c (omega arith) g w has p) (received fuel)
    where
      next :
          (o : Option (Client × List Arrival))
          → wait_for_vmcf_response arrivals c ≡ o
          → Progress h m (length arrivals) o
          → ((rest : List Arrival) (c' : Client)
              → All IsReply rest
              → c'.posted ≡ false
              → Within fuel rest c'
              → Returns (wait_received (suc fuel) h rest c'))
          → Returns (wait_received (suc (suc fuel)) h arrivals c)
      next none e x rec = absurd x
      next (some (c', rest)) e (q, gr, there) rec =
          let (r, er, n) = w.found in
          rw (received_later (suc fuel) arrivals rest c c' r er n w.sent e) (
            rec rest c' gr q
              (elim there [ inl t ↦ inl t | inr (w', has', k') ↦ inr (w', has', omega arith) ]))

  wait_posted :
      (arrivals : List Arrival) (c : Client)
      → c.posted ≡ true
      → wait_for_vmcf_response arrivals c ≡ some (record c { posted = false }, arrivals)
  unfolding wait_for_vmcf_response
  wait_posted [] c p = simp p
  wait_posted (a ∷ later) c p = simp p

  wait_start :
      (arrivals : List Arrival) (c : Client) (r : Request)
      → find h c.requests ≡ some r
      → r.msg_id ≡ m
      → mid_pend < m
      → wait_for_response h arrivals c ≡ wait_received (suc (suc (length arrivals))) h arrivals c
  unfolding wait_for_response
  wait_start arrivals c r e n p = ground arith

  -- In a valid client without a filter, over arrivals that fit a packet and carry message numbers,
  -- the wait for a response returns if the answer to the request's message is among the arrivals,
  -- whatever else CP delivers before it.
  pub wait_for_response_returns :
      (arrivals : List Arrival) (c : Client)
      → IsWaiting h m c
      → All IsReply arrivals
      → HasAnswer m arrivals
      → (out : Client × ℤ × List Arrival) × (wait_for_response h arrivals c ≡ some out)
  wait_for_response_returns arrivals c w g has =
      let (r, e, n) = w.found in
      rw (wait_start arrivals c r e n w.sent) (elim (Bool-cases c.posted) [
        | inl p ↦
            rw
              (received_later (suc (length arrivals)) arrivals arrivals c _ r e n w.sent
                (wait_posted arrivals c p))
              (received (length arrivals) arrivals _ g refl
                (inr (clear-IsWaiting c w, has, omega arith)))
        | inr p ↦ received (suc (length arrivals)) arrivals c g p (inr (w, has, omega arith))
      ])
