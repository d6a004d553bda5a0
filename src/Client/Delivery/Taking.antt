-- ===== src/Client/Delivery/Taking.antt =====
-- cms/nicofclt.c: what each call of an exchange makes of the request that it works on.
use nicof.Prelude.{
  ◌+◌, ◌%◌, ◌^◌, ◌≢◌, ℕ, suc, ◌≤◌, ◌<◌, ◌≡◌, ◌∙◌, refl, true, false, Option, none, some, List, [],
  ◌∷◌, arith, length, ◌==◌, if◌then◌else◌, Option-cases, inl, inr, ◌⊎◌, take, overwrite,
}
use nicof.Client.{
  Vmcparm, rc, vmcf, send_request, Request, Client, max_packet_len, mid_free, mid_new, mid_pend,
  mid_rcvd, mid_rtrn, rc_ok, first, find, on, xlate, clip, collect, get_request, alloc_request,
  create_request, set_request_data, get_response_user_words, get_response_data,
  get_response_data_length, free_request, is_available,
}
use nicof.Prelude.Int.{ℤ}
use nicof.Client.Wait.{Arrival, arrive, wait_for_response, wait_received, wait_for_vmcf_response}
use nicof.Client.Validity.{IsValid}
use nicof.Client.Phases.Find.{find-modify_self, find-first}

-- The request behind a handle holds state `s`.
abbrev pub IsIn : ℕ → ℕ → Client → Type 0
IsIn s h c = (r : Request) × (find h c.requests ≡ some r) × (r.msg_id ≡ s)

pub free-IsIn :
    (h s : ℕ) (c : Client) → IsIn s h c → s < mid_pend → IsIn mid_free h (free_request h c).0
unfolding free_request
free-IsIn h s c (r, e, n) l = (
  record r { msg_id = mid_free },
  ground
      (arith, find-modify_self h (λ q. record q { msg_id = mid_free }) c.requests r (λ q. refl) e),
  refl,
)

collect-IsIn :
    (h s : ℕ) (c : Client)
    → IsIn s h c
    → (s ≡ mid_rcvd) ⊎ (s ≡ mid_rtrn)
    → IsIn mid_rtrn h (collect h c)
collect-IsIn h s c (r, e, n) k = (
  if r.msg_id == mid_rcvd then record r { msg_id = mid_rtrn } else r,
  find-modify_self h (λ q. if q.msg_id == mid_rcvd then record q { msg_id = mid_rtrn } else q)
      c.requests r (λ q. ground arith) e,
  ground arith,
)

-- The request behind a handle that has its response.
module _ (h : ℕ) (c : Client) (r : Request) (e : find h c.requests ≡ some r)
    (n : r.msg_id ≡ mid_rtrn) where
  pub returned : find h (collect h c).requests ≡ some r
  returned =
      find-modify_self h (λ q. if q.msg_id == mid_rcvd then record q { msg_id = mid_rtrn } else q)
        c.requests r (λ q. ground arith) e
      ∙ ground arith

  pub words-returned :
      get_response_user_words h c ≡ (collect h c, rc_ok, some (r.user_word1, r.user_word2))
  unfolding get_response_user_words
  words-returned = ground (arith, returned)

  pub length-returned :
      r.data_len ≤ max_packet_len
      → get_response_data_length h c ≡ (collect h c, rc_ok, some r.data_len)
  unfolding get_response_data_length
  length-returned fits = ground (arith, returned)

  -- The data for a buffer that holds them.
  pub part-returned :
      (room : ℕ)
      → r.data_len ≤ room
      → get_response_data h room none 0 c ≡ (collect h c, rc_ok, some (take r.data_len r.buf))
  unfolding get_response_data
  part-returned room fits = ground (arith, returned)

  pub data-returned :
      (table : Option (ℕ → ℕ))
      → r.data_len ≤ max_packet_len
      → get_response_data h 2048 table 0 c
        ≡ (collect h c, rc_ok, some (xlate table (take r.data_len r.buf)))
  unfolding get_response_data
  data-returned table fits = ground (arith, returned)

find-cons_self : (x : Request) (rs : List Request) → find x.me (x ∷ rs) ≡ some x
unfolding first
find-cons_self x rs = ground arith

-- A request that is created is new and has the words it is given.
pub create_request-new :
    (w1 w2 : ℕ) (block : Request) (c : Client)
    → IsValid c
    → let (d, h) = create_request w1 w2 block c in
      (r : Request) × (find h d.requests ≡ some r)
      × (r.msg_id ≡ mid_new)
      × (r.user_word1 ≡ w1)
      × (r.user_word2 ≡ w2)
      × (r.data_len ≡ 0)
unfolding create_request get_request alloc_request
create_request-new w1 w2 block c v =
    elim (Option-cases (first (λ r. r.msg_id == mid_free) c.requests)) [
      | inl e ↦
          rw (e, get_request)
            (
              fill fresh,
              find-modify_self block.me fill (fresh ∷ c.requests) fresh (λ q. refl)
                  (find-cons_self fresh c.requests),
              refl,
              refl,
              refl,
              refl,
            )
      | inr (r, e) ↦
          rw (e, get_request)
            (
              fill (empty r),
              find-modify_self r.me fill _ (empty r) (λ q. refl)
                  (find-modify_self r.me empty c.requests r (λ q. refl)
                    (find-first (λ q. q.msg_id == mid_free) c.requests r v.apart e)),
              refl,
              refl,
              refl,
              refl,
            )
    ]
  where
    fill : Request → Request
    fill q = record q { user_word1 = w1; user_word2 = w2; msg_id = mid_new }

    empty : Request → Request
    empty q = record q { data_len = 0 }

    fresh : Request
    fresh = record block { msg_id = mid_free; data_len = 0 }

wait_posted :
    (arrivals : List Arrival) (c : Client)
    → c.posted ≡ true
    → wait_for_vmcf_response arrivals c ≡ some (record c { posted = false }, arrivals)
unfolding wait_for_vmcf_response
wait_posted [] c p = simp p
wait_posted (a ∷ later) c p = simp p

wait_one :
    (a : Arrival) (later : List Arrival) (c : Client)
    → c.posted ≡ false
    → (arrive a c).posted ≡ true
    → wait_for_vmcf_response (a ∷ later) c ≡ some (record (arrive a c) { posted = false }, later)
unfolding wait_for_vmcf_response
wait_one a later c f post = simp f (wait_posted later (arrive a c) post)

wait_received_now :
    (fuel h : ℕ) (arrivals : List Arrival) (c : Client) (q : Request)
    → find h c.requests ≡ some q
    → q.msg_id ≡ mid_rcvd
    → wait_received (suc fuel) h arrivals c
      ≡ some (on h (λ p. record p { msg_id = mid_rtrn }) c, q.recv_rc, arrivals)
unfolding wait_received
wait_received_now fuel h arrivals c q e n = ground (arith, e, n)

wait_received_later :
    (fuel h : ℕ) (arrivals rest : List Arrival) (c d : Client) (r : Request)
    → find h c.requests ≡ some r
    → mid_pend < r.msg_id
    → wait_for_vmcf_response arrivals c ≡ some (d, rest)
    → wait_received (suc fuel) h arrivals c ≡ wait_received fuel h rest d
unfolding wait_received
wait_received_later fuel h arrivals rest c d r e n w =
    rw (e, wait_received)
      (let pending : (r.msg_id == mid_rcvd) ≡ false = ground arith in
        rw (pending, wait_received) (rw (w, wait_received) refl))

-- The wait for a request takes in the response that is the next arrival.
pub wait_next :
    (h : ℕ) (a : Arrival) (later : List Arrival) (c : Client) (r q : Request)
    → find h c.requests ≡ some r
    → mid_pend < r.msg_id
    → c.posted ≡ false
    → find h (arrive a c).requests ≡ some q
    → q.msg_id ≡ mid_rcvd
    → (arrive a c).posted ≡ true
    → wait_for_response h (a ∷ later) c
      ≡ some (
        on h (λ p. record p { msg_id = mid_rtrn }) (record (arrive a c) { posted = false }),
        q.recv_rc,
        later,
      )
unfolding wait_for_response
wait_next h a later c r q e p f there n post =
    waits
    ∙ wait_received_later (suc (length (a ∷ later))) h (a ∷ later) later c d r e p
        (wait_one a later c f post)
    ∙ wait_received_now (length (a ∷ later)) h later d q there n
  where
    d : Client
    d = record (arrive a c) { posted = false }

    waits :
        wait_for_response h (a ∷ later) c
        ≡ wait_received (suc (suc (length (a ∷ later)))) h (a ∷ later) c
    waits = ground (arith, e, p)

pub create_request-rest :
    (w1 w2 : ℕ) (block : Request) (c : Client)
    → let d = (create_request w1 w2 block c).0 in
      (d.last_msg_id ≡ c.last_msg_id)
      × (d.response_filter ≡ c.response_filter)
      × (d.posted ≡ c.posted)
unfolding create_request get_request alloc_request
create_request-rest w1 w2 block c = ground arith

-- A new request takes its data.
pub set_request_data-ok :
    (h len : ℕ) (bytes : List ℕ) (table : Option (ℕ → ℕ)) (c : Client) (r : Request)
    → find h c.requests ≡ some r
    → r.msg_id ≡ mid_new
    → set_request_data h len bytes table c ≡ (
      on h
          (λ p. record p {
            buf = overwrite (xlate table (take (clip len) bytes)) p.buf;
            data_len = clip len;
          })
          c,
      rc_ok,
    )
unfolding set_request_data
set_request_data-ok h len bytes table c r e n = ground (arith, e, n)

-- A send that CP refuses leaves the request new.
pub send_request-refused :
    (h to_vm send_rc : ℕ) (c : Client) (r : Request)
    → find h c.requests ≡ some r
    → r.msg_id ≡ mid_new
    → send_rc ≢ 0
    → (d : Client) × (parm : Vmcparm) × (send_request h to_vm send_rc c
        ≡ (d, rc send_rc vmcf, some parm))
      × IsIn mid_new h d
unfolding send_request
send_request-refused h to_vm send_rc c r e n z = (
  record (on h back (on h sent c)) { last_msg_id = mid },
  record {
    user = to_vm;
    data_of = r.me;
    lena = r.data_len;
    lenb = max_packet_len;
    w1 = r.user_word1;
    w2 = r.user_word2;
    mid = mid;
  },
  ground (arith, e, n),
  (
    back (sent r),
    find-modify_self h back (on h sent c).requests (sent r) (λ p. refl)
        (find-modify_self h sent c.requests r (λ p. refl) e),
    refl,
  ),
)
  where
    mid : ℕ
    mid = (c.last_msg_id + 1) % 2 ^ 32

    sent : Request → Request
    sent p = record p { msg_id = mid }

    back : Request → Request
    back p = record p { msg_id = mid_new }

-- The wait for a response that is there returns at once.
pub wait_available :
    (h : ℕ) (arrivals : List Arrival) (c : Client)
    → is_available h c ≡ true
    → (d : Client) × (code : ℤ) × (wait_for_response h arrivals c ≡ some (d, code, arrivals))
unfolding is_available wait_for_response wait_received
wait_available h arrivals c e = elim (Option-cases (find h c.requests)) [
  | inl n ↦ absurd (ground arith)
  | inr (r, there) ↦ (on h (λ q. record q { msg_id = mid_rtrn }) c, r.recv_rc, ground arith)
]
