-- ===== src/Client/Phases.antt =====
-- cms/nicofclt.c: the life of one request, against the state machine that the MID_ constants name.
pub mod Find
use nicof.Prelude.{
  ℕ, ◌≤◌, ◌<◌, ◌≡◌, ◌∙◌, refl, sym, ap, subst, ◌+◌, ◌^◌, ◌%◌, ◌≢◌, ◌⊎◌, inl, inr, Bool, true, false,
  ◌&&◌, Option, none, some, List, [], ◌∷◌, All, arith, ◌==◌, leb, if◌then◌else◌, Bool-cases,
  Option-cases, overwrite,
}
use nicof.Client.{
  Request, Client, mid_free, mid_new, mid_rcvd, mid_rtrn, mid_pend, first, modify, find, on,
  collect, get_request, alloc_request, create_request, set_request_data, send_request,
  set_filter_tag, get_response_user_words, get_response_data, free_request, with_request,
}
use nicof.Client.Wait.{Vmcmhdr, Arrival, respond, handle_ext, arrive, vmcf_interrupt, vmcpsenr}
use nicof.Client.Calls.{
  Call, creates, fills, sends, tags, arrives, asks_words, asks_data, frees, step,
}
use native.Mathlib.Decide.{ℕ_discrete}
use Find.{
  KeepsMe, find-modify, find-modify_self, find-modify_ne, find-me, find-All, find-first,
  find-cons_ne, first-test,
}
use nicof.Client.Validity.{IsState, IsSlot, IsValid}
use nicof.Client.Validity.Calls.{IsNewBlock, IsLegal}

pub data Phase : Type 0 where
  free new pending received returned : Phase

abbrev pub phase : ℕ → Phase
phase m =
    if m == mid_free
    then free
    else if m == mid_new
    then new
    else if m == mid_rcvd
    then received
    else if m == mid_rtrn
    then returned
    else pending

pub data Edge : Phase → Phase → Type 0 where
  stay : (p : Phase) → Edge p p
  create : Edge free new
  send : Edge new pending
  answer : Edge pending received
  collected : Edge received returned
  release : (p : Phase) → p ≢ pending → Edge p free

-- What a pool has become of the request `r` behind a handle.
abbrev pub Moved : ℕ → Request → List Request → Type 0
Moved h r rs = (q : Request) × (find h rs ≡ some q) × Edge (phase r.msg_id) (phase q.msg_id)

modify-Moved :
    (h : ℕ) (r : Request) (rs : List Request) (test : Request → Bool) (f : Request → Request)
    → KeepsMe f
    → find h rs ≡ some r
    → (test r ≡ true → Edge (phase r.msg_id) (phase (f r).msg_id))
    → Moved h r (modify test f rs)
modify-Moved h r rs test f k e go = elim (find-modify h test f rs r k e) [
  | inl same ↦ (r, same, stay _)
  | inr (t, there) ↦ (f r, there, go t)
]

edge_at : {p q : Phase} (p' q' : Phase) → p ≡ p' → q ≡ q' → Edge p' q' → Edge p q
edge_at p' q' e d go = rw (e, d) go

edge_of_eq : {p q : Phase} → p ≡ q → Edge p q
edge_of_eq {p} e = subst (Edge p) e (stay p)

phase-pending : (m : ℕ) → mid_pend < m → phase m ≡ pending
phase-pending m h = ground arith

module _ (h : ℕ) (r : Request) (c : Client) (e : find h c.requests ≡ some r) where
  edit-Moved :
      (test : Request → Bool) (f : Request → Request)
      → KeepsMe f
      → ((q : Request) → (f q).msg_id ≡ q.msg_id)
      → Moved h r (modify test f c.requests)
  edit-Moved test f k m =
      modify-Moved h r c.requests test f k e λ _. edge_of_eq (ap phase (sym (m r)))

  -- A write to the request behind `g`, which is `q`.
  mark-Moved :
      (g m : ℕ) (q : Request)
      → find g c.requests ≡ some q
      → Edge (phase q.msg_id) (phase m)
      → Moved h r (modify (λ p. p.me == g) (λ p. record p { msg_id = m }) c.requests)
  mark-Moved g m q found go =
      modify-Moved h r c.requests _ (λ p. record p { msg_id = m }) (λ p. refl) e
        λ t. let there : r ≡ q = ground (arith, find-me h c.requests r) in rw there go

  collect-Moved : (g : ℕ) → Moved h r (collect g c).requests
  collect-Moved g =
      modify-Moved h r c.requests _ _ (λ p. ground arith) e
        λ t. elim (Bool-cases (r.msg_id == mid_rcvd)) [
          | inl b ↦ edge_at received returned (ground arith) (ground arith) collected
          | inr b ↦ edge_of_eq (ground arith)
        ]

  fills-Moved :
      (g len : ℕ) (bytes : List ℕ) (xtab : Option (ℕ → ℕ))
      → Moved h r (set_request_data g len bytes xtab c).0.requests
  unfolding set_request_data
  fills-Moved g len bytes xtab = elim (Option-cases (find g c.requests)) [
    | inl n ↦ rw (n, with_request) (r, e, stay _)
    | inr (q, n) ↦
        rw (n, with_request)
          (elim (Bool-cases (q.msg_id == mid_new)) [
            | inl b ↦ rw b (edit-Moved _ _ (λ p. refl) (λ p. refl))
            | inr b ↦ rw b (r, e, stay _)
          ])
  ]

  not-pending :
      (g : ℕ) (q : Request)
      → find g c.requests ≡ some q
      → IsValid c
      → leb mid_pend q.msg_id ≡ false
      → phase q.msg_id ≢ pending
  not-pending g q n v b p =
      let s = (find-All (IsSlot c.last_msg_id) _ c.requests q n v.slots).0.state in ground arith

  frees-Moved : (g : ℕ) → IsValid c → Moved h r (free_request g c).0.requests
  unfolding free_request
  frees-Moved g v = elim (Option-cases (find g c.requests)) [
    | inl n ↦ rw (n, free_request) (r, e, stay _)
    | inr (q, n) ↦
        rw (n, free_request)
          (elim (Bool-cases (leb mid_pend q.msg_id)) [
            | inl b ↦ rw b (r, e, stay _)
            | inr b ↦ rw b (
                mark-Moved g mid_free q n
                  (edge_at _ free refl refl (release _ (not-pending g q n v b))))
          ])
  ]

  -- A failed send writes the state of a new request back.
  undone :
      (g m : ℕ) (q : Request)
      → find g c.requests ≡ some q
      → q.msg_id ≡ mid_new
      → Moved h r (
          modify
            (λ p. p.me == g)
            (λ p. record p { msg_id = mid_new })
            (modify (λ p. p.me == g) (λ p. record p { msg_id = m }) c.requests))
  undone g m q n b = elim (ℕ_discrete g h) [
    | yes same ↦ (
      record r { msg_id = mid_new },
      rw same (
          find-modify_self h _ _ (record r { msg_id = m }) (λ p. refl)
            (find-modify_self h _ _ r (λ p. refl) e)),
      edge_of_eq (ap phase {x = r.msg_id} {y = mid_new} (ground arith)),
    )
    | no apart ↦ (
      r,
      find-modify_ne g h _ _ (λ p. refl) apart ∙ find-modify_ne g h _ _ (λ p. refl) apart ∙ e,
      stay _,
    )
  ]

  sends-Moved :
      (g to_vm send_rc : ℕ)
      → mid_pend ≤ c.last_msg_id
      → c.last_msg_id + 1 < 2 ^ 32
      → Moved h r (send_request g to_vm send_rc c).0.requests
  unfolding send_request
  sends-Moved g to_vm send_rc low high = elim (Option-cases (find g c.requests)) [
    | inl n ↦ rw (n, with_request) (r, e, stay _)
    | inr (q, n) ↦
        rw (n, with_request)
          (elim (Bool-cases (q.msg_id == mid_new)) [
            | inl b ↦ rw b (elim (Bool-cases (send_rc == 0)) [
              | inl z ↦ rw z (
                  mark-Moved g _ q n (
                    edge_at new pending (ground arith)
                      (phase-pending ((c.last_msg_id + 1) % 2 ^ 32) (omega arith)) send))
              | inr z ↦ rw z (undone g _ q n (ground arith))
            ])
            | inr b ↦ rw b (r, e, stay _)
          ])
  ]

pub respond_facts :
    (m : Vmcmhdr) (r : Request) → ((respond m r).me ≡ r.me) × ((respond m r).msg_id ≡ mid_rcvd)
unfolding respond
respond_facts m r = ground arith

handle_ext-Moved :
    (h : ℕ) (r : Request) (c : Client) (m : Vmcmhdr)
    → find h c.requests ≡ some r
    → mid_pend < m.mid
    → Moved h r (handle_ext m c).requests
unfolding handle_ext
handle_ext-Moved h r c m e numbered =
    elim (Bool-cases (m.intr_code == vmcf_interrupt && m.func == vmcpsenr)) [
      | inl b ↦ rw b (elim (Option-cases (first (λ q. q.msg_id == m.mid) c.requests)) [
        | inl n ↦ rw (n, handle_ext) (r, e, stay _)
        | inr (q, n) ↦ rw (n, handle_ext) answered
      ])
      | inr b ↦ rw b (r, e, stay _)
    ]
  where
    answered : Moved h r (modify (λ q. q.msg_id == m.mid) (respond m) c.requests)
    answered =
        modify-Moved h r c.requests _ (respond m) (λ p. (respond_facts m p).0) e
          λ t.
            edge_at pending received (phase-pending r.msg_id (ground arith))
              (ap phase {y = mid_rcvd} (respond_facts m r).1) answer

arrives-Moved :
    (h : ℕ) (r : Request) (c : Client) (a : Arrival)
    → find h c.requests ≡ some r
    → mid_pend < a.header.mid
    → Moved h r (arrive a c).requests
unfolding arrive
arrives-Moved h r c a e numbered =
    elim (find-modify h (λ q. q.msg_id == a.header.mid) store c.requests r (λ p. refl) e) [
      | inl same ↦ handle_ext-Moved h r _ a.header same numbered
      | inr (t, there) ↦ handle_ext-Moved h (store r) _ a.header there numbered
    ]
  where
    store : Request → Request
    store q = record q { buf = overwrite a.stored q.buf }

creates-Moved :
    (h : ℕ) (r : Request) (c : Client) (w1 w2 : ℕ) (block : Request)
    → IsNewBlock block c
    → IsValid c
    → find h c.requests ≡ some r
    → Moved h r (create_request w1 w2 block c).0.requests
unfolding create_request get_request alloc_request
creates-Moved h r c w1 w2 block fresh v e =
    elim (Option-cases (first (λ q. q.msg_id == mid_free) c.requests)) [
      | inl n ↦
          rw (n, get_request)
            (
              r,
              find-modify_ne block.me h _ _ (λ p. refl) away ∙ find-cons_ne h _ c.requests away ∙ e,
              stay _,
            )
      | inr (q, n) ↦
          rw (n, get_request)
            (elim (ℕ_discrete q.me h) [
              | yes same ↦ (
                record r { data_len = 0; user_word1 = w1; user_word2 = w2; msg_id = mid_new },
                rw same (
                    find-modify_self h _ _ (record r { data_len = 0 }) (λ p. refl)
                      (find-modify_self h _ _ r (λ p. refl) e)),
                edge_at free new (ap phase {y = mid_free} (was_free q n same)) refl create,
              )
              | no apart ↦ (
                r,
                find-modify_ne q.me h _ _ (λ p. refl) apart
                    ∙ find-modify_ne q.me h _ _ (λ p. refl) apart
                    ∙ e,
                stay _,
              )
            ])
    ]
  where
    away : block.me ≢ h
    away = ground (
      arith,
      (find-All (λ q. block.me ≢ q.me) _ c.requests r e fresh.1).0,
      find-me h c.requests r e,
    )

    was_free :
        (q : Request)
        → first (λ p. p.msg_id == mid_free) c.requests ≡ some q
        → q.me ≡ h
        → r.msg_id ≡ mid_free
    was_free q n same = ground (
      arith,
      first-test (λ p. p.msg_id == mid_free) c.requests q n,
      find-first _ c.requests q v.apart n,
    )

words-client : (h : ℕ) (c : Client) → (get_response_user_words h c).0 ≡ collect h c
unfolding get_response_user_words
words-client h c = ground arith

data-client :
    (h len : ℕ) (xtab : Option (ℕ → ℕ)) (from : ℕ) (c : Client)
    → (get_response_data h len xtab from c).0 ≡ collect h c
unfolding get_response_data
data-client h len xtab from c = ground arith

-- In a valid client a legal call of ncf_010, ncf_011, ncf_021, ncf_035, ncf_040, ncf_041 or
-- ncf_050, or an arrival, changes the state of each request only along an edge of the request's
-- state machine: free to new, new to pending, pending to received, received to returned, and any
-- state but pending to free.
pub step-Edge :
    (c : Client) (a : Call) (h : ℕ) (r : Request)
    → IsLegal c a
    → IsValid c
    → find h c.requests ≡ some r
    → Moved h r (step c a).requests
unfolding step set_filter_tag
step-Edge c (creates w1 w2 block) h r l v e = creates-Moved h r c w1 w2 block l v e
step-Edge c (fills g len bytes xtab) h r l v e = fills-Moved h r c e g len bytes xtab
step-Edge c (sends g to_vm send_rc) h r l v e = sends-Moved h r c e g to_vm send_rc v.counter l
step-Edge c (tags g tag) h r l v e = edit-Moved h r c e _ _ (λ p. refl) (λ p. refl)
step-Edge c (arrives a) h r l v e = arrives-Moved h r c a e l.numbered
step-Edge c (asks_words g) h r l v e = rw (words-client g c) (collect-Moved h r c e g)
step-Edge c (asks_data g len xtab from) h r l v e =
    rw (data-client g len xtab from c) (collect-Moved h r c e g)
step-Edge c (frees g) h r l v e = frees-Moved h r c e g v
