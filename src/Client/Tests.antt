-- ===== src/Client/Tests.antt =====
-- cms/nicofclt.c: runs of the client at concrete inputs.
use nicof.Prelude.{
  ℕ, ◌≡◌, ◌<◌, refl, true, false, none, some, List, [], ◌∷◌, arith, replicate, inl, inr,
  if◌then◌else◌, ◌==◌,
}
use nicof.Prelude.Int.{ℤ, pos}
use nicof.Client.{
  Request, Client, max_packet_len, mid_free, mid_new, mid_rcvd, mid_pend, rc, vmcf, find, first,
  modify, alloc_all, alloc_request, get_request, init, deinit, create_request, send_request,
  get_response_user_words, get_response_data,
}
use nicof.Client.TimedWait.{Events, IsEnd, wait_for_any_timed, wait_for_any_timed-returns}
use nicof.Client.Tables.{ebcdic2ascii, ascii2ebcdic, translations_back}
use nicof.Client.Wait.{Vmcmhdr, Arrival, arrive, wait_for_response}
use nicof.Client.Calls.{creates, sends, arrives, frees, step, run}
use nicof.Client.Validity.{IsValid, IsSlot, Apart}
use nicof.Client.Validity.Calls.{IsReply, step-IsValid}
use nicof.Client.Phases.{Moved, step-Edge}
use nicof.Client.Delivery.{IsAnswer, answered, find-arrive}
use nicof.Client.Delivery.Waiting.{IsWaiting, wait_for_response_returns}
use nicof.Client.Delivery.Exchange.{IsPositive, exchange}
use nicof.Client.History.{start, init-run-IsValid, init-deinit}

abbrev request : ℕ → ℕ → ℕ → Request
request h state tag = record {
  me = h;
  msg_id = state;
  recv_rc = pos 0;
  filter_tag = tag;
  user_word1 = 1;
  user_word2 = 2;
  data_len = 0;
  buf = replicate 2048 0;
}

-- A new request, one that waits for message 11, one that has its response, and a free one.
abbrev pool : List Request
pool =
    request 100 mid_new 0 ∷ request 200 11 5 ∷ request 300 mid_rcvd 6 ∷ request 400 mid_free 0 ∷ []

abbrev sample : ℕ → Client
sample filter = record {
  initialized = true;
  requests = pool;
  last_msg_id = 11;
  response_filter = filter;
  posted = false;
}

abbrev header : ℕ → Vmcmhdr
header m = record {
  intr_code = 0x4001;
  func = 3;
  mid = m;
  rejected = false;
  answered = true;
  lenb = 2046;
  w1 = 70;
  w2 = 80;
}

-- An answer of two bytes.
abbrev answer : ℕ → Arrival
answer m = record { header = header m; stored = 7 ∷ 8 ∷ [] }

apart :
    (h g s t : ℕ) (a b : ℕ)
    → (h ≡ g → ⊥)
    → (mid_pend < s → s ≡ t → ⊥)
    → Apart (request h s a) (request g t b)
apart h g s t a b n k = record { handles = n; messages = k }

new_slot : IsSlot 11 (request 100 mid_new 0)
new_slot = record { room = refl; fits = omega arith; state = inr (inl refl) }

sent_slot : IsSlot 11 (request 200 11 5)
sent_slot = record {
  room = refl;
  fits = omega arith;
  state = inr (inr (inr (inr (omega arith, omega arith))));
}

received_slot : IsSlot 11 (request 300 mid_rcvd 6)
received_slot = record { room = refl; fits = omega arith; state = inr (inr (inl refl)) }

free_slot : IsSlot 11 (request 400 mid_free 0)
free_slot = record { room = refl; fits = omega arith; state = inl refl }

sample-IsValid : (filter : ℕ) → IsValid (sample filter)
sample-IsValid filter = record {
  slots = (new_slot, (sent_slot, (received_slot, (free_slot, tt))));
  apart = (
    (
      apart 100 200 4 11 0 5 (λ e. omega arith) (λ _ e. omega arith),
      (
        apart 100 300 4 6 0 6 (λ e. omega arith) (λ _ e. omega arith),
        (apart 100 400 4 2 0 0 (λ e. omega arith) (λ _ e. omega arith), tt),
      ),
    ),
    (
      (
        apart 200 300 11 6 5 6 (λ e. omega arith) (λ _ e. omega arith),
        (apart 200 400 11 2 5 0 (λ e. omega arith) (λ _ e. omega arith), tt),
      ),
      ((apart 300 400 6 2 6 0 (λ e. omega arith) (λ _ e. omega arith), tt), (tt, tt)),
    ),
  );
  counter = omega arith;
}

answer-IsAnswer : (m : ℕ) → IsAnswer m (answer m)
answer-IsAnswer m = record { code = refl; func = refl; mid = refl }

answer-IsPositive : (m : ℕ) → IsPositive (answer m)
answer-IsPositive m = record { accepted = refl; final = refl; counted = refl }

answer-IsReply : (m : ℕ) → mid_pend < m → IsReply (answer m)
answer-IsReply m h = record { fits = omega arith; rest = omega arith; numbered = h }

exchange_example :
    let out = send_request 100 9 0 (sample 0) in
    let d = arrive (answer 12) out.0 in
    (out.2
      ≡ some (record {
        user = 9;
        data_of = 100;
        lena = 0;
        lenb = max_packet_len;
        w1 = 1;
        w2 = 2;
        mid = 12;
      }))
    × ((get_response_user_words 100 d).2 ≡ some (70, 80))
    × ((get_response_data 100 max_packet_len none 0 d).2 ≡ some (7 ∷ 8 ∷ []))
unfolding first
exchange_example =
    exchange 100 9 (sample 0) (request 100 mid_new 0) (answer 12) (sample-IsValid 0) refl refl
      (omega arith) (answer-IsAnswer 12) (answer-IsPositive 12)

step-Edge_example : Moved 200 (request 200 11 5) (step (sample 0) (arrives (answer 11))).requests
unfolding first
step-Edge_example =
    step-Edge (sample 0) (arrives (answer 11)) 200 (request 200 11 5)
      (answer-IsReply 11 (omega arith)) (sample-IsValid 0) refl

step-IsValid_example : IsValid (step (sample 0) (arrives (answer 11)))
step-IsValid_example =
    step-IsValid (sample 0) (arrives (answer 11)) (answer-IsReply 11 (omega arith))
      (sample-IsValid 0)

find-arrive_example :
    find 300 (arrive (answer 11) (sample 0)).requests
    ≡ (if 300 == 200 then some (answered (answer 11) (request 200 11 5)) else find 300 pool)
unfolding first
find-arrive_example =
    find-arrive 200 300 (request 200 11 5) (sample 0) (answer 11) (sample-IsValid 0) refl
      (omega arith) (answer-IsAnswer 11)

waits : IsWaiting 200 11 (sample 0)
unfolding first
waits = record {
  valid = sample-IsValid 0;
  open_filter = refl;
  sent = omega arith;
  found = (request 200 11 5, refl, refl);
}

wait_for_response_returns_example :
    (out : Client × ℤ × List Arrival) × (wait_for_response 200
        (answer 99 ∷ answer 11 ∷ [])
        (sample 0)
      ≡ some out)
wait_for_response_returns_example =
    wait_for_response_returns 200 11 (answer 99 ∷ answer 11 ∷ []) (sample 0) waits
      (answer-IsReply 99 (omega arith), (answer-IsReply 11 (omega arith), tt))
      (inr (inl (answer-IsAnswer 11)))

init-run-IsValid_example : IsValid (
    run
      (init (request 100 0 0 ∷ request 200 0 0 ∷ []) 0 start).0
      (creates 1 2 (request 300 0 0) ∷ sends 200 9 0 ∷ arrives (answer 11) ∷ frees 200 ∷ []))
unfolding init alloc_all alloc_request step create_request get_request first modify
init-run-IsValid_example =
    init-run-IsValid (request 100 0 0 ∷ request 200 0 0 ∷ []) 0
      (creates 1 2 (request 300 0 0) ∷ sends 200 9 0 ∷ arrives (answer 11) ∷ frees 200 ∷ [])
      (refl, ((λ e. omega arith), tt), (refl, tt, tt))
      (
        (refl, ((λ e. omega arith), ((λ e. omega arith), tt))),
        (omega arith, (answer-IsReply 11 (omega arith), (tt, tt))),
      )

init-deinit_example :
    let d = deinit (init (request 100 0 0 ∷ []) 0 start).0 in
    (d.requests ≡ []) × (init (request 300 0 0 ∷ []) 0 d ≡ (d, rc 0 vmcf))
init-deinit_example = init-deinit (request 100 0 0 ∷ []) (request 300 0 0 ∷ []) 0 0 start

abbrev taken : Request
taken = record (request 500 8 0) { data_len = 2 }

translations_back_example :
    (ascii2ebcdic (ebcdic2ascii (0xc1 ∷ 0x40 ∷ []) 2) 2 ≡ 0xc1 ∷ 0x40 ∷ [])
    × (ebcdic2ascii (ascii2ebcdic (0x41 ∷ 0xe4 ∷ []) 2) 2 ≡ 0x41 ∷ 0xe4 ∷ [])
translations_back_example =
    translations_back (0xc1 ∷ 0x40 ∷ []) (0x41 ∷ 0xe4 ∷ []) 2
      ((omega arith, omega arith), ((omega arith, omega arith), tt))
      (inl (omega arith, omega arith), (inr (omega arith, omega arith), tt))

wait_for_any_timed-returns_example :
    (d : Client) × (h : ℕ) × (code : ℤ) × (rest : Events) × (wait_for_any_timed 5
        (some (answer 11) ∷ none ∷ [])
        (sample 0)
      ≡ some (d, h, code, rest))
    × (d.response_filter ≡ 0)
    × IsEnd 5 d h code
unfolding first
wait_for_any_timed-returns_example =
    wait_for_any_timed-returns 5 (some (answer 11) ∷ none ∷ []) (sample 0) (request 200 11 5) tt
      refl
