-- ===== src/Client/TimedWait.antt =====
-- cms/nicofclt.c: ncf_037, which waits for a response with a filter and a timeout. What happens
-- meanwhile is a sequence of events: a VMCF interrupt, or the end of the timer.
use nicof.Prelude.{
  ℕ, zero, suc, ◌+◌, ◌<◌, ◌≡◌, ◌∙◌, refl, sym, subst, Bool, true, false, ◌&&◌, ◌||◌, Option, none,
  some, List, [], ◌∷◌, length, arith, ◌⊎◌, inl, inr, ◌==◌, if◌then◌else◌, Bool-cases, Option-cases,
}
use nicof.Prelude.Int.{ℤ}
use nicof.Client.{Request, Client, mid_rcvd, first, rc, rc_ok, waitresp}
use nicof.Client.Delivery.Waiting.{filter-arrive}
use nicof.Client.Wait.{Arrival, arrive, is_outstanding, wait_for_any}

abbrev pub waitany_timedout : ℤ
waitany_timedout = ℤ.negsuc 0

-- `none` is the end of the timer.
abbrev pub Events : Type 0
Events = List (Option Arrival)

-- wait_anyecb and `rcv_ecb = 0`; the flag tells that the timer has ended.
unfoldable pub wait_any_ecb : Events → Client → Option (Client × Bool × Events)
wait_any_ecb [] c = if c.posted then some (record c { posted = false }, false, []) else none
wait_any_ecb (none ∷ later) c =
    if c.posted
    then some (record c { posted = false }, false, none ∷ later)
    else some (record c { posted = false }, true, later)
wait_any_ecb (some a ∷ later) c =
    let waited = wait_any_ecb later (arrive a c) in
    if c.posted then some (record c { posted = false }, false, some a ∷ later) else waited

-- The request that a round of the loop finds.
unfoldable pub received : Client → Option Request
received c =
    first
      (λ r. r.msg_id == mid_rcvd && (c.response_filter == 0 || r.filter_tag == c.response_filter))
      c.requests

-- The loop, with fuel for its rounds: the handle (0 is NULL_REQUEST) and the return code.
unfoldable pub timed_loop : ℕ → Events → Client → Option (Client × ℕ × ℤ × Events)
timed_loop zero events c = none
timed_loop (suc fuel) events c = elim (received c) [
  | some r ↦ some (c, r.me, rc_ok, events)
  | none ↦ elim (wait_any_ecb events c) [
    | none ↦ none
    | some (d, fired, rest) ↦ elim fired [
      | true ↦ some (d, 0, waitany_timedout, rest)
      | false ↦ timed_loop fuel rest d
    ]
  ]
]

abbrev pub unfiltered : Option (Client × ℕ × ℤ × Events) → Option (Client × ℕ × ℤ × Events)
unfiltered none = none
unfiltered (some (c, h, code, rest)) = some (record c { response_filter = 0 }, h, code, rest)

-- ncf_037 with a timeout. Each round but the first finds the ECB clear, so it uses up an event.
unfoldable pub wait_for_any_timed :
    (filter_tag : ℕ) → Events → Client → Option (Client × ℕ × ℤ × Events)
wait_for_any_timed filter_tag events c = elim (first is_outstanding c.requests) [
  | none ↦ some (c, 0, rc 3 waitresp, events)
  | some r ↦
      unfiltered
        (timed_loop (suc (suc (length events))) events (record c { response_filter = filter_tag }))
]

abbrev pub unfiltered_any :
    Option (Client × ℕ × ℤ × List Arrival) → Option (Client × ℕ × ℤ × List Arrival)
unfiltered_any none = none
unfiltered_any (some (c, h, code, rest)) = some (record c { response_filter = 0 }, h, code, rest)

-- ncf_037 with NO_TIMEOUT.
unfoldable pub wait_for_any_untimed :
    (filter_tag : ℕ) → List Arrival → Client → Option (Client × ℕ × ℤ × List Arrival)
wait_for_any_untimed filter_tag arrivals c = elim (first is_outstanding c.requests) [
  | none ↦ some (c, 0, rc 3 waitresp, arrivals)
  | some r ↦ unfiltered_any (wait_for_any arrivals (record c { response_filter = filter_tag }))
]

-- The timer ends some time.
abbrev pub HasTimer : Events → Type 0
HasTimer [] = ⊥
HasTimer (none ∷ later) = Unit {0}
HasTimer (some a ∷ later) = HasTimer later

-- The rounds that are left at most.
abbrev rounds : Events → Client → ℕ
rounds events c = length events + (if c.posted then 1 else 0)

-- A wait ends with the timer, or nearer to it.
record Waited (events : Events) (c d : Client) (fired : Bool) (rest : Events) : Type 0 where
  timer : fired ≡ false → HasTimer rest
  nearer : fired ≡ false → length rest < rounds events c
  clear : d.posted ≡ false
  filter : d.response_filter ≡ c.response_filter

wait_step :
    (a : Arrival) (later : Events) (c : Client)
    → c.posted ≡ false
    → wait_any_ecb (some a ∷ later) c ≡ wait_any_ecb later (arrive a c)
unfolding wait_any_ecb
wait_step a later c f = simp f

wait-Waited :
    (events : Events) (c : Client)
    → HasTimer events
    → (d : Client) × (fired : Bool) × (rest : Events) × (wait_any_ecb events c
        ≡ some (d, fired, rest))
      × Waited events c d fired rest
unfolding wait_any_ecb
wait-Waited [] c h = absurd h
wait-Waited (none ∷ later) c h = elim (Bool-cases c.posted) [
  | inl t ↦ rw t (
    record c { posted = false },
    false,
    none ∷ later,
    refl,
    record { timer = λ e. tt; nearer = λ e. ground arith; clear = refl; filter = refl },
  )
  | inr f ↦ rw f (
    record c { posted = false },
    true,
    later,
    refl,
    record { timer = λ e. absurd cc; nearer = λ e. absurd cc; clear = refl; filter = refl },
  )
]
wait-Waited (some a ∷ later) c h = elim (Bool-cases c.posted) [
  | inl t ↦ rw t (
    record c { posted = false },
    false,
    some a ∷ later,
    refl,
    record { timer = λ e. h; nearer = λ e. ground arith; clear = refl; filter = refl },
  )
  | inr f ↦
      let (d, fired, rest, done, w) = wait-Waited later (arrive a c) h in
      (
        d,
        fired,
        rest,
        wait_step a later c f ∙ done,
        record {
          timer = w.timer;
          nearer = λ e. ground (arith, w.nearer e);
          clear = w.clear;
          filter = w.filter ∙ filter-arrive a c;
        },
      )
]

-- The request that has its response, of those that the tag lets through.
abbrev pub is_received : ℕ → Request → Bool
is_received tag r = r.msg_id == mid_rcvd && (tag == 0 || r.filter_tag == tag)

-- How a wait for the tag may end.
abbrev pub IsEnd : ℕ → Client → ℕ → ℤ → Type 0
IsEnd tag d h code =
    (h ≡ 0) × (code ≡ waitany_timedout)
    ⊎ (code ≡ rc_ok) × (r : Request) × (first (is_received tag) d.requests ≡ some r) × (r.me ≡ h)

abbrev Ended : ℕ → Option (Client × ℕ × ℤ × Events) → Type 0
Ended tag none = ⊥
Ended tag (some (d, h, code, rest)) = (d.response_filter ≡ tag) × IsEnd tag d h code

received_eq : (c : Client) → received c ≡ first (is_received c.response_filter) c.requests
unfolding received
received_eq c = refl

fired-Ended :
    (fuel : ℕ) (events rest : Events) (c d : Client) (fired : Bool)
    → Waited events c d fired rest
    → rounds events c < suc fuel
    → ((later : Events) (e : Client)
        → HasTimer later
        → rounds later e < fuel
        → Ended e.response_filter (timed_loop fuel later e))
    → Ended c.response_filter
        (elim fired [ true ↦ some (d, 0, waitany_timedout, rest) | false ↦ timed_loop fuel rest d ])
fired-Ended fuel events rest c d true w less more = (w.filter, inl (refl, refl))
fired-Ended fuel events rest c d false w less more =
    let idle : rounds rest d < fuel = ground (arith, w.clear, w.nearer refl) in
    subst (λ t. Ended t (timed_loop fuel rest d)) w.filter (more rest d (w.timer refl) idle)

timed_loop-Ended :
    (fuel : ℕ) (events : Events) (c : Client)
    → HasTimer events
    → rounds events c < fuel
    → Ended c.response_filter (timed_loop fuel events c)
unfolding timed_loop
timed_loop-Ended zero events c h less = absurd (omega arith)
timed_loop-Ended (suc fuel) events c h less = elim (Option-cases (received c)) [
  | inl e ↦
      let (d, fired, rest, done, w) = wait-Waited events c h in
      rw (e, timed_loop)
        (rw (done, timed_loop)
          (fired-Ended fuel events rest c d fired w less (timed_loop-Ended fuel)))
  | inr (r, e) ↦ rw (e, timed_loop) (refl, inr (refl, r, sym (received_eq c) ∙ e, refl))
]

unfiltered-Ended :
    (tag : ℕ) (o : Option (Client × ℕ × ℤ × Events))
    → Ended tag o
    → (d : Client) × (h : ℕ) × (code : ℤ) × (rest : Events) × (unfiltered o
        ≡ some (d, h, code, rest))
      × (d.response_filter ≡ 0)
      × IsEnd tag d h code
unfiltered-Ended tag none e = absurd e
unfiltered-Ended tag (some (d, h, code, rest)) (f, e) =
    (record d { response_filter = 0 }, h, code, rest, refl, refl, e)

-- Where a request waits for or has a response and the timer ends some time, ncf_037 with a timeout
-- returns, with the filter reset: either with the first request that has its response and carries
-- the tag (any request where the tag is 0), or with WAITANY_TIMEDOUT and the null handle.
pub wait_for_any_timed-returns :
    (tag : ℕ) (events : Events) (c : Client) (q : Request)
    → HasTimer events
    → first is_outstanding c.requests ≡ some q
    → (d : Client) × (h : ℕ) × (code : ℤ) × (rest : Events) × (wait_for_any_timed tag events c
        ≡ some (d, h, code, rest))
      × (d.response_filter ≡ 0)
      × IsEnd tag d h code
unfolding wait_for_any_timed
wait_for_any_timed-returns tag events c q h found =
    let c2 = record c { response_filter = tag } in
    let fits : rounds events c2 < suc (suc (length events)) = ground arith in
    rw (found, wait_for_any_timed)
      (unfiltered-Ended tag _ (timed_loop-Ended (suc (suc (length events))) events c2 h fits))
