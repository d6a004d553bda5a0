-- ===== src/Proxy/Buffers.antt =====
-- cms/ioproxy.c: the two rings as first-in first-out lists of slots. The ring of free slots never
-- gives its last one away, so it is never empty.
use nicof.Prelude.{
  ℕ, suc, ◌+◌, ◌-◌, ◌%◌, ◌≤◌, ◌<◌, ◌≡◌, ◌∙◌, refl, sym, ap, ◌≢◌, Option, none, some, List, [], ◌∷◌,
  ◌++◌, map, set, length, arith, length-set, length-append,
}
use mathlib.Core.List.{map-append}
use nicof.Proxy.{
  Proxy, Request, max_request_count, ring_next, at, get_slot, free_slot, enqueue_request,
  get_next_request_to_send,
}
use nicof.Proxy.Ring.{window, steps-eq-mod, window-set_ne, window-snoc}

-- The ring holds the slots of a list, first out first, from place `first`; the next one goes to
-- place `end`.
pub record Carries (ring : List (Option ℕ)) (first end : ℕ) (slots : List ℕ) : Type 0 where
  pub room : length ring ≡ max_request_count
  pub within : first < max_request_count
  pub fits : length slots ≤ max_request_count
  pub held : window ring first (length slots) ≡ map some slots
  pub behind : end ≡ (first + length slots) % max_request_count

pub record Holds (free queued : List ℕ) (p : Proxy) : Type 0 where
  pub spare : 0 < length free
  pub last_free : p.req_last_free < max_request_count
  pub last_in : p.req_last_in < max_request_count
  pub last_out : p.req_last_out < max_request_count
  pub ring_free : Carries p.req_free p.req_curr_free (ring_next p.req_last_free) free
  pub waiting : length queued < max_request_count
  pub ring_queue : Carries p.req_queue (ring_next p.req_last_out) (ring_next p.req_last_in) queued

pub push-Carries :
    (ring : List (Option ℕ)) (first end s : ℕ) (slots : List ℕ)
    → Carries ring first end slots
    → length slots < max_request_count
    → Carries (set ring end (some s)) first (ring_next end) (slots ++ s ∷ [])
push-Carries ring first end s slots v h = record {
  room = length-set ring end (some s) ∙ v.room;
  within = v.within;
  fits = omega (arith, longer);
  held =
      ap (window (set ring end (some s)) first) longer
      ∙ window-snoc ring first (length slots) end (some s) v.room v.within h
          (v.behind ∙ sym (steps-eq-mod first (length slots) v.within))
      ∙ ap (λ w. w ++ some s ∷ []) v.held
      ∙ sym (map-append some slots (s ∷ []));
  behind = ground (arith, v.behind, longer, v.within);
}
  where
    longer : length (slots ++ s ∷ []) ≡ suc (length slots)
    longer = omega (arith, length-append slots (s ∷ []))

pub pop-Carries :
    (ring : List (Option ℕ)) (first end s : ℕ) (slots : List ℕ)
    → Carries ring first end (s ∷ slots)
    → (at ring first ≡ some s) × Carries (set ring first none) (ring_next first) end slots
pop-Carries ring first end s slots v = (
  ground (arith, v.held),
  record {
    room = length-set ring first none ∙ v.room;
    within = ground (arith, v.within);
    fits = omega (arith, v.fits);
    held =
        window-set_ne ring (ring_next first) (length slots) first
          (max_request_count - 1 - length slots) none (ground (arith, v.within))
          (ground (arith, v.within, v.fits)) (omega (arith, v.fits))
        ∙ ground (arith, v.held);
    behind = ground (arith, v.behind, v.within);
  },
)

get_slot-first :
    (s t : ℕ) (free queued : List ℕ) (p : Proxy)
    → Holds (s ∷ t ∷ free) queued p
    → at p.req_free p.req_curr_free ≡ some s
    → get_slot p ≡ (
      record p {
        req_free = set p.req_free p.req_curr_free none;
        req_curr_free = ring_next p.req_curr_free;
      },
      some s,
    )
unfolding get_slot
get_slot-first s t free queued p v e =
    let apart : p.req_curr_free ≢ p.req_last_free =
      ground (arith, v.ring_free.behind, v.ring_free.within, v.ring_free.fits, v.last_free) in
    ground (arith, e, apart)

-- With two free slots or more the first is given out.
pub get_slot-Holds :
    (s t : ℕ) (free queued : List ℕ) (p : Proxy)
    → Holds (s ∷ t ∷ free) queued p
    → ((get_slot p).1 ≡ some s) × Holds (t ∷ free) queued (get_slot p).0
get_slot-Holds s t free queued p v =
    let (e, rest) =
      pop-Carries p.req_free p.req_curr_free (ring_next p.req_last_free) s (t ∷ free) v.ring_free in
    rw (get_slot-first s t free queued p v e) (
      refl,
      record {
        spare = omega arith;
        last_free = v.last_free;
        last_in = v.last_in;
        last_out = v.last_out;
        ring_free = rest;
        waiting = v.waiting;
        ring_queue = v.ring_queue;
      },
    )

-- The last free slot stays in the ring.
pub get_slot_last :
    (s : ℕ) (queued : List ℕ) (p : Proxy) → Holds (s ∷ []) queued p → get_slot p ≡ (p, none)
unfolding get_slot
get_slot_last s queued p v = ground (arith, v.ring_free.behind, v.ring_free.within, v.last_free)

pub free_slot-Holds :
    (s : ℕ) (free queued : List ℕ) (p : Proxy)
    → Holds free queued p
    → length free < max_request_count
    → Holds (free ++ s ∷ []) queued (free_slot s p)
unfolding free_slot
free_slot-Holds s free queued p v h = record {
  spare = omega (arith, length-append free (s ∷ []));
  last_free = ground (arith, v.last_free);
  last_in = v.last_in;
  last_out = v.last_out;
  ring_free =
      push-Carries p.req_free p.req_curr_free (ring_next p.req_last_free) s free v.ring_free h;
  waiting = v.waiting;
  ring_queue = v.ring_queue;
}

pub enqueue_request-Holds :
    (s : ℕ) (head : Request) (free queued : List ℕ) (p : Proxy)
    → Holds free queued p
    → length queued + 1 < max_request_count
    → Holds free (queued ++ s ∷ []) (enqueue_request s head p)
unfolding enqueue_request
enqueue_request-Holds s head free queued p v h = record {
  spare = v.spare;
  last_free = v.last_free;
  last_in = ground (arith, v.last_in);
  last_out = v.last_out;
  ring_free = v.ring_free;
  waiting = omega (arith, length-append queued (s ∷ []));
  ring_queue =
      push-Carries p.req_queue (ring_next p.req_last_out) (ring_next p.req_last_in) s queued
        v.ring_queue (omega arith);
}

next_request-first :
    (s : ℕ) (free queued : List ℕ) (p : Proxy)
    → Holds free (s ∷ queued) p
    → get_next_request_to_send p ≡ (
      record p {
        req_queue = set p.req_queue (ring_next p.req_last_out) none;
        req_last_out = ring_next p.req_last_out;
      },
      at p.req_queue (ring_next p.req_last_out),
    )
unfolding get_next_request_to_send
next_request-first s free queued p v =
    let apart : p.req_last_out ≢ p.req_last_in =
      ground (arith, v.ring_queue.behind, v.waiting, v.last_in, v.last_out) in
    ground (arith, apart)

pub next_request-Holds :
    (s : ℕ) (free queued : List ℕ) (p : Proxy)
    → Holds free (s ∷ queued) p
    → ((get_next_request_to_send p).1 ≡ some s) × Holds free queued (get_next_request_to_send p).0
next_request-Holds s free queued p v =
    let (e, rest) =
      pop-Carries p.req_queue (ring_next p.req_last_out) (ring_next p.req_last_in) s queued
        v.ring_queue in
    rw (next_request-first s free queued p v) (
      e,
      record {
        spare = v.spare;
        last_free = v.last_free;
        last_in = v.last_in;
        last_out = ground (arith, v.last_out);
        ring_free = v.ring_free;
        waiting = omega (arith, v.waiting);
        ring_queue = rest;
      },
    )

pub next_request_none :
    (free : List ℕ) (p : Proxy) → Holds free [] p → get_next_request_to_send p ≡ (p, none)
unfolding get_next_request_to_send
next_request_none free p v = ground (arith, v.ring_queue.behind, v.last_in, v.last_out)
