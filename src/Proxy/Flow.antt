-- ===== src/Proxy/Flow.antt =====
-- cms/ioproxy.c: requests flow through the proxy in the order of their arrival, and every slot is
-- free, queued or under way to the external proxy, never in two places.
use nicof.Prelude.{
  ℕ, zero, suc, ◌+◌, ◌≡◌, refl, sym, ap, subst, false, List, [], ◌∷◌, ◌++◌, length, arith,
  length-append, ltb, ◌==◌, if◌then◌else◌, leb,
}
use nicof.Proxy.{
  Proxy, Request, max_request_count, get_slot, free_slot, enqueue_request, get_next_request_to_send,
  accept_request, init_request_buffers,
}
use nicof.Proxy.Buffers.{
  Holds, get_slot-Holds, get_slot_last, free_slot-Holds, enqueue_request-Holds, next_request-Holds,
  next_request_none,
}

-- A VMCF request comes in, the next request is transmitted, the response for a slot is passed on.
pub data Event : Type 0 where
  receives : Request → Event
  transmits : Event
  answers : ℕ → Event

unfoldable pub step : Proxy → Event → Proxy
step p (receives head) = (accept_request head p).0
step p transmits = (get_next_request_to_send p).0
step p (answers s) = free_slot s p

-- The slots that are free, that wait for transmission, and that are under way.
pub data View : Type 0 where
  view : (free queued flight : List ℕ) → View

-- The specification: two queues and a set of slots that are under way.
pub data Move : View → Event → View → Type 0 where
  accept :
      (head : Request) (s t : ℕ) (rest queued flight : List ℕ)
      → Move
          (view (s ∷ t ∷ rest) queued flight)
          (receives head)
          (view (t ∷ rest) (queued ++ s ∷ []) flight)
  reject :
      (head : Request) (s : ℕ) (queued flight : List ℕ)
      → Move (view (s ∷ []) queued flight) (receives head) (view (s ∷ []) queued flight)
  transmit :
      (s : ℕ) (free rest flight : List ℕ)
      → Move (view free (s ∷ rest) flight) transmits (view free rest (s ∷ flight))
  idle : (free flight : List ℕ) → Move (view free [] flight) transmits (view free [] flight)
  answer :
      (s : ℕ) (free queued before after : List ℕ)
      → Move
          (view free queued (before ++ s ∷ after))
          (answers s)
          (view (free ++ s ∷ []) queued (before ++ after))

unfoldable pub count : ℕ → List ℕ → ℕ
count a [] = 0
count a (x ∷ xs) = if x == a then suc (count a xs) else count a xs

count-append : (a : ℕ) (xs ys : List ℕ) → count a (xs ++ ys) ≡ count a xs + count a ys
unfolding count
count-append a [] ys = omega arith
count-append a (x ∷ xs) ys = ground (arith, count-append a xs ys)

-- Each slot stands in one of the three lists, once.
pub record IsSplit (free queued flight : List ℕ) : Type 0 where
  pub total : length free + length queued + length flight ≡ max_request_count
  pub once :
      (a : ℕ)
      → count a free + count a queued + count a flight ≡ (if ltb a max_request_count then 1 else 0)

accept-IsSplit :
    (s : ℕ) (free queued flight : List ℕ)
    → IsSplit (s ∷ free) queued flight
    → IsSplit free (queued ++ s ∷ []) flight
unfolding count
accept-IsSplit s free queued flight t = record {
  total = omega (arith, t.total, length-append queued (s ∷ []));
  once = λ a. ground (arith, t.once a, count-append a queued (s ∷ []));
}

transmit-IsSplit :
    (s : ℕ) (free queued flight : List ℕ)
    → IsSplit free (s ∷ queued) flight
    → IsSplit free queued (s ∷ flight)
unfolding count
transmit-IsSplit s free queued flight t = record {
  total = omega (arith, t.total);
  once = λ a. ground (arith, t.once a);
}

answer-IsSplit :
    (s : ℕ) (free queued before after : List ℕ)
    → IsSplit free queued (before ++ s ∷ after)
    → IsSplit (free ++ s ∷ []) queued (before ++ after)
unfolding count
answer-IsSplit s free queued before after t = record {
  total = omega (
    arith,
    t.total,
    length-append free (s ∷ []),
    length-append before (s ∷ after),
    length-append before after,
  );
  once = λ a. ground (
    arith,
    t.once a,
    count-append a free (s ∷ []),
    count-append a before (s ∷ after),
    count-append a before after,
  );
}

-- The view describes the proxy, and each slot occurs in it once.
pub data Tracks : View → Proxy → Type 0 where
  tracks :
      (free queued flight : List ℕ) (p : Proxy)
      → Holds free queued p
      → IsSplit free queued flight
      → Tracks (view free queued flight) p

-- A response comes only for a slot that is under way.
abbrev pub IsDue : View → Event → Type 0
IsDue (view free queued flight) (answers s) =
    (before : List ℕ) × (after : List ℕ) × (flight ≡ before ++ s ∷ after)
IsDue v _ = Unit {0}

accept-Tracks :
    (head : Request) (s t : ℕ) (rest queued flight : List ℕ) (p : Proxy)
    → Holds (s ∷ t ∷ rest) queued p
    → IsSplit (s ∷ t ∷ rest) queued flight
    → Tracks (view (t ∷ rest) (queued ++ s ∷ []) flight) (accept_request head p).0
unfolding accept_request
accept-Tracks head s t rest queued flight p h i =
    let (e, g) = get_slot-Holds s t rest queued p h in
    rw (e, accept_request)
      (tracks (t ∷ rest) (queued ++ s ∷ []) flight (enqueue_request s head (get_slot p).0)
        (enqueue_request-Holds s head (t ∷ rest) queued (get_slot p).0 g (omega (arith, i.total)))
        (accept-IsSplit s (t ∷ rest) queued flight i))

reject-eq :
    (head : Request) (s : ℕ) (queued : List ℕ) (p : Proxy)
    → Holds (s ∷ []) queued p
    → accept_request head p ≡ (p, false)
unfolding accept_request
reject-eq head s queued p h =
    let e = get_slot_last s queued p h in rw (ap (λ x. x.1) e, accept_request, ap (λ x. x.0) e) refl

unfoldable pub numbers : ℕ → ℕ → List ℕ
numbers a zero = []
numbers a (suc n) = a ∷ numbers (a + 1) n

length-numbers : (a n : ℕ) → length (numbers a n) ≡ n
unfolding numbers
length-numbers a zero = refl
length-numbers a (suc n) = ap suc (length-numbers (a + 1) n)

count-numbers :
    (b a n : ℕ) → count b (numbers a n) ≡ (if leb a b then if ltb b (a + n) then 1 else 0 else 0)
unfolding count numbers
count-numbers b a zero = ground arith
count-numbers b a (suc n) = ground (arith, count-numbers b (a + 1) n)

count-initial :
    (a : ℕ)
    → count a (numbers 1 127 ++ 0 ∷ []) + count a [] + count a []
      ≡ (if ltb a max_request_count then 1 else 0)
unfolding count
count-initial a = ground (arith, count-append a (numbers 1 127) (0 ∷ []), count-numbers a 1 127)

-- After initRequestBuffers the rings are in step with the specification in which the slots 1 to 127
-- and then 0 are free, none is queued and none is under way.
pub init-Tracks : Tracks (view (numbers 1 127 ++ 0 ∷ []) [] []) init_request_buffers
unfolding init_request_buffers numbers count
init-Tracks =
    tracks (numbers 1 127 ++ 0 ∷ []) [] [] init_request_buffers
      (record {
        spare = omega arith;
        last_free = omega arith;
        last_in = omega arith;
        last_out = omega arith;
        ring_free = record {
          room = refl;
          within = omega arith;
          fits = omega arith;
          held = refl;
          behind = refl;
        };
        waiting = omega arith;
        ring_queue = record {
          room = refl;
          within = omega arith;
          fits = omega arith;
          held = refl;
          behind = refl;
        };
      })
      (record { total = refl; once = count-initial })

-- Whatever the specification allows on an event the proxy does.
pub move-Tracks :
    (v w : View) (p : Proxy) (e : Event) → Tracks v p → Move v e w → Tracks w (step p e)
unfolding step
move-Tracks v w p e (tracks free queued flight q h i) (accept head s t rest _ _) =
    accept-Tracks head s t rest queued flight p h i
move-Tracks v w p e (tracks free queued flight q h i) (reject head s _ _) =
    subst (Tracks w) (sym (ap (λ x. x.0) (reject-eq head s queued p h)))
      (tracks free queued flight p h i)
move-Tracks v w p e (tracks free queued flight q h i) (transmit s _ rest _) =
    tracks free rest (s ∷ flight) (get_next_request_to_send p).0
      (next_request-Holds s free rest p h).1 (transmit-IsSplit s free rest flight i)
move-Tracks v w p e (tracks free queued flight q h i) (idle _ _) =
    subst (Tracks w) (sym (ap (λ x. x.0) (next_request_none free p h)))
      (tracks free [] flight p h i)
move-Tracks v w p e (tracks free queued flight q h i) (answer s _ _ before after) =
    tracks (free ++ s ∷ []) queued (before ++ after) (free_slot s p)
      (free_slot-Holds s free queued p h (omega (arith, i.total, length-append before (s ∷ after))))
      (answer-IsSplit s free queued before after i)

move : (v : View) (p : Proxy) (e : Event) → Tracks v p → IsDue v e → (w : View) × Move v e w
move v p (receives head) (tracks [] queued flight q h i) d = absurd (omega (arith, h.spare))
move v p (receives head) (tracks (s ∷ []) queued flight q h i) d =
    (view (s ∷ []) queued flight, reject head s queued flight)
move v p (receives head) (tracks (s ∷ t ∷ rest) queued flight q h i) d =
    (view (t ∷ rest) (queued ++ s ∷ []) flight, accept head s t rest queued flight)
move v p transmits (tracks free [] flight q h i) d = (view free [] flight, idle free flight)
move v p transmits (tracks free (s ∷ rest) flight q h i) d =
    (view free rest (s ∷ flight), transmit s free rest flight)
move v p (answers s) (tracks free queued flight q h i) (before, after, d) = (
  view (free ++ s ∷ []) queued (before ++ after),
  subst
      (λ f. Move (view free queued f) (answers s) (view (free ++ s ∷ []) queued (before ++ after)))
      (sym d) (answer s free queued before after),
)

-- In a proxy in step with the specification every due event is a move of the specification: a
-- request is taken in at the end of the queue unless the last free slot is all that is left, the
-- first of the queue is transmitted, and an answered slot is free again; afterwards they are still
-- in step, so that every slot is free, queued or under way, in one place only.
pub step-Tracks :
    (v : View) (p : Proxy) (e : Event)
    → Tracks v p
    → IsDue v e
    → (w : View) × Move v e w × Tracks w (step p e)
step-Tracks v p e t d = let (w, m) = move v p e t d in (w, m, move-Tracks v w p e t m)

pub run : Proxy → List Event → Proxy
run p [] = p
run p (e ∷ es) = run (step p e) es

pub data Moves : View → List Event → View → Type 0 where
  done : (v : View) → Moves v [] v
  more :
      (u v w : View) (e : Event) (es : List Event) → Move u e v → Moves v es w → Moves u (e ∷ es) w

-- From a state in step with the specification, two queues of slots and a set of slots that are
-- under way, the proxy's rings follow every history that the specification allows.
pub run-Tracks :
    (u w : View) (p : Proxy) (es : List Event) → Tracks u p → Moves u es w → Tracks w (run p es)
unfolding run
run-Tracks u w p es t (done v) = t
run-Tracks u w p es t (more _ v _ e rest m ms) =
    run-Tracks v w (step p e) rest (move-Tracks u v p e t m) ms
