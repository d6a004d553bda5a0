-- ===== src/Proxy/Sound.antt =====
-- cms/ioproxy.c: the console protocol keeps the request buffers in order, and no interrupt makes the
-- proxy use a NULL request.
pub mod Interrupts
use nicof.Prelude.{
  ℕ, zero, suc, ◌+◌, ◌-◌, ◌%◌, ◌≤◌, ◌<◌, ◌≡◌, ◌∙◌, refl, sym, ap, subst, ◌⊎◌, inl, inr, Bool, true,
  false, not, ◌&&◌, ◌||◌, Option, none, some, List, [], ◌∷◌, ◌++◌, length, arith, length-append,
  ltb, leb, ◌==◌, if◌then◌else◌, get_elem?, get_or, Bool-cases, Option-cases,
}
use nicof.Proxy.{
  Proxy, Request, max_request_count, get_slot, free_slot, enqueue_request, get_next_request_to_send,
  edit, accept_request, having_request, init_request_buffers,
}
use nicof.Proxy.Buffers.{
  Holds, get_slot-Holds, get_slot_last, next_request-Holds, next_request_none,
}
use nicof.Proxy.Flow.{
  Event, receives, transmits, answers, View, view, count, Move, accept, reject, transmit, idle,
  answer, IsSplit, Tracks, tracks, move-Tracks, step, init-Tracks, numbers,
}
use nicof.Proxy.Link.{
  Link, s_idle, s_i_transmitprep, s_transmitprep, s_receiving, s_i_receiving, s_i_transmitting,
  enter_i_transmitting, transmit_next, reset_all_requests, handle_senr,
}
use nicof.Proxy.Receive.{
  Interrupt, senr, stat, device, handle, handle_device, end_receive_packet, want_send, welcome, ack,
  ack_data, ack_want_send, reconnect, data_packet, deliver, plain, half, sio_ended,
  begin_receive_packet, keep_receiving,
}

-- While the proxy announces a packet there is one to send; while it idles there is none.
abbrev pub IsSound : ℕ → ℕ → Type 0
IsSound n s = ((s ≡ s_i_transmitprep) ⊎ (s ≡ s_transmitprep) → 0 < n) × (s ≡ s_idle → n ≡ 0)

-- The requests that wait for transmission.
abbrev pub waiting : View → ℕ
waiting (view free queued flight) = length queued

pub record Works (v : View) (l : Link) : Type 0 where
  pub tracks : Tracks v l.proxy
  pub slots : length l.proxy.requests ≡ max_request_count
  pub sound : IsSound (waiting v) l.pstate

having_some :
    (s : ℕ) (free queued : List ℕ) (p : Proxy) → Holds free (s ∷ queued) p → having_request p ≡ true
unfolding having_request
having_some s free queued p h =
    ground (arith, h.ring_queue.behind, h.waiting, h.last_in, h.last_out)

having_none : (free : List ℕ) (p : Proxy) → Holds free [] p → having_request p ≡ false
unfolding having_request
having_none free p h = ground (arith, h.ring_queue.behind, h.last_in, h.last_out)

-- The answer tells whether the queue is empty.
pub having_eq : (v : View) (p : Proxy) → Tracks v p → having_request p ≡ ltb 0 (waiting v)
having_eq v p (tracks free [] flight q h i) = having_none free p h
having_eq v p (tracks free (s ∷ queued) flight q h i) = having_some s free queued p h ∙ ground arith

module _ (n : ℕ) (l : Link) (sound : IsSound n l.pstate) where
  pub want_send-IsSound : ((want_send l).proxy ≡ l.proxy) × IsSound n (want_send l).pstate
  want_send-IsSound = (ground arith, (λ h. ground (arith, sound), λ h. ground (arith, sound)))

  pub welcome-IsSound :
      (b : Bool) → ((welcome b l).proxy ≡ l.proxy) × IsSound n (welcome b l).pstate
  welcome-IsSound b = (ground arith, (λ h. ground (arith, sound), λ h. ground (arith, sound)))

  pub ack_data-IsSound :
      (memory : List ℕ) (recv_len : ℕ)
      → having_request l.proxy ≡ ltb 0 n
      → ((ack_data memory recv_len l).proxy ≡ l.proxy)
        × IsSound n (ack_data memory recv_len l).pstate
  ack_data-IsSound memory recv_len e =
      (ground arith, (λ h. ground (arith, sound, e), λ h. ground (arith, sound, e)))

  pub ack_want_send-IsSound :
      ((ack_want_send l).proxy ≡ l.proxy) × IsSound n (ack_want_send l).pstate
  ack_want_send-IsSound = (ground arith, (λ h. ground (arith, sound), λ h. ground (arith, sound)))

  pub sio_ended-IsSound :
      having_request l.proxy ≡ ltb 0 n
      → ((sio_ended l).proxy ≡ l.proxy) × IsSound n (sio_ended l).pstate
  sio_ended-IsSound e =
      (ground arith, (λ h. ground (arith, sound, e), λ h. ground (arith, sound, e)))

-- What an interrupt does to the slots: nothing, a move of the specification, or a new start.
pub data Change (v : View) : View → Type 0 where
  same : Change v v
  moved : (e : Event) (w : View) → Move v e w → Change v w
  restarted : Change v (view (numbers 1 127 ++ 0 ∷ []) [] [])

abbrev pub Handled : View → Option Link → Type 0
Handled v out = (m : Link) × (w : View) × (out ≡ some m) × Change v w × Works w m

pub built :
    (v : View) (l : Link) (p : Proxy)
    → l.proxy ≡ p
    → Tracks v p
    → length p.requests ≡ max_request_count
    → IsSound (waiting v) l.pstate
    → Works v l
built v l p e t k s = record {
  tracks = subst (Tracks v) (sym e) t;
  slots = ap (λ q. length q.requests) e ∙ k;
  sound = s;
}

-- A branch that leaves the buffers alone.
pub kept :
    (v : View) (l m : Link)
    → Works v l
    → (m.proxy ≡ l.proxy) × IsSound (waiting v) m.pstate
    → Handled v (some m)
kept v l m w (e, s) = (m, v, refl, same, built v m l.proxy e w.tracks w.slots s)

length-edit : (i : ℕ) (f : Request → Request) (rs : List Request) → length (edit i f rs) ≡ length rs
length-edit i f [] = refl
length-edit zero f (r ∷ rs) = refl
length-edit (suc i) f (r ∷ rs) = ap suc (length-edit i f rs)

length-free_slot : (s : ℕ) (p : Proxy) → length (free_slot s p).requests ≡ length p.requests
unfolding free_slot
length-free_slot s p = length-edit s _ p.requests

requests-get_slot : (p : Proxy) → (get_slot p).0.requests ≡ p.requests
unfolding get_slot
requests-get_slot p = ground arith

length-enqueue_request :
    (s : ℕ) (head : Request) (p : Proxy)
    → length (enqueue_request s head p).requests ≡ length p.requests
unfolding enqueue_request
length-enqueue_request s head p = length-edit s _ p.requests

length-accept_request :
    (head : Request) (p : Proxy) → length (accept_request head p).0.requests ≡ length p.requests
unfolding accept_request
length-accept_request head p = elim (Option-cases (get_slot p).1) [
  | inl e ↦ rw (e, accept_request) (ap length (requests-get_slot p))
  | inr (s, e) ↦
      rw (e, accept_request)
        (length-enqueue_request s head (get_slot p).0 ∙ ap length (requests-get_slot p))
]

length-next : (p : Proxy) → length (get_next_request_to_send p).0.requests ≡ length p.requests
unfolding get_next_request_to_send
length-next p = ground arith

get_elem?-some :
    {A : Type 0} (xs : List A) (i : ℕ) → i < length xs → (x : A) × (get_elem? xs i ≡ some x)
get_elem?-some [] i h = absurd (omega arith)
get_elem?-some (x ∷ xs) zero h = (x, refl)
get_elem?-some (x ∷ xs) (suc i) h = get_elem?-some xs i (omega arith)

slot-lt :
    (s : ℕ) (free queued flight : List ℕ) → IsSplit free (s ∷ queued) flight → s < max_request_count
unfolding count
slot-lt s free queued flight i = ground (arith, i.once s)

-- The first request of the queue is given out.
next_slot :
    (v : View) (p : Proxy)
    → Tracks v p
    → 0 < waiting v
    → (s : ℕ) × (w : View) × ((get_next_request_to_send p).1 ≡ some s)
      × (s < max_request_count)
      × Move v transmits w
      × Tracks w (get_next_request_to_send p).0
unfolding step
next_slot v p (tracks free [] flight q h i) k = absurd (omega arith)
next_slot v p (tracks free (s ∷ queued) flight q h i) k =
    let m = transmit s free queued flight in
    (
      s,
      view free queued (s ∷ flight),
      (next_request-Holds s free queued p h).0,
      slot-lt s free queued flight i,
      m,
      move-Tracks v _ p transmits (tracks free (s ∷ queued) flight p h i) m,
    )

-- There is a request to send, and its slot is one of the 128.
pub transmit_next-Handled :
    (v : View) (l : Link) (in_data : List ℕ)
    → Works v l
    → 0 < waiting v
    → Handled v (transmit_next in_data l)
unfolding transmit_next enter_i_transmitting
transmit_next-Handled v l in_data w k =
    let (s, u, e, lt, m, t) = next_slot v l.proxy w.tracks k in
    let len = length-next l.proxy ∙ w.slots in
    let (req, found) =
      get_elem?-some (get_next_request_to_send l.proxy).0.requests s (omega (arith, len)) in
    rw (e, transmit_next)
      (rw (found, transmit_next)
        (
          _,
          u,
          refl,
          moved transmits u m,
          record { tracks = t; slots = len; sound = (λ h. ground arith, λ h. ground arith) },
        ))

-- A request is taken in, or all stays as it was.
accepted :
    (v : View) (p : Proxy) (head : Request)
    → Tracks v p
    → (w : View) × Move v (receives head) w
      × Tracks w (accept_request head p).0
      × (((accept_request head p).1 ≡ true) × (0 < waiting w)
          ⊎ ((accept_request head p).1 ≡ false) × (waiting w ≡ waiting v))
unfolding accept_request step
accepted v p head (tracks [] queued flight q h i) = absurd (omega (arith, h.spare))
accepted v p head (tracks (s ∷ []) queued flight q h i) =
    let m = reject head s queued flight in
    (
      v,
      m,
      move-Tracks v v p (receives head) (tracks (s ∷ []) queued flight p h i) m,
      inr (rw (ap (λ x. x.1) (get_slot_last s queued p h), accept_request) refl, refl),
    )
accepted v p head (tracks (s ∷ t ∷ free) queued flight q h i) =
    let m = accept head s t free queued flight in
    (
      view (t ∷ free) (queued ++ s ∷ []) flight,
      m,
      move-Tracks v _ p (receives head) (tracks (s ∷ t ∷ free) queued flight p h i) m,
      inl (
        rw ((get_slot-Holds s t free queued p h).0, accept_request) refl,
        omega (arith, length-append queued (s ∷ [])),
      ),
    )

pub handle_senr-Handled :
    (v : View) (l : Link) (head : Request) → Works v l → Handled v (some (handle_senr head l))
unfolding handle_senr
handle_senr-Handled v l head w =
    let (u, m, t, o) = accepted v l.proxy head w.tracks in
    (
      handle_senr head l,
      u,
      refl,
      moved (receives head) u m,
      built u (handle_senr head l) (accept_request head l.proxy).0 (ground arith) t
          (length-accept_request head l.proxy ∙ w.slots)
          (λ h. ground (arith, o, w.sound), λ h. ground (arith, o, w.sound)),
    )

-- A response for a slot that is under way frees it.
answered :
    (v : View) (p : Proxy) (s : ℕ) (before after : List ℕ) (free queued : List ℕ)
    → v ≡ view free queued (before ++ s ∷ after)
    → Tracks v p
    → (w : View) × Move v (answers s) w × Tracks w (free_slot s p) × (waiting w ≡ waiting v)
unfolding step
answered v p s before after free queued e t =
    let m = answer s free queued before after in
    (
      view (free ++ s ∷ []) queued (before ++ after),
      subst (λ x. Move x (answers s) (view (free ++ s ∷ []) queued (before ++ after))) (sym e) m,
      move-Tracks (view free queued (before ++ s ∷ after)) _ p (answers s)
          (subst (λ x. Tracks x p) e t) m,
      ap waiting (sym e),
    )

-- The slot is under way.
abbrev pub IsUnderWay : ℕ → View → Type 0
IsUnderWay s v = (free queued before after : List ℕ) × (v ≡ view free queued (before ++ s ∷ after))

pub deliver-Handled :
    (v : View) (l : Link) (keep : Bool) (memory : List ℕ) (recv_len : ℕ)
    → Works v l
    → (half memory 11 < max_request_count → IsUnderWay (half memory 11) v)
    → Handled v (some (deliver keep (memory, recv_len) l))
unfolding deliver
deliver-Handled v l keep memory recv_len w due =
    elim (Bool-cases (leb max_request_count (half memory 11))) [
      | inl t ↦ rw (t, deliver) (kept v l _ w (refl, (λ h. ground arith, λ h. ground arith)))
      | inr t ↦
          let (free, queued, before, after, e) = due (ground arith) in
          let (u, m, tr, n) =
            answered v l.proxy (half memory 11) before after free queued e w.tracks in
          let (req, found) =
            get_elem?-some l.proxy.requests (half memory 11) (ground (arith, w.slots)) in
          rw (t, deliver)
            (rw (found, deliver)
              (
                _,
                u,
                refl,
                moved (answers (half memory 11)) u m,
                built u _ (free_slot (half memory 11) l.proxy) (ground arith) tr
                    (length-free_slot (half memory 11) l.proxy ∙ w.slots)
                    (λ h. ground arith, λ h. ground arith),
              ))
    ]
