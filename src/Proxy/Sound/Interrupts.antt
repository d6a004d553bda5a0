-- ===== src/Proxy/Sound/Interrupts.antt =====
-- cms/ioproxy.c: every interrupt is handled, and leaves a proxy that works.
use nicof.Prelude.{
  ℕ, ◌-◌, ◌<◌, ◌≡◌, ◌≢◌, refl, ◌⊎◌, inl, inr, Bool, true, false, ◌&&◌, ◌||◌, Option, none, some,
  List, [], ◌∷◌, ◌++◌, length, arith, ltb, ◌==◌, if◌then◌else◌, get_or, Bool-cases,
}
use nicof.Proxy.{max_request_count, init_request_buffers}
use nicof.Proxy.Flow.{View, view, numbers, init-Tracks}
use nicof.Proxy.Link.{
  Link, s_idle, s_initial, s_i_reset, s_i_reconnect_cpread, enter_i_reset, enter_i_reconnect_cpread,
  s_i_transmitprep, s_transmitprep, s_receiving, s_i_receiving, reset_all_requests,
}
use nicof.Proxy.Receive.{
  Interrupt, senr, stat, device, handle, handle_device, end_receive_packet, want_send, welcome, ack,
  ack_want_send, reconnect, data_packet, plain, half, begin_receive_packet, recv_buffer_len, aid_f1,
  aid_f2, aid_f3, aid_f4, aid_f5, aid_f9, aid_clear, aid_enter, is_dial,
}
use nicof.Proxy.Sound.{
  waiting, Works, Change, restarted, Handled, IsUnderWay, having_eq, built, kept, want_send-IsSound,
  welcome-IsSound, ack_data-IsSound, ack_want_send-IsSound, sio_ended-IsSound,
  transmit_next-Handled, handle_senr-Handled, deliver-Handled,
}

ack-Handled :
    (v : View) (l : Link) (memory : List ℕ) (recv_len : ℕ) (in_data : List ℕ)
    → Works v l
    → Handled v (ack memory recv_len in_data l)
unfolding ack
ack-Handled v l memory recv_len in_data w = elim (Bool-cases (l.pstate == s_transmitprep)) [
  | inl t ↦ rw (t, ack) (transmit_next-Handled v l in_data w (ground (arith, w.sound)))
  | inr t ↦
      rw (t, ack)
        (kept v l _ w
          (ack_data-IsSound (waiting v) l w.sound memory recv_len (having_eq v l.proxy w.tracks)))
]

requests-init : length init_request_buffers.requests ≡ max_request_count
unfolding init_request_buffers
requests-init = refl

reconnect-Handled :
    (v : View) (l : Link) (memory : List ℕ) → Works v l → Handled v (some (reconnect memory l))
unfolding reset_all_requests
reconnect-Handled v l memory w = elim (Bool-cases (is_dial memory)) [
  | inl t ↦ rw t (
    _,
    view (numbers 1 127 ++ 0 ∷ []) [] [],
    refl,
    restarted,
    built _ _ init_request_buffers refl init-Tracks requests-init
        (λ h. ground arith, λ h. ground arith),
  )
  | inr t ↦ rw t (kept v l _ w (refl, (λ h. ground arith, λ h. ground arith)))
]

-- A data packet that the proxy expects answers a request that is under way.
abbrev pub IsExpected : View → Link → List ℕ → ℕ → Type 0
IsExpected v l memory recv_len =
    (l.pstate ≡ s_receiving) ⊎ (l.pstate ≡ s_i_receiving)
    → half (plain l.using_binary_transfer memory recv_len).0 11 < max_request_count
    → IsUnderWay (half (plain l.using_binary_transfer memory recv_len).0 11) v

data_packet-Handled :
    (v : View) (l : Link) (keep : Bool) (memory : List ℕ) (recv_len : ℕ)
    → Works v l
    → IsExpected v l memory recv_len
    → Handled v (some (data_packet keep memory recv_len l))
unfolding data_packet
data_packet-Handled v l keep memory recv_len w due =
    elim (Bool-cases (l.pstate == s_receiving || l.pstate == s_i_receiving)) [
      | inl t ↦
          rw (t, data_packet)
            (deliver-Handled v l keep (plain l.using_binary_transfer memory recv_len).0
              (plain l.using_binary_transfer memory recv_len).1 w (due (ground arith)))
      | inr t ↦ rw (t, data_packet) (kept v l _ w (refl, (λ h. ground arith, λ h. ground arith)))
    ]

if-Handled :
    (v : View) (b : Bool) (x y : Option Link)
    → (b ≡ true → Handled v x)
    → (b ≡ false → Handled v y)
    → Handled v (if b then x else y)
if-Handled v true x y f g = f refl
if-Handled v false x y f g = g refl

-- A branch that ends in a state that asks nothing of the queue.
abbrev pub IsFree : ℕ → Type 0
IsFree s = (s ≢ s_i_transmitprep) × (s ≢ s_transmitprep) × (s ≢ s_idle)

s_i_reconnect_cpread-IsFree : IsFree s_i_reconnect_cpread
s_i_reconnect_cpread-IsFree = (λ e. omega arith, λ e. omega arith, λ e. omega arith)

s_i_reset-IsFree : IsFree s_i_reset
s_i_reset-IsFree = (λ e. omega arith, λ e. omega arith, λ e. omega arith)

freed :
    (v : View) (l m : Link) → Works v l → m.proxy ≡ l.proxy → IsFree m.pstate → Handled v (some m)
freed v l m w e (a, b, c) =
    kept v l m w (e, (λ h. absurd (elim h [ inl x ↦ a x | inr x ↦ b x ]), λ h. absurd (c h)))

end_receive_packet-Handled :
    (v : View) (l : Link) (memory : List ℕ) (rest_len : ℕ) (in_data : List ℕ)
    → Works v l
    → ((get_or memory 0 0 ≡ aid_f4) ⊎ (get_or memory 0 0 ≡ aid_enter)
        → IsExpected v l memory (recv_buffer_len - rest_len))
    → Handled v (end_receive_packet memory rest_len in_data l)
unfolding end_receive_packet
end_receive_packet-Handled v l0 memory rest_len in_data w0 due =
    if-Handled v (ltb recv_len 1) _ _ (λ t. kept v l l w (refl, w.sound))
      λ _.
        if-Handled v (aid == aid_f5) _ _
          (λ t. kept v l (want_send l) w (want_send-IsSound (waiting v) l w.sound))
          λ _.
            if-Handled v (aid == aid_f2 || aid == aid_f9) _ _
              (λ t.
                kept v l (welcome (aid == aid_f9) l) w
                  (welcome-IsSound (waiting v) l w.sound (aid == aid_f9)))
              λ _.
                if-Handled v (aid == aid_f1) _ _ (λ t. ack-Handled v l memory recv_len in_data w)
                  λ _.
                    if-Handled v (aid == aid_f3) _ _
                      (λ t.
                        kept v l (ack_want_send l) w (ack_want_send-IsSound (waiting v) l w.sound))
                      λ _.
                        if-Handled v (aid == aid_clear) _ _
                          (λ t.
                            freed v l (enter_i_reconnect_cpread l) w refl
                              s_i_reconnect_cpread-IsFree)
                          λ _.
                            if-Handled v (aid == aid_enter && l.pstate == s_i_reconnect_cpread) _ _
                              (λ t. reconnect-Handled v l memory w)
                              λ _.
                                if-Handled v (ltb recv_len 21) _ _
                                  (λ t. freed v l (enter_i_reset l) w refl s_i_reset-IsFree)
                                  λ _.
                                    if-Handled v (aid == aid_f4) _ _
                                      (λ t.
                                        data_packet-Handled v l true memory recv_len w
                                          (due (inl (ground arith))))
                                      λ _.
                                        if-Handled v (aid == aid_enter) _ _
                                          (λ t.
                                            data_packet-Handled v l false memory recv_len w
                                              (due (inr (ground arith))))
                                          λ _. freed v l (enter_i_reset l) w refl s_i_reset-IsFree
  where
    l : Link
    l = record l0 { in_recv = false }

    w : Works v l
    w = record { tracks = w0.tracks; slots = w0.slots; sound = w0.sound }

    recv_len : ℕ
    recv_len = recv_buffer_len - rest_len

    aid : ℕ
    aid = get_or memory 0 0

-- A data packet that the external proxy sends answers a request that is under way.
abbrev pub IsHonest : View → Link → Interrupt → Type 0
IsHonest v l (device attention device_end rest_len memory in_data) =
    (get_or memory 0 0 ≡ aid_f4) ⊎ (get_or memory 0 0 ≡ aid_enter)
    → IsExpected v l memory (recv_buffer_len - rest_len)
IsHonest v l _ = Unit {0}

-- The rest of the console's interrupt, once a read has been started.
console-Handled :
    (v : View) (l : Link) (device_end : Bool) (rest_len : ℕ) (memory in_data : List ℕ)
    → Works v l
    → ((get_or memory 0 0 ≡ aid_f4) ⊎ (get_or memory 0 0 ≡ aid_enter)
        → IsExpected v l memory (recv_buffer_len - rest_len))
    → Handled v (handle_device false device_end rest_len memory in_data l)
unfolding handle_device
console-Handled v l device_end rest_len memory in_data w h =
    if-Handled v device_end _ _
      (λ _.
        if-Handled v l.in_recv _ _ (λ _. end_receive_packet-Handled v l memory rest_len in_data w h)
          (λ _.
            kept v l _ w (sio_ended-IsSound (waiting v) l w.sound (having_eq v l.proxy w.tracks))))
      (λ _. kept v l l w (refl, w.sound))

-- Of a proxy in step with its specification, whose state announces a packet only where one waits,
-- and idles only where none waits, every interrupt is handled without the use of a NULL request, if
-- each data packet names a slot under way: the slots change by a move of the specification or not
-- at all, or all start anew, and the proxy stays such.
pub handle-Works :
    (v : View) (l : Link) (e : Interrupt)
    → Works v l
    → IsHonest v l e
    → (m : Link) × (w : View) × (handle e l ≡ some m) × Change v w × Works w m
unfolding handle handle_device
handle-Works v l (senr head) w h = handle_senr-Handled v l head w
handle-Works v l stat w h = kept v l _ w (refl, w.sound)
handle-Works v l (device true device_end rest_len memory in_data) w h =
    console-Handled v (begin_receive_packet l) device_end rest_len memory in_data
      (record { tracks = w.tracks; slots = w.slots; sound = w.sound }) h
handle-Works v l (device false device_end rest_len memory in_data) w h =
    console-Handled v l device_end rest_len memory in_data w h

-- The proxy as it starts.
unfoldable pub start : Link
start = record {
  proxy = init_request_buffers;
  pstate = s_initial;
  in_recv = false;
  using_binary_transfer = false;
  actions = [];
}

pub start-Works : Works (view (numbers 1 127 ++ 0 ∷ []) [] []) start
unfolding start
start-Works =
    built _ _ init_request_buffers refl init-Tracks requests-init
      (λ h. ground arith, λ h. ground arith)

unfoldable pub run : List Interrupt → Link → Option Link
run [] l = some l
run (e ∷ es) l = elim (handle e l) [ none ↦ none | some m ↦ run es m ]

-- Each interrupt is honest where it comes.
abbrev pub IsHonestRun : View → Link → List Interrupt → Type 0
IsHonestRun v l [] = Unit {0}
IsHonestRun v l (e ∷ es) =
    IsHonest v l e
    × ((m : Link) (w : View) → handle e l ≡ some m → Change v w → Works w m → IsHonestRun w m es)

run_from-Works :
    (v : View) (l : Link) (es : List Interrupt)
    → Works v l
    → IsHonestRun v l es
    → (m : Link) × (w : View) × (run es l ≡ some m) × Works w m
unfolding run
run_from-Works v l [] w h = (l, v, refl, w)
run_from-Works v l (e ∷ es) w h =
    let (m, u, done, c, k) = handle-Works v l e w h.0 in
    rw (done, run) (run_from-Works u m es k (h.1 m u done c k))

-- From the start of the proxy, any sequence of interrupts, in which each data packet names a slot
-- under way when it comes, is handled to its end, without the use of a NULL request, and leaves the
-- slots and the state in step with the specification.
pub run-Works :
    (es : List Interrupt)
    → IsHonestRun (view (numbers 1 127 ++ 0 ∷ []) [] []) start es
    → (m : Link) × (w : View) × (run es start ≡ some m) × Works w m
run-Works es h = run_from-Works (view (numbers 1 127 ++ 0 ∷ []) [] []) start es start-Works h
