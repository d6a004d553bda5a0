-- ===== src/Proxy/Packets.antt =====
-- cms/ioproxy.c: a data packet from the external proxy, in the layout of `transmit` of
-- Dialed3270HostConnector.java, and the VMCF reply it becomes.
use nicof.Prelude.{
  get_or-append, drop_plus, ℕ, ◌+◌, ◌*◌, ◌^◌, ◌-◌, ◌/◌, ◌%◌, ◌≤◌, ◌<◌, ◌≡◌, ◌∙◌, refl, ap, subst,
  ◌⊎◌, Bool, true, false, some, List, [], ◌∷◌, ◌++◌, All, arith, length, append_assoc, replicate,
  get_or, get_elem?, take, drop, take-append, leb, ltb, min, ◌==◌, ◌||◌, if◌then◌else◌,
}
use nicof.Proxy.{Request, free_slot, max_request_count}
use nicof.Proxy.Link.{
  Link, enter, s_i_idle, handshake_dosend, handshake_ack, vmcf_reply, ask, s_receiving,
  s_i_receiving, s_i_reconnect_cpread,
}
use nicof.Proxy.Receive.{
  aid_f4, aid_enter, recv_buffer_len, half, full, plain, deliver, data_packet, keep_receiving,
  end_receive_packet,
}
use nicof.Proxy.Encoding.{IsByte, encode, blocks, padding, decode-encode, length-encode}

abbrev pub half_bytes : ℕ → List ℕ
half_bytes x = (x / 256) % 256 ∷ x % 256 ∷ []

abbrev pub full_bytes : ℕ → List ℕ
full_bytes x = (x / 16777216) % 256 ∷ (x / 65536) % 256 ∷ (x / 256) % 256 ∷ x % 256 ∷ []

-- The response to the request in a slot.
pub record Response : Type 0 where
  pub slot : ℕ
  pub user_word1 : ℕ
  pub user_word2 : ℕ
  pub bytes : List ℕ

-- The part of a packet behind the AID, the cursor and the user, before it is encoded.
abbrev pub content : Response → List ℕ
content r =
    half_bytes r.slot
    ++ (full_bytes r.user_word1
        ++ (full_bytes r.user_word2 ++ (half_bytes (length r.bytes) ++ r.bytes)))

-- That part in either mode of transfer.
abbrev pub sent : Bool → Response → List ℕ
sent binary r = if binary then content r else encode (content r)

-- What `deliver` does where it finds the fields of a response.
deliver_lem :
    (keep : Bool) (l : Link) (req : Request) (r : Response) (memory after : List ℕ) (recv_len : ℕ)
    → half memory 11 ≡ r.slot
    → full memory 13 ≡ r.user_word1
    → full memory 17 ≡ r.user_word2
    → half memory 21 ≡ length r.bytes
    → drop 23 memory ≡ r.bytes ++ after
    → 21 + length r.bytes ≤ recv_len
    → recv_len < 4096
    → r.slot < max_request_count
    → get_elem? l.proxy.requests r.slot ≡ some req
    → deliver keep (memory, recv_len) l
      ≡ keep_receiving keep (
          ask
            (vmcf_reply req.user req.msg_id r.user_word1 r.user_word2 r.bytes)
            (record l { proxy = free_slot r.slot l.proxy }))
unfolding deliver
deliver_lem keep l req r memory after recv_len h1 h2 h3 h4 h5 fits small ok found =
    let low : leb max_request_count r.slot ≡ false = ground arith in
    let len : min (length r.bytes) ((recv_len + 65536 - 21) % 65536) ≡ length r.bytes =
      omega arith in
    rw (h1, low, found, h2, h3, h4, h5, len, take-append r.bytes after)
      (ap
        (λ slot. keep_receiving keep (
          ask (vmcf_reply req.user req.msg_id r.user_word1 r.user_word2 r.bytes)
            (record l { proxy = free_slot slot l.proxy })))
        h1)

-- What fits the packet and the machine's words.
pub record IsResponse (r : Response) : Type 0 where
  pub slot : r.slot < max_request_count
  pub user_word1 : r.user_word1 < 2 ^ 32
  pub user_word2 : r.user_word2 < 2 ^ 32
  pub short : length r.bytes ≤ 2048
  pub bytes : All IsByte r.bytes

-- The reply that the response to a request becomes, and what the proxy enters then: with `keep` it
-- asks for more input, and else it acknowledges.
abbrev pub replied : Bool → Request → Response → Link → Link
replied keep req r l =
    let done =
      ask (vmcf_reply req.user req.msg_id r.user_word1 r.user_word2 r.bytes)
        (record l { proxy = free_slot r.slot l.proxy }) in
    if keep then enter s_i_receiving handshake_dosend done else enter s_i_idle handshake_ack done

behind :
    (lead ys : List ℕ) → length lead ≡ 11 → (i : ℕ) → get_or (lead ++ ys) (11 + i) 0 ≡ get_or ys i 0
behind lead ys h i =
    subst (λ n. get_or (lead ++ ys) (n + i) 0 ≡ get_or ys i 0) h (get_or-append lead ys i 0)

behind_drop :
    (lead ys : List ℕ) → length lead ≡ 11 → (n : ℕ) → drop (11 + n) (lead ++ ys) ≡ drop n ys
behind_drop lead ys h n = subst (λ k. drop (k + n) (lead ++ ys) ≡ drop n ys) h (drop_plus lead ys n)

behind_half :
    (lead ys : List ℕ) → length lead ≡ 11 → (i : ℕ) → half (lead ++ ys) (11 + i) ≡ half ys i
behind_half lead ys h i =
    let e : 11 + i + 1 ≡ 11 + (i + 1) = omega arith in
    rw (e, behind lead ys h i, behind lead ys h (i + 1)) refl

behind_full :
    (lead ys : List ℕ) → length lead ≡ 11 → (i : ℕ) → full (lead ++ ys) (11 + i) ≡ full ys i
behind_full lead ys h i =
    let e : 11 + i + 2 ≡ 11 + (i + 2) = omega arith in
    rw (e, behind_half lead ys h i, behind_half lead ys h (i + 2)) refl

deliver-content :
    (keep : Bool) (l : Link) (req : Request) (r : Response) (lead after : List ℕ) (recv_len : ℕ)
    → IsResponse r
    → length lead ≡ 11
    → 21 + length r.bytes ≤ recv_len
    → recv_len < 4096
    → get_elem? l.proxy.requests r.slot ≡ some req
    → deliver keep (lead ++ (content r ++ after), recv_len) l ≡ replied keep req r l
deliver-content keep l req r lead after recv_len ok h fits small found =
    deliver_lem keep l req r (lead ++ ys) after recv_len
      (behind_half lead ys h 0 ∙ omega (arith, ok.slot))
      (behind_full lead ys h 2 ∙ omega (arith, ok.user_word1))
      (behind_full lead ys h 6 ∙ omega (arith, ok.user_word2))
      (behind_half lead ys h 10 ∙ omega (arith, ok.short)) (behind_drop lead ys h 12) fits small
      ok.slot found
  where
    ys : List ℕ
    ys = content r ++ after

content-IsByte : (r : Response) → IsResponse r → All IsByte (content r)
content-IsByte r ok = (
  omega arith,
  (
    omega arith,
    (
      omega arith,
      (
        omega arith,
        (
          omega arith,
          (
            omega arith,
            (
              omega arith,
              (omega arith, (omega arith, (omega arith, (omega arith, (omega arith, ok.bytes))))),
            ),
          ),
        ),
      ),
    ),
  ),
)

plain-encode :
    (r : Response) (lead rest : List ℕ)
    → IsResponse r
    → length lead ≡ 11
    → (after : List ℕ) × (plain false
          (lead ++ (encode (content r) ++ rest))
          (11 + length (encode (content r)))
        ≡ (lead ++ (content r ++ after), 11 + blocks (content r) * 7))
unfolding plain
plain-encode r lead rest ok h = (
  zeros ++ tail,
  rw
      (
        count,
        shown,
        behind_drop lead (encode (content r) ++ rest) h 0,
        decode-encode (content r) rest (content-IsByte r ok),
      )
      (ap (λ m. (m, 11 + blocks (content r) * 7))
        (append_assoc lead (content r ++ zeros) tail
          ∙ ap (◌++◌ lead) (append_assoc (content r) zeros tail))),
)
  where
    memory : List ℕ
    memory = lead ++ (encode (content r) ++ rest)

    zeros : List ℕ
    zeros = replicate (padding (content r)) 0

    tail : List ℕ
    tail = drop (11 + blocks (content r) * 7) memory

    count : (11 + length (encode (content r)) - 11 + 7) / 8 ≡ blocks (content r)
    count = omega (arith, length-encode (content r) (content-IsByte r ok))

    shown : take 11 memory ≡ lead
    shown = subst (λ n. take n memory ≡ lead) h (take-append lead (encode (content r) ++ rest))

length-sent : (binary : Bool) (r : Response) → IsResponse r → 12 ≤ length (sent binary r)
length-sent true r ok = omega (arith, ok.short)
length-sent false r ok = omega (arith, ok.short, length-encode (content r) (content-IsByte r ok))

deliver-plain :
    (binary keep : Bool) (l : Link) (req : Request) (r : Response) (lead rest : List ℕ)
    → IsResponse r
    → length lead ≡ 11
    → get_elem? l.proxy.requests r.slot ≡ some req
    → deliver keep (plain binary (lead ++ (sent binary r ++ rest)) (11 + length (sent binary r))) l
      ≡ replied keep req r l
unfolding plain
deliver-plain true keep l req r lead rest ok h found =
    deliver-content keep l req r lead rest (11 + length (content r)) ok h (omega arith)
      (omega (arith, ok.short)) found
deliver-plain false keep l req r lead rest ok h found =
    let (after, e) = plain-encode r lead rest ok h in
    rw e (
      deliver-content keep l req r lead after (11 + blocks (content r) * 7) ok h (omega arith)
        (omega (arith, ok.short)) found)

data_packet-response :
    (keep : Bool) (l : Link) (req : Request) (r : Response) (lead rest : List ℕ)
    → IsResponse r
    → length lead ≡ 11
    → (l.pstate ≡ s_receiving) ⊎ (l.pstate ≡ s_i_receiving)
    → get_elem? l.proxy.requests r.slot ≡ some req
    → data_packet keep
        (lead ++ (sent l.using_binary_transfer r ++ rest))
        (11 + length (sent l.using_binary_transfer r))
        l
      ≡ replied keep req r l
unfolding data_packet
data_packet-response keep l req r lead rest ok h state found =
    let due : (l.pstate == s_receiving || l.pstate == s_i_receiving) ≡ true = ground arith in
    rw due (deliver-plain l.using_binary_transfer keep l req r lead rest ok h found)

-- While the proxy receives, a data packet that the external proxy has written in the agreed
-- transfer mode (plain or 7-to-8 encoded) for a slot below 128, with at most 2048 bytes of data,
-- becomes one VMCF reply to the user and message noted in that slot, with the packet's two words
-- and its bytes unchanged; the slot is freed, and the proxy asks for more input or acknowledges, as
-- the packet's AID says.
pub end_receive_packet-response :
    (keep : Bool) (l : Link) (req : Request) (r : Response) (tail rest in_data : List ℕ)
    (rest_len : ℕ)
    → IsResponse r
    → length tail ≡ 10
    → (l.pstate ≡ s_receiving) ⊎ (l.pstate ≡ s_i_receiving)
    → get_elem? l.proxy.requests r.slot ≡ some req
    → rest_len + 11 + length (sent l.using_binary_transfer r) ≡ recv_buffer_len
    → end_receive_packet
        ((if keep then aid_f4 else aid_enter) ∷ (tail ++ (sent l.using_binary_transfer r ++ rest)))
        rest_len
        in_data
        l
      ≡ some (replied keep req r (record l { in_recv = false }))
unfolding end_receive_packet
end_receive_packet-response true l req r tail rest in_data rest_len ok h state found whole =
    let n : recv_buffer_len - rest_len ≡ 11 + length (sent l.using_binary_transfer r) =
      omega arith in
    let some_input : ltb (11 + length (sent l.using_binary_transfer r)) 1 ≡ false = ground arith in
    let long : ltb (11 + length (sent l.using_binary_transfer r)) 21 ≡ false =
      ground (arith, length-sent l.using_binary_transfer r ok) in
    rw (n, some_input, long)
      (ap some (
        data_packet-response true (record l { in_recv = false }) req r (aid_f4 ∷ tail) rest ok
          (omega arith) state found))
end_receive_packet-response false l req r tail rest in_data rest_len ok h state found whole =
    let n : recv_buffer_len - rest_len ≡ 11 + length (sent l.using_binary_transfer r) =
      omega arith in
    let some_input : ltb (11 + length (sent l.using_binary_transfer r)) 1 ≡ false = ground arith in
    let long : ltb (11 + length (sent l.using_binary_transfer r)) 21 ≡ false =
      ground (arith, length-sent l.using_binary_transfer r ok) in
    let other : (l.pstate == s_i_reconnect_cpread) ≡ false = ground arith in
    rw (n, some_input, other, long)
      (ap some (
        data_packet-response false (record l { in_recv = false }) req r (aid_enter ∷ tail) rest ok
          (omega arith) state found))
