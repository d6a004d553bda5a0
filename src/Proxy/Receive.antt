-- ===== src/Proxy/Receive.antt =====
-- cms/ioproxy.c: the interrupts of the 3270 console, and what the proxy does with the input of the
-- external proxy. `memory` is the memory from `recvBuffer` on.
use nicof.Prelude.{
  ℕ, zero, suc, ◌+◌, ◌*◌, ◌-◌, ◌/◌, ◌%◌, Bool, true, false, not, ◌&&◌, ◌||◌, Option, none, some,
  List, [], ◌∷◌, ◌++◌, take, drop, get_elem?, get_or, ltb, leb, min, ◌==◌, if◌then◌else◌,
}
use nicof.Proxy.{Request, max_request_count, free_slot, having_request}
use nicof.Proxy.Link.{
  Link, send_vmcf_reply_for_slot, send_dump, sio, recv_data, ask, s_initial, s_i_welcome, s_i_idle,
  s_idle, s_i_transmitprep, s_transmitprep, s_i_transmitting, s_transmitting, s_i_receiving,
  s_receiving, s_i_reset, s_reset, s_i_reconnect_cpread, enter_i_welcome, enter_i_welcomebin,
  enter_i_transmitprep, enter_i_receiving, enter_i_idle, enter_i_reset, enter_i_reconnect_cpread,
  enter_i_reconnect_dialed, transmit_next, reset_all_requests, handle_senr,
}

-- The AID codes, EBCDIC characters.
abbrev pub aid_enter : ℕ
aid_enter = 0x7d

abbrev pub aid_clear : ℕ
aid_clear = 0x6d

abbrev pub aid_f1 : ℕ
aid_f1 = 0xf1

abbrev pub aid_f2 : ℕ
aid_f2 = 0xf2

abbrev pub aid_f3 : ℕ
aid_f3 = 0xf3

abbrev pub aid_f4 : ℕ
aid_f4 = 0xf4

abbrev pub aid_f5 : ℕ
aid_f5 = 0xf5

abbrev pub aid_f9 : ℕ
aid_f9 = 0xf9

-- `sizeof(recvBuffer)`
abbrev pub recv_buffer_len : ℕ
recv_buffer_len = 2560

abbrev pub begin_receive_packet : Link → Link
begin_receive_packet l = ask (sio recv_data) (record l { in_recv = true })

-- Handshake "want-send".
abbrev pub want_send : Link → Link
want_send l =
    if l.pstate == s_idle
    then enter_i_receiving l
    else if l.pstate == s_transmitprep
    then enter_i_transmitprep l
    else enter_i_reset l

-- Handshake "welcome".
abbrev pub welcome : Bool → Link → Link
welcome binary l =
    let m = record l { using_binary_transfer = binary } in
    if m.pstate == s_initial
    then if binary then enter_i_welcomebin m else enter_i_welcome m
    else enter_i_reset m

-- The second half of handshake "ack".
abbrev pub ack_data : List ℕ → ℕ → Link → Link
ack_data memory recv_len l =
    if l.pstate == s_transmitting || l.pstate == s_reset
    then if having_request l.proxy
      then enter_i_transmitprep l
      else if ltb 3 recv_len && get_or memory 3 0 == aid_f5
      then enter_i_receiving l
      else record l { pstate = s_idle }
    else l

-- Handshake "ack".
unfoldable pub ack : List ℕ → ℕ → List ℕ → Link → Option Link
ack memory recv_len in_data l =
    if l.pstate == s_transmitprep
    then transmit_next in_data l
    else some (ack_data memory recv_len l)

-- Handshake "ack + want-send".
abbrev pub ack_want_send : Link → Link
ack_want_send l =
    if l.pstate == s_transmitting || l.pstate == s_reset
    then enter_i_receiving l
    else enter_i_reset l

-- The characters "DIAL " in the terminal's input.
abbrev pub is_dial : List ℕ → Bool
is_dial memory =
    get_or memory 6 0 == 0xc4
    && get_or memory 7 0 == 0xc9
    && get_or memory 8 0 == 0xc1
    && get_or memory 9 0 == 0xd3
    && get_or memory 10 0 == 0x40

abbrev pub reconnect : List ℕ → Link → Link
reconnect memory l =
    if is_dial memory
    then enter_i_reconnect_dialed (reset_all_requests l)
    else enter_i_reconnect_cpread l

-- `modif & mask` for a mask of one bit.
abbrev pub has_bit : ℕ → ℕ → Bool
has_bit mask modif = not ((modif / mask) % 2 == 0)

-- `b | 0x80` for a byte.
abbrev pub set_high : ℕ → ℕ
set_high b = if ltb b 128 then b + 128 else b

-- The rounds of the decoding loop up to the next `block[7]`.
unfoldable pub unpack : ℕ → ℕ → ℕ → List ℕ → List ℕ
unpack zero mask modif block = []
unpack (suc k) mask modif block =
    let b = get_or block 0 0 in
    (if has_bit mask modif then set_high b else b) ∷ unpack k (mask / 2) modif (drop 1 block)

-- The decoding loop, over `count` blocks of 8 bytes. A byte is written at or before the place of the
-- byte it comes from, so no write hits what is still to be read.
unfoldable pub decode : ℕ → List ℕ → List ℕ
decode zero block = []
decode (suc count) block = unpack 7 0x40 (get_or block 7 0) block ++ decode count (drop 8 block)

-- The memory and the length of the input once the 7-to-8 encoding has been undone.
unfoldable pub plain : Bool → List ℕ → ℕ → List ℕ × ℕ
plain binary memory recv_len =
    let count = (recv_len - 11 + 7) / 8 in
    if binary then (memory, recv_len) else (
      take 11 memory ++ decode count (drop 11 memory) ++ drop (11 + count * 7) memory,
      11 + count * 7,
    )

-- A half word and a full word of the S/370.
abbrev pub half : List ℕ → ℕ → ℕ
half memory i = get_or memory i 0 * 256 + get_or memory (i + 1) 0

abbrev pub full : List ℕ → ℕ → ℕ
full memory i = half memory i * 65536 + half memory (i + 2)

abbrev pub keep_receiving : Bool → Link → Link
keep_receiving keep l = if keep then enter_i_receiving l else enter_i_idle l

-- The response in the input: the slot is a `short`, so that a negative one is 32768 or more here.
unfoldable pub deliver : Bool → List ℕ × ℕ → Link → Link
deliver keep (memory, recv_len) l =
    let slot = half memory 11 in
    let xmit_data_len = min (half memory 21) ((recv_len + 65536 - 21) % 65536) in
    if leb max_request_count slot then enter_i_reset l else elim (get_elem? l.proxy.requests slot) [
      | none ↦ keep_receiving keep l
      | some req ↦
          let reply =
            send_vmcf_reply_for_slot req (full memory 13) (full memory 17)
              (take xmit_data_len (drop 23 memory)) in
          keep_receiving keep (ask reply (record l { proxy = free_slot slot l.proxy }))
    ]

-- A packet counts in the states of receiving only.
unfoldable pub data_packet : Bool → List ℕ → ℕ → Link → Link
data_packet keep memory recv_len l =
    if l.pstate == s_receiving || l.pstate == s_i_receiving
    then deliver keep (plain l.using_binary_transfer memory recv_len) l
    else enter_i_reset l

-- endReceivePacket. `rest_len` is the count in the channel status word; a count above the buffer's
-- length gives no input here, and a negative length there.
unfoldable pub end_receive_packet : List ℕ → ℕ → List ℕ → Link → Option Link
end_receive_packet memory rest_len in_data l0 =
    let l = record l0 { in_recv = false } in
    let recv_len = recv_buffer_len - rest_len in
    let aid = get_or memory 0 0 in
    if ltb recv_len 1
    then some l
    else if aid == aid_f5
    then some (want_send l)
    else if aid == aid_f2 || aid == aid_f9
    then some (welcome (aid == aid_f9) l)
    else if aid == aid_f1
    then ack memory recv_len in_data l
    else if aid == aid_f3
    then some (ack_want_send l)
    else if aid == aid_clear
    then some (enter_i_reconnect_cpread l)
    else if aid == aid_enter && l.pstate == s_i_reconnect_cpread
    then some (reconnect memory l)
    else if ltb recv_len 21
    then some (enter_i_reset l)
    else if aid == aid_f4
    then some (data_packet true memory recv_len l)
    else if aid == aid_enter
    then some (data_packet false memory recv_len l)
    else some (enter_i_reset l)

-- The end of a channel program that was no read.
abbrev pub sio_ended : Link → Link
sio_ended l =
    if l.pstate == s_i_transmitprep
    then record l { pstate = s_transmitprep }
    else if l.pstate == s_i_receiving
    then record l { pstate = s_receiving }
    else if l.pstate == s_i_transmitting
    then record l { pstate = s_transmitting }
    else if l.pstate == s_i_idle && having_request l.proxy
    then enter_i_transmitprep l
    else if l.pstate == s_i_idle
    then record l { pstate = s_idle }
    else if l.pstate == s_i_reset
    then record l { pstate = s_reset }
    else if l.pstate == s_i_welcome
    then enter_i_idle l
    else l

-- An interrupt: a SEND/RECV or the SMSG "STAT" from VMCF, or one of the console with its channel
-- status and what CP has stored by then in `recvBuffer` and, for a RECEIVE, in a request's buffer.
pub data Interrupt : Type 0 where
  senr : Request → Interrupt
  stat : Interrupt
  device : (attention device_end : Bool) (rest_len : ℕ) (memory in_data : List ℕ) → Interrupt

-- devintHandler
unfoldable pub handle_device : Bool → Bool → ℕ → List ℕ → List ℕ → Link → Option Link
handle_device attention device_end rest_len memory in_data l0 =
    let l = if attention then begin_receive_packet l0 else l0 in
    if device_end
    then if l.in_recv then end_receive_packet memory rest_len in_data l else some (sio_ended l)
    else some l

unfoldable pub handle : Interrupt → Link → Option Link
handle (senr head) l = some (handle_senr head l)
handle stat l = some (send_dump l)
handle (device attention device_end rest_len memory in_data) l =
    handle_device attention device_end rest_len memory in_data l
