-- ===== src/Client/Wait.antt =====
-- cms/nicofclt.c: the interrupt handler that takes the responses in, and the calls that wait for
-- them. CP's part is an arrival: it stores the response's bytes in the buffer that the SEND/RECV
-- named, then raises the external interrupt. The ECB is `posted`; a wait consumes arrivals until it
-- is posted, and `none` means that it still waits when the given arrivals are used up.
use nicof.Prelude.{
  ℕ, zero, suc, ◌+◌, ◌-◌, ◌^◌, ◌%◌, Bool, true, false, ◌||◌, ◌&&◌, Option, none, some, List, [],
  ◌∷◌, length, overwrite, ltb, leb, ◌==◌, if◌then◌else◌,
}
use nicof.Prelude.Int.{ℤ}
use nicof.Client.{
  Request, Client, mid_rcvd, mid_rtrn, mid_pend, rc, rc_ok, waitresp, recvreq, max_packet_len,
  first, modify, find, on,
}

-- The VMCF interrupt data (VMCMHDR): `rejected` and `answered` are the bits VMCMRJCT and VMCMRESP
-- of `v1`.
pub record Vmcmhdr : Type 0 where
  pub intr_code : ℕ
  pub func : ℕ
  pub mid : ℕ
  pub rejected : Bool
  pub answered : Bool
  pub lenb : ℕ
  pub w1 : ℕ
  pub w2 : ℕ

abbrev pub vmcf_interrupt : ℕ
vmcf_interrupt = 0x4001

abbrev pub vmcpsenr : ℕ
vmcpsenr = 3

-- What the handler writes into the request.
unfoldable pub respond : Vmcmhdr → Request → Request
respond m r =
    if m.rejected
    then record r {
      recv_rc = if m.w1 == 1 || m.w1 == 2 then rc m.w1 recvreq else rc 3 recvreq;
      msg_id = mid_rcvd;
    }
    else if m.answered
    then record r {
      recv_rc = rc_ok;
      data_len = (max_packet_len + 2 ^ 32 - m.lenb) % 2 ^ 32;
      user_word1 = m.w1;
      user_word2 = m.w2;
      msg_id = mid_rcvd;
    }
    else record r { recv_rc = rc 4 recvreq; msg_id = mid_rcvd }

-- handleExt. An SMSG or another VMCF function changes no variable of the module.
unfoldable pub handle_ext : Vmcmhdr → Client → Client
unfolding respond
handle_ext m c =
    if m.intr_code == vmcf_interrupt && m.func == vmcpsenr
    then elim (first (λ r. r.msg_id == m.mid) c.requests) [
      | none ↦ c
      | some r ↦ record c {
        requests = modify (λ r. r.msg_id == m.mid) (respond m) c.requests;
        posted = c.posted || (c.response_filter == 0 || r.filter_tag == c.response_filter);
      }
    ]
    else c

pub record Arrival : Type 0 where
  pub header : Vmcmhdr
  pub stored : List ℕ

-- CP stores the bytes, then the handler runs.
unfoldable pub arrive : Arrival → Client → Client
unfolding handle_ext
arrive a c =
    let store = λ (r : Request). record r { buf = overwrite a.stored r.buf } in
    handle_ext a.header
      (record c { requests = modify (λ r. r.msg_id == a.header.mid) store c.requests })

-- waitForVmcfResponse
unfoldable pub wait_for_vmcf_response : List Arrival → Client → Option (Client × List Arrival)
wait_for_vmcf_response [] c = if c.posted then some (record c { posted = false }, []) else none
wait_for_vmcf_response (a ∷ later) c =
    let waited = wait_for_vmcf_response later (arrive a c) in
    if c.posted then some (record c { posted = false }, a ∷ later) else waited

-- The loop of ncf_030, with fuel for its rounds. The handle stays valid meanwhile.
unfoldable pub wait_received : ℕ → ℕ → List Arrival → Client → Option (Client × ℤ × List Arrival)
wait_received zero h arrivals c = none
wait_received (suc fuel) h arrivals c = elim (find h c.requests) [
  | none ↦ none
  | some req ↦ elim (req.msg_id == mid_rcvd) [
    | true ↦ some (on h (λ r. record r { msg_id = mid_rtrn }) c, req.recv_rc, arrivals)
    | false ↦ elim (wait_for_vmcf_response arrivals c) [
      | none ↦ none
      | some (c', rest) ↦ wait_received fuel h rest c'
    ]
  ]
]

-- ncf_030. Each round but the first finds the ECB clear, so it uses up an arrival.
unfoldable pub wait_for_response : ℕ → List Arrival → Client → Option (Client × ℤ × List Arrival)
wait_for_response h arrivals c = elim (find h c.requests) [
  | none ↦ some (c, rc 1 waitresp, arrivals)
  | some req ↦
      if req.msg_id == mid_rtrn
      then some (c, rc_ok, arrivals)
      else if ltb req.msg_id mid_rcvd
      then some (c, rc 2 waitresp, arrivals)
      else wait_received (suc (suc (length arrivals))) h arrivals c
]

-- The search of ncf_031 for something to wait for.
abbrev pub is_outstanding : Request → Bool
is_outstanding r = r.msg_id == mid_rcvd || leb mid_pend r.msg_id

-- The request that a round of ncf_031 settles on: without a filter that is the first of the list.
unfoldable pub pick : ℕ → List Request → Option Request
pick tag [] = none
pick tag (r ∷ rs) =
    if tag == 0 then some r else first (λ q. q.msg_id == mid_rcvd && q.filter_tag == tag) (r ∷ rs)

unfoldable pub wait_any_loop : ℕ → List Arrival → Client → Option (Client × ℕ × ℤ × List Arrival)
wait_any_loop zero arrivals c = none
wait_any_loop (suc fuel) arrivals c = elim (pick c.response_filter c.requests) [
  | some r ↦ some (c, r.me, rc_ok, arrivals)
  | none ↦ elim (wait_for_vmcf_response arrivals c) [
    | none ↦ none
    | some (c', rest) ↦ wait_any_loop fuel rest c'
  ]
]

-- ncf_031; the number is the handle stored through `handlePtr` (0 is NULL_REQUEST).
unfoldable pub wait_for_any : List Arrival → Client → Option (Client × ℕ × ℤ × List Arrival)
wait_for_any arrivals c = elim (first is_outstanding c.requests) [
  | none ↦ some (c, 0, rc 3 waitresp, arrivals)
  | some r ↦ wait_any_loop (suc (suc (length arrivals))) arrivals c
]
