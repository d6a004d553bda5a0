-- ===== src/Base.antt =====
-- cms/ncfbases.c: the call of a remote service, ncfb_020, as its two halves: ncfb_021 sends the
-- request, ncfb_022 waits for the response and takes it in. The two code tables are parameters.
pub mod Invoke
pub mod Refused
pub mod Resolve
mod Tests
use nicof.Prelude.{
  ℕ, ◌+◌, ◌*◌, ◌^◌, ◌%◌, Bool, true, false, not, Option, none, some, List, [], ◌∷◌, length, ltb,
  ◌==◌, if◌then◌else◌,
}
use Prim.Native.Nat.{bit_or}
use nicof.Prelude.Int.{ℤ, to_int, is_zero}
use nicof.Client.{
  Request, Client, Vmcparm, create_request, set_request_data, send_request, get_response_user_words,
  get_response_data, free_request,
}
use nicof.Client.Wait.{Arrival, wait_for_response}

-- `(svcId << 16) | svcCmd` on the two shorts, extended to words.
abbrev pub service_word : ℕ → ℕ → ℕ
service_word svc_id svc_cmd = bit_or ((svc_id * 2 ^ 16) % 2 ^ 32) svc_cmd

-- What a call hands to the service.
pub record Ask : Type 0 where
  pub svc_id : ℕ
  pub svc_cmd : ℕ
  pub ctl_word : ℕ
  pub bytes : List ℕ
  pub table : Option (ℕ → ℕ)

-- `if (inData && inDataLen > 0)`; `bytes` are empty where `inData` is NULL or `inDataLen` is 0.
pub filled : ℕ → Ask → Client → Client × ℤ
filled h q c =
    if ltb 0 (length q.bytes)
    then set_request_data h (length q.bytes) q.bytes q.table c
    else (c, ℤ.pos 0)

-- ncfb_021: the handle, where the request has been sent, and the return code.
pub invoke_begin : Ask → Request → ℕ → ℕ → Client → Client × Option ℕ × ℤ
invoke_begin q block to_vm send_rc c =
    let (c1, h) = create_request (service_word q.svc_id q.svc_cmd) q.ctl_word block c in
    let (c2, data_rc) = filled h q c1 in
    let (c3, sent_rc, parm) = send_request h to_vm send_rc c2 in
    if not (is_zero data_rc)
    then ((free_request h c2).0, none, data_rc)
    else if not (is_zero sent_rc)
    then ((free_request h c3).0, none, sent_rc)
    else (c3, some h, ℤ.pos 0)

-- The return code of ncfb_022, and what it writes through `outCtlWord`, `outData` and `outDataLen`.
pub record Outcome : Type 0 where
  pub rc : ℤ
  pub ctl_word : Option ℕ
  pub bytes : Option (List ℕ)

abbrev pub words_or : ℕ × ℕ → Option (ℕ × ℕ) → ℕ × ℕ
words_or before none = before
words_or before (some words) = words

-- ncfb_022 behind its wait. `w1` and `w2` are what its variables hold before they are set;
-- `wants_data` tells that `outData` and `outDataLen` are given.
pub take_response : ℕ → Bool → Option (ℕ → ℕ) → ℕ × ℕ → Client → Client × Outcome
take_response h wants_data table (w1, w2) c =
    let (c1, words_rc, words) = get_response_user_words h c in
    let (v1, v2) = words_or (w1, w2) words in
    let (c2, data_rc, received) = get_response_data h 2048 table 0 c1 in
    if not wants_data
    then ((free_request h c1).0, record { rc = to_int v1; ctl_word = some v2; bytes = none })
    else if not (is_zero data_rc)
    then ((free_request h c2).0, record { rc = data_rc; ctl_word = some v2; bytes = none })
    else ((free_request h c2).0, record { rc = to_int v1; ctl_word = some v2; bytes = received })

-- ncfb_022
pub invoke_end :
    ℕ
    → Bool
    → Option (ℕ → ℕ)
    → ℕ × ℕ
    → List Arrival
    → Client
    → Option (Client × Outcome × List Arrival)
invoke_end h wants_data table garbage arrivals c = elim (wait_for_response h arrivals c) [
  | none ↦ none
  | some (c1, recv_rc, rest) ↦
      let (c2, out) = take_response h wants_data table garbage c1 in
      if is_zero recv_rc
      then some (c2, out, rest)
      else some (c1, record { rc = recv_rc; ctl_word = none; bytes = none }, rest)
]

-- ncfb_020
pub invoke :
    Ask
    → Request
    → ℕ
    → ℕ
    → Bool
    → Option (ℕ → ℕ)
    → ℕ × ℕ
    → List Arrival
    → Client
    → Option (Client × Outcome × List Arrival)
invoke q block to_vm send_rc wants_data table garbage arrivals c =
    let (c1, handle, begin_rc) = invoke_begin q block to_vm send_rc c in
    elim handle [
      | none ↦ some (c1, record { rc = begin_rc; ctl_word = none; bytes = none }, arrivals)
      | some h ↦ invoke_end h wants_data table garbage arrivals c1
    ]
