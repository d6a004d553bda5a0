-- ===== src/Base/Resolve.antt =====
-- cms/ncfbases.c: ncfb_001, which asks the external proxy for the number of a service.
pub mod Returns
use nicof.Prelude.{
  ℕ, ◌+◌, ◌^◌, ◌-◌, ◌%◌, ◌<◌, ◌≡◌, ◌∙◌, refl, sym, ap, subst, false, not, Option, none, some, List,
  ◌∷◌, min, ◌⊎◌, inl, inr, ◌≢◌, Bool-cases, length-take, length-map, take_all, drop, take-append,
  overwrite, arith, length, take, map, ltb, ◌==◌, if◌then◌else◌,
}
use nicof.Prelude.Int.{ℤ, to_int, is_zero}
use nicof.Client.{
  Request, Client, Vmcparm, max_packet_len, find, clip, on, mid_new, mid_rtrn, rc_ok, collect,
  create_request, set_request_data, send_request, get_response_user_words,
}
use nicof.Client.Wait.{Arrival, wait_for_response}
use nicof.Client.Validity.{IsValid}
use nicof.Client.Validity.Calls.{IsNewBlock}
use nicof.Client.Delivery.{IsAnswer}
use nicof.Client.Delivery.Exchange.{IsPositive, sent_message, send_request-ok}
use nicof.Client.Phases.Find.{find-modify_self}
use nicof.Client.Delivery.Taking.{
  create_request-new, set_request_data-ok, IsIn, returned, words-returned,
}
use nicof.Client.Delivery.Await.{HasTaken, wait-HasTaken}
use nicof.Base.{words_or}
use nicof.Base.Invoke.{IsReady, set_request_data-IsReady, created-IsReady}

abbrev pub servicename_maxlen : ℕ
servicename_maxlen = 64

-- `(short)(w & 0xFFFF)`
abbrev pub to_short : ℕ → ℤ
to_short w = let v = w % 65536 in if ltb v 32768 then ℤ.pos v else ℤ.negsuc (65535 - v)

-- The return code, and what is written to `serviceId`.
pub record Resolved : Type 0 where
  pub rc : ℤ
  pub service_id : ℤ

abbrev pub unresolved : ℤ → Resolved
unresolved rc = record { rc = rc; service_id = ℤ.negsuc 0 }

-- The end of `ncfb_001`, from the user words of the response on.
abbrev pub resolved : ℕ × ℕ → Resolved
resolved (w1, w2) =
    if w1 == 0 then record { rc = ℤ.pos 0; service_id = to_short w2 } else unresolved (to_int w1)

-- The characters of a name as they are sent.
abbrev pub ascii_name : (ℕ → ℕ) → List ℕ → List ℕ
ascii_name ebcdic2ascii name = map ebcdic2ascii (take servicename_maxlen name)

-- ncfb_001 behind its wait.
pub after_wait : ℕ → ℕ × ℕ → ℤ → List Arrival → Client → Option (Client × Resolved × List Arrival)
after_wait h garbage recv_rc rest c =
    let (d, words_rc, words) = get_response_user_words h c in
    if not (is_zero recv_rc)
    then some (c, unresolved recv_rc, rest)
    else some (d, resolved (words_or garbage words), rest)

-- ncfb_001 up to its wait: the handle, the return code, and what is handed to CP.
pub resolve_begin : (ℕ → ℕ) → List ℕ → Request → ℕ → ℕ → Client → Client × ℕ × ℤ × Option Vmcparm
resolve_begin ebcdic2ascii name block to_vm send_rc c =
    let ascii = ascii_name ebcdic2ascii name in
    let (c1, h) = create_request 0 0 block c in
    let (c2, data_rc) = set_request_data h (length ascii) ascii none c1 in
    let (c3, sent_rc, parm) = send_request h to_vm send_rc c2 in
    if not (is_zero data_rc) then (c2, h, data_rc, none) else (c3, h, sent_rc, parm)

-- ncfb_001 from its test of the return codes on.
abbrev pub resolve_end :
    ℕ × ℕ
    → List Arrival
    → Client × ℕ × ℤ × Option Vmcparm
    → Option (Client × Resolved × List Arrival)
resolve_end garbage arrivals (c, h, begin_rc, parm) =
    if not (is_zero begin_rc)
    then some (c, unresolved begin_rc, arrivals)
    else elim (wait_for_response h arrivals c) [
      | none ↦ none
      | some (d, recv_rc, rest) ↦ after_wait h garbage recv_rc rest d
    ]

-- ncfb_001; `garbage` is what its variables hold before they are set.
pub resolve :
    (ℕ → ℕ)
    → List ℕ
    → Request
    → ℕ
    → ℕ
    → ℕ × ℕ
    → List Arrival
    → Client
    → Option (Client × Resolved × List Arrival)
resolve ebcdic2ascii name block to_vm send_rc garbage arrivals c =
    resolve_end garbage arrivals (resolve_begin ebcdic2ascii name block to_vm send_rc c)
