-- ===== src/Base/Refused.antt =====
-- cms/ncfbases.c: a service call whose SEND/RECV CP refuses.
use nicof.Prelude.{ℕ, ◌≡◌, ◌≢◌, refl, ap, Bool, false, Option, none, some, List, arith}
use nicof.Prelude.Int.{ℤ, is_zero}
use nicof.Client.{
  Request, Client, Vmcparm, mid_free, mid_new, rc, rc_ok, vmcf, create_request, send_request,
  free_request,
}
use nicof.Client.Wait.{Arrival}
use nicof.Client.Validity.{IsValid}
use nicof.Client.Validity.Calls.{IsNewBlock}
use nicof.Client.Delivery.Taking.{IsIn, free-IsIn, send_request-refused}
use nicof.Base.{Ask, service_word, filled, invoke_begin, invoke}
use nicof.Base.Invoke.{IsReady, filled-IsReady, created-IsReady, handle_for}

begin_refused :
    (q : Ask) (block : Request) (to_vm send_rc : ℕ) (c : Client) (h : ℕ) (b d e : Client)
    (parm : Option Vmcparm)
    → create_request (service_word q.svc_id q.svc_cmd) q.ctl_word block c ≡ (b, h)
    → filled h q b ≡ (d, rc_ok)
    → send_request h to_vm send_rc d ≡ (e, rc send_rc vmcf, parm)
    → invoke_begin q block to_vm send_rc c ≡ ((free_request h e).0, none, rc send_rc vmcf)
unfolding invoke_begin
begin_refused q block to_vm send_rc c h b d e parm made fill sent =
    rw made (rw fill (rw sent (rw no_zero refl)))
  where
    no_zero : is_zero (rc send_rc vmcf) ≡ false
    no_zero = ground arith

not_begun :
    (q : Ask) (block : Request) (to_vm send_rc : ℕ) (wants_data : Bool) (table : Option (ℕ → ℕ))
    (garbage : ℕ × ℕ) (arrivals : List Arrival) (c b : Client) (e : ℤ)
    → invoke_begin q block to_vm send_rc c ≡ (b, none, e)
    → invoke q block to_vm send_rc wants_data table garbage arrivals c
      ≡ some (b, record { rc = e; ctl_word = none; bytes = none }, arrivals)
unfolding invoke
not_begun q block to_vm send_rc wants_data table garbage arrivals c b e r =
    rw (r, invoke)
      (ap (λ x. some (x.0, record { rc = x.2; ctl_word = none; bytes = none }, arrivals)) r)

-- In a valid client without a filter and with no posted event, a synchronous service call whose
-- SEND/RECV CP refuses returns at once with CP's return code, encoded as a VMCF error; no arrival
-- is used up, and the call's request is free.
pub invoke_refused :
    (q : Ask) (block : Request) (to_vm send_rc : ℕ) (wants_data : Bool) (table : Option (ℕ → ℕ))
    (garbage : ℕ × ℕ) (arrivals : List Arrival) (c : Client)
    → IsValid c
    → IsNewBlock block c
    → c.response_filter ≡ 0
    → c.posted ≡ false
    → send_rc ≢ 0
    → (d : Client) × (invoke q block to_vm send_rc wants_data table garbage arrivals c
        ≡ some (d, record { rc = rc send_rc vmcf; ctl_word = none; bytes = none }, arrivals))
      × IsIn mid_free (handle_for q block c) d
invoke_refused q block to_vm send_rc wants_data table garbage arrivals c v new o f z =
    let (r, e, n) = fill.1.found in
    let (s, parm, sent, still) = send_request-refused h to_vm send_rc d r e n z in
    (
      (free_request h s).0,
      not_begun q block to_vm send_rc wants_data table garbage arrivals c _ (rc send_rc vmcf) (
          begin_refused q block to_vm send_rc c h b d s (some parm) refl (ap (λ x. (d, x)) fill.0)
            sent),
      free-IsIn h mid_new s still (omega arith),
    )
  where
    h : ℕ
    h = handle_for q block c

    b : Client
    b = (create_request (service_word q.svc_id q.svc_cmd) q.ctl_word block c).0

    d : Client
    d = (filled h q b).0

    fill : ((filled h q b).1 ≡ rc_ok) × IsReady h c.last_msg_id d
    fill =
        filled-IsReady h c.last_msg_id q b
          (created-IsReady (service_word q.svc_id q.svc_cmd) q.ctl_word block c v new o f)
