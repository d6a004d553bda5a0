-- ===== src/Base/Tests.antt =====
-- cms/ncfbases.c: runs of a service call at concrete inputs.
use nicof.Prelude.{◌+◌, ◌≡◌, refl, true, false, none, some, [], ◌∷◌, arith, replicate}
use nicof.Prelude.Int.{ℤ, to_int}
use nicof.Client.{Request, Client, rc, vmcf, xlate, mid_free, mid_rtrn, create_request}
use nicof.Client.Wait.{Vmcmhdr, Arrival}
use nicof.Client.Validity.{IsValid}
use nicof.Client.Delivery.{IsAnswer}
use nicof.Client.Delivery.Exchange.{IsPositive}
use nicof.Client.Delivery.Taking.{IsIn}
use nicof.Base.{Ask, invoke}
use nicof.Base.Resolve.{Resolved, resolve_begin, resolve}
use nicof.Base.Resolve.Returns.{SendsName, Answers, resolve-returns}
use nicof.Base.Refused.{invoke_refused}
use nicof.Base.Invoke.{handle_for, invoke-returns}

abbrev block : Request
block = record {
  me = 100;
  msg_id = 0;
  recv_rc = ℤ.pos 0;
  filter_tag = 0;
  user_word1 = 0;
  user_word2 = 0;
  data_len = 0;
  buf = replicate 2048 0;
}

abbrev empty : Client
empty = record {
  initialized = true;
  requests = [];
  last_msg_id = 10;
  response_filter = 0;
  posted = false;
}

empty-IsValid : IsValid empty
empty-IsValid = record { slots = tt; apart = tt; counter = omega arith }

abbrev ask : Ask
ask = record {
  svc_id = 5;
  svc_cmd = 2;
  ctl_word = 9;
  bytes = 1 ∷ 2 ∷ 3 ∷ [];
  table = some (λ b. b + 64);
}

abbrev header : Vmcmhdr
header = record {
  intr_code = 0x4001;
  func = 3;
  mid = 11;
  rejected = false;
  answered = true;
  lenb = 2046;
  w1 = 0;
  w2 = 80;
}

abbrev response : Arrival
response = record { header = header; stored = 7 ∷ 8 ∷ [] }

response-IsAnswer : IsAnswer 11 response
response-IsAnswer = record { code = refl; func = refl; mid = refl }

response-IsPositive : IsPositive response
response-IsPositive = record { accepted = refl; final = refl; counted = refl }

invoke-returns_example :
    (d : Client) × (invoke ask block 9 0 true (some (λ b. b + 1)) (0, 0) (response ∷ []) empty
      ≡ some (
        d,
        record {
          rc = to_int 0;
          ctl_word = some 80;
          bytes = some (xlate (some (λ b. b + 1)) (7 ∷ 8 ∷ []));
        },
        [],
      ))
    × IsIn mid_free (handle_for ask block empty) d
invoke-returns_example =
    invoke-returns ask block 9 true (some (λ b. b + 1)) (0, 0) response [] empty empty-IsValid
      (refl, tt) refl refl (omega arith) response-IsAnswer response-IsPositive

invoke_refused_example :
    (d : Client) × (invoke ask block 9 5 true none (0, 0) [] empty
      ≡ some (d, record { rc = rc 5 vmcf; ctl_word = none; bytes = none }, []))
    × IsIn mid_free (handle_for ask block empty) d
invoke_refused_example =
    invoke_refused ask block 9 5 true none (0, 0) [] empty empty-IsValid (refl, tt) refl refl
      (λ e. omega arith)

resolve-returns_example :
    SendsName
      (λ b. b + 1)
      (3 ∷ 4 ∷ [])
      9
      (resolve_begin (λ b. b + 1) (3 ∷ 4 ∷ []) block 9 0 empty)
      empty
    × (d : Client) × (out : Resolved) × (resolve
          (λ b. b + 1)
          (3 ∷ 4 ∷ [])
          block
          9
          0
          (0, 0)
          (response ∷ [])
          empty
        ≡ some (d, out, []))
    × Answers 0 80 out
    × IsIn mid_rtrn (create_request 0 0 block empty).1 d
resolve-returns_example =
    resolve-returns (λ b. b + 1) (3 ∷ 4 ∷ []) block 9 (0, 0) response [] empty empty-IsValid
      (refl, tt) refl refl (omega arith) response-IsAnswer response-IsPositive
