-- ===== src/Base/Resolve/Returns.antt =====
-- cms/ncfbases.c: ncfb_001 sends the name, and returns with what the response says.
use nicof.Prelude.{
  ℕ, ◌+◌, ◌^◌, ◌-◌, ◌%◌, ◌<◌, ◌≡◌, ◌∙◌, refl, sym, ap, subst, false, Option, none, some, List, ◌∷◌,
  min, ◌⊎◌, inl, inr, ◌≢◌, Bool-cases, length-take, length-map, take_all, drop, take-append,
  overwrite, arith, length, take, map, ltb, ◌==◌,
}
use nicof.Prelude.Int.{ℤ, to_int}
use nicof.Client.{
  Request, Client, Vmcparm, max_packet_len, find, clip, on, mid_new, mid_rtrn, rc_ok, collect,
  create_request, set_request_data,
}
use nicof.Client.Wait.{Arrival}
use nicof.Client.Validity.{IsValid}
use nicof.Client.Validity.Calls.{IsNewBlock}
use nicof.Client.Delivery.{IsAnswer}
use nicof.Client.Delivery.Exchange.{IsPositive, sent_message, send_request-ok}
use nicof.Client.Phases.Find.{find-modify_self}
use nicof.Client.Delivery.Taking.{
  create_request-new, set_request_data-ok, IsIn, returned, words-returned,
}
use nicof.Client.Delivery.Await.{HasTaken, wait-HasTaken}
use nicof.Base.Invoke.{IsReady, set_request_data-IsReady, created-IsReady}
use nicof.Base.Resolve.{
  ascii_name, to_short, Resolved, resolved, after_wait, resolve_begin, resolve_end, resolve,
}

-- A `short` of these low 16 bits.
abbrev pub IsShort : ℕ → ℤ → Type 0
IsShort w n =
    ((w % 2 ^ 16 < 2 ^ 15) × (n ≡ ℤ.pos (w % 2 ^ 16)))
    ⊎ ((k : ℕ) × (n ≡ ℤ.negsuc k) × (k < 2 ^ 15) × (w % 2 ^ 16 + (k + 1) ≡ 2 ^ 16))

-- What ncfb_001 returns and writes for the user words of a response: 0 and the service's number
-- where the first word is 0, and else that word and -1.
abbrev pub Answers : ℕ → ℕ → Resolved → Type 0
Answers w1 w2 o =
    ((w1 ≡ 0) × (o.rc ≡ ℤ.pos 0) × IsShort w2 o.service_id)
    ⊎ ((w1 ≢ 0) × (o.rc ≡ to_int w1) × (o.service_id ≡ ℤ.negsuc 0))

to_short-IsShort : (w : ℕ) → IsShort w (to_short w)
to_short-IsShort w = elim (Bool-cases (ltb (w % 65536) 32768)) [
  | inl e ↦ rw e (inl (ground arith, refl))
  | inr e ↦ rw e (inr (65535 - w % 65536, refl, ground arith, ground arith))
]

resolved-Answers : (w1 w2 : ℕ) → Answers w1 w2 (resolved (w1, w2))
resolved-Answers w1 w2 = elim (Bool-cases (w1 == 0)) [
  | inl e ↦ rw e (inl (ground arith, refl, to_short-IsShort w2))
  | inr e ↦ rw e (inr (ground arith, refl, refl))
]

-- The name at the start of the buffer that is sent, in ASCII and cut to 64 characters, with its
-- length, no service and no command.
abbrev pub SendsName : (ℕ → ℕ) → List ℕ → ℕ → Client × ℕ × ℤ × Option Vmcparm → Client → Type 0
SendsName ebcdic2ascii name to_vm (sent, h, begin_rc, parm) c =
    (r : Request) × (find h sent.requests ≡ some r)
    × (take (min 64 (length name)) r.buf ≡ map ebcdic2ascii (take 64 name))
    × (parm
        ≡ some (record {
          user = to_vm;
          data_of = h;
          lena = min 64 (length name);
          lenb = max_packet_len;
          w1 = 0;
          w2 = 0;
          mid = c.last_msg_id + 1;
        }))

resolve_begin-sent :
    (ebcdic2ascii : ℕ → ℕ) (name : List ℕ) (block : Request) (to_vm h : ℕ) (c b d : Client)
    (r : Request)
    → create_request 0 0 block c ≡ (b, h)
    → set_request_data h
        (length (ascii_name ebcdic2ascii name))
        (ascii_name ebcdic2ascii name)
        none
        b
      ≡ (d, rc_ok)
    → find h d.requests ≡ some r
    → r.msg_id ≡ mid_new
    → d.last_msg_id + 1 < 2 ^ 32
    → resolve_begin ebcdic2ascii name block to_vm 0 c ≡ (
      sent_message h d,
      h,
      rc_ok,
      some (record {
        user = to_vm;
        data_of = h;
        lena = r.data_len;
        lenb = max_packet_len;
        w1 = r.user_word1;
        w2 = r.user_word2;
        mid = d.last_msg_id + 1;
      }),
    )
unfolding resolve_begin
resolve_begin-sent ebcdic2ascii name block to_vm h c b d r made fill e n k =
    rw made (rw fill (rw (send_request-ok h to_vm d r e n k) refl))

after_wait-HasTaken :
    (h : ℕ) (garbage : ℕ × ℕ) (a : Arrival) (rest : List Arrival) (c : Client) (q : Request)
    → HasTaken h a c q
    → (after_wait h garbage rc_ok rest c
        ≡ some (collect h c, resolved (a.header.w1, a.header.w2), rest))
      × IsIn mid_rtrn h (collect h c)
unfolding after_wait
after_wait-HasTaken h garbage a rest c q t = (
  rw (words-returned h c q t.found t.state, t.word1, t.word2) refl,
  (q, returned h c q t.found t.state, t.state),
)

name_bytes :
    (ebcdic2ascii : ℕ → ℕ) (name buf : List ℕ)
    → let ascii = ascii_name ebcdic2ascii name in
      (clip (length ascii) ≡ min 64 (length name))
      × (take (min 64 (length name)) (overwrite (take (clip (length ascii)) ascii) buf)
          ≡ map ebcdic2ascii (take 64 name))
name_bytes ebcdic2ascii name buf =
    let ascii = ascii_name ebcdic2ascii name in
    let size : length ascii ≡ min 64 (length name) =
      length-map (take 64 name) ebcdic2ascii ∙ length-take 64 name in
    let clipped : clip (length ascii) ≡ length ascii = ground (arith, size) in
    let whole : take (clip (length ascii)) ascii ≡ ascii =
      ap (λ n. take n ascii) clipped ∙ take_all (length ascii) ascii (omega arith) in
    (
      clipped ∙ size,
      ap (λ t. take (min 64 (length name)) (overwrite t buf)) whole
          ∙ ap (λ n. take n (overwrite ascii buf)) (sym size)
          ∙ take-append ascii (drop (length ascii) buf),
    )

-- In a valid client without a filter and with no posted event, for a new block of memory and fewer
-- than 2 ^ 32 messages sent, ncfb_001, whose SEND/RECV CP accepts and whose positive response is
-- the next arrival, hands CP the first 64 characters of the name in ASCII with their number, two
-- user words of 0 and the next message number, and returns with what the response says: where its
-- first word is 0, the return code 0 and the low 16 bits of its second word, read as a signed
-- number, and else that word as return code and the number -1; its request is not freed.
pub resolve-returns :
    (ebcdic2ascii : ℕ → ℕ) (name : List ℕ) (block : Request) (to_vm : ℕ) (garbage : ℕ × ℕ)
    (a : Arrival) (later : List Arrival) (c : Client)
    → IsValid c
    → IsNewBlock block c
    → c.response_filter ≡ 0
    → c.posted ≡ false
    → c.last_msg_id + 1 < 2 ^ 32
    → IsAnswer (c.last_msg_id + 1) a
    → IsPositive a
    → SendsName ebcdic2ascii name to_vm (resolve_begin ebcdic2ascii name block to_vm 0 c) c
      × (d : Client) × (out : Resolved) × (resolve ebcdic2ascii name block to_vm 0 garbage
            (a ∷ later)
            c
          ≡ some (d, out, later))
      × Answers a.header.w1 a.header.w2 out
      × IsIn mid_rtrn (create_request 0 0 block c).1 d
unfolding sent_message resolve
resolve-returns ebcdic2ascii name block to_vm garbage a later c v new o f k ans good =
    let (r, e, n, word1, word2, _) = made in
    let begun =
      resolve_begin-sent ebcdic2ascii name block to_vm h c b d (named r) refl fill found n
        (omega (arith, ready.counter)) in
    let (b4, q, waited, taken) =
      wait-HasTaken h d (named r) a later ready.valid found n ready.open_filter ready.clear
        (omega (arith, ready.counter)) (subst (λ m. IsAnswer (m + 1) a) (sym ready.counter) ans)
        good in
    let (done, kept) = after_wait-HasTaken h garbage a later b4 q taken in
    let (size, text) = name_bytes ebcdic2ascii name r.buf in
    (
      subst (λ t. SendsName ebcdic2ascii name to_vm t c) (sym begun)
          (
            record (named r) { msg_id = d.last_msg_id + 1 },
            find-modify_self h (λ p. record p { msg_id = d.last_msg_id + 1 }) d.requests (named r)
                (λ p. refl) found,
            text,
            rw (size, word1, word2, ready.counter) refl,
          ),
      collect h b4,
      resolved (a.header.w1, a.header.w2),
      ap (resolve_end garbage (a ∷ later)) begun ∙ rw waited done,
      resolved-Answers a.header.w1 a.header.w2,
      kept,
    )
  where
    ascii : List ℕ
    ascii = ascii_name ebcdic2ascii name

    h : ℕ
    h = (create_request 0 0 block c).1

    b : Client
    b = (create_request 0 0 block c).0

    named : Request → Request
    named p = record p {
      buf = overwrite (take (clip (length ascii)) ascii) p.buf;
      data_len = clip (length ascii);
    }

    d : Client
    d = on h named b

    made :
        (r : Request) × (find h b.requests ≡ some r)
        × (r.msg_id ≡ mid_new)
        × (r.user_word1 ≡ 0)
        × (r.user_word2 ≡ 0)
        × (r.data_len ≡ 0)
    made = create_request-new 0 0 block c v

    found : find h d.requests ≡ some (named made.0)
    found = find-modify_self h named b.requests made.0 (λ p. refl) made.1

    fill : set_request_data h (length ascii) ascii none b ≡ (d, rc_ok)
    fill = set_request_data-ok h (length ascii) ascii none b made.0 made.1 made.2

    ready : IsReady h c.last_msg_id d
    ready =
        subst (IsReady h c.last_msg_id) (ap (λ x. x.0) fill)
          (set_request_data-IsReady h c.last_msg_id (length ascii) ascii none b
            (created-IsReady 0 0 block c v new o f)).1
