-- ===== src/Client/Validity/Calls.antt =====
-- cms/nicofclt.c: every call keeps the request pool valid.
use nicof.Prelude.{
  ℕ, ◌+◌, ◌%◌, ◌^◌, ◌≤◌, ◌<◌, ◌≡◌, ◌∙◌, refl, ◌≢◌, inl, inr, Bool, true, false, leb, Option, none,
  some, List, [], ◌∷◌, All, arith, length, take, overwrite, ◌==◌, Bool-cases, Option-cases,
  length-overwrite, length-take, length-map,
}
use nicof.Client.{
  Request, Client, max_packet_len, mid_free, mid_new, mid_rcvd, mid_pend, first, modify, xlate,
  clip, find, on, collect, get_request, create_request, set_request_data, send_request,
  set_filter_tag, get_response_user_words, get_response_data, free_request,
}
use nicof.Client.Wait.{Vmcmhdr, Arrival, respond, handle_ext, arrive}
use nicof.Client.Calls.{
  Call, creates, fills, sends, tags, arrives, asks_words, asks_data, frees, step,
}
use nicof.Client.Validity.{IsState, IsSlot, Apart, IsValid, modify-IsValid}

length-xlate : (xtab : Option (ℕ → ℕ)) (bs : List ℕ) → length (xlate xtab bs) ≡ length bs
length-xlate none bs = refl
length-xlate (some t) bs = length-map bs t

-- A write that leaves the message number and the buffer's size as they are.
edit-IsValid :
    (c : Client) (test : Request → Bool) (f : Request → Request)
    → IsValid c
    → ((r : Request) → ((f r).me ≡ r.me) × ((f r).msg_id ≡ r.msg_id))
    → ((r : Request)
        → IsSlot c.last_msg_id r
        → (length (f r).buf ≡ max_packet_len) × ((f r).data_len ≤ max_packet_len))
    → IsValid (record c { requests = modify test f c.requests })
edit-IsValid c test f v k s = modify-IsValid c _ test f v (omega arith) refl λ r _ t. record {
  same = (k r).0;
  slot = record { room = (s r t).0; fits = (s r t).1; state = rw ((k r).1) t.state };
  message = inl (k r).1;
}

-- A write that ends a message or starts none.
mark-IsValid :
    (c : Client) (test : Request → Bool) (m : ℕ)
    → IsValid c
    → m ≤ mid_pend
    → IsState c.last_msg_id m
    → IsValid (record c { requests = modify test (λ r. record r { msg_id = m }) c.requests })
mark-IsValid c test m v h s =
    modify-IsValid c _ test (λ r. record r { msg_id = m }) v (omega arith) refl
      λ r _ t. record {
        same = refl;
        slot = record { room = t.room; fits = t.fits; state = s };
        message = inr (inl h);
      }

abbrev pub IsNewBlock : Request → Client → Type 0
IsNewBlock block c = (length block.buf ≡ max_packet_len) × All (λ r. block.me ≢ r.me) c.requests

pub block-Apart :
    (block : Request) (rs : List Request)
    → All (λ r. block.me ≢ r.me) rs
    → All (Apart (record block { msg_id = mid_free; data_len = 0 })) rs
block-Apart block [] a = tt
block-Apart block (r ∷ rs) a =
    (record { handles = a.0; messages = λ h. absurd (omega arith) }, block-Apart block rs a.1)

get_request-IsValid :
    (block : Request) (c : Client)
    → IsNewBlock block c
    → IsValid c
    → IsValid (get_request block c).0
unfolding get_request
get_request-IsValid block c new v =
    elim (Option-cases (first (λ r. r.msg_id == mid_free) c.requests)) [
      | inl e ↦
          rw (e, get_request)
            (record {
              slots = (record { room = new.0; fits = omega arith; state = inl refl }, v.slots);
              apart = (block-Apart block c.requests new.1, v.apart);
              counter = v.counter;
            })
      | inr (r, e) ↦
          rw (e, get_request)
            (edit-IsValid c _ _ v (λ q. (refl, refl)) λ q s. (s.room, omega arith))
    ]

pub create_request-IsValid :
    (w1 w2 : ℕ) (block : Request) (c : Client)
    → IsNewBlock block c
    → IsValid c
    → IsValid (create_request w1 w2 block c).0
unfolding create_request
create_request-IsValid w1 w2 block c new v =
    modify-IsValid (get_request block c).0 _ _ _ (get_request-IsValid block c new v) (omega arith)
      refl
      λ r _ s. record {
        same = refl;
        slot = record { room = s.room; fits = s.fits; state = inr (inl refl) };
        message = inr (inl (omega arith));
      }

pub set_request_data-IsValid :
    (h len : ℕ) (bytes : List ℕ) (xtab : Option (ℕ → ℕ)) (c : Client)
    → IsValid c
    → IsValid (set_request_data h len bytes xtab c).0
unfolding set_request_data
set_request_data-IsValid h len bytes xtab c v = ground (arith, filled)
  where
    new : List ℕ
    new = xlate xtab (take (clip len) bytes)

    short : length new ≤ max_packet_len
    short = ground (arith, length-xlate xtab (take (clip len) bytes), length-take (clip len) bytes)

    filled : IsValid (on h (λ r. record r { buf = overwrite new r.buf; data_len = clip len }) c)
    filled =
        edit-IsValid c _ _ v (λ q. (refl, refl))
          λ q s. (length-overwrite new q.buf (omega (arith, short, s.room)) ∙ s.room, ground arith)

sent_as : ℕ → Client → Client
sent_as h c =
    let mid = (c.last_msg_id + 1) % 2 ^ 32 in
    record (on h (λ q. record q { msg_id = mid }) c) { last_msg_id = mid }

sent_as-IsValid :
    (h : ℕ) (c : Client) → c.last_msg_id + 1 < 2 ^ 32 → IsValid c → IsValid (sent_as h c)
unfolding sent_as
sent_as-IsValid h c room v = modify-IsValid c (sent_as h c) _ _ v (omega arith) refl λ q _ s.
    record {
      same = refl;
      slot = record {
        room = s.room;
        fits = s.fits;
        state = inr (inr (inr (inr (omega (arith, v.counter), omega arith))));
      };
      message = inr (inr (omega arith));
    }

pub send_request-IsValid :
    (h to_vm send_rc : ℕ) (c : Client)
    → c.last_msg_id + 1 < 2 ^ 32
    → IsValid c
    → IsValid (send_request h to_vm send_rc c).0
unfolding send_request sent_as
send_request-IsValid h to_vm send_rc c room v = ground (arith, sent, back)
  where
    sent : IsValid (sent_as h c)
    sent = sent_as-IsValid h c room v

    back : IsValid (on h (λ r. record r { msg_id = mid_new }) (sent_as h c))
    back = mark-IsValid (sent_as h c) _ mid_new sent (omega arith) (inr (inl refl))

collect-IsValid : (h : ℕ) (c : Client) → IsValid c → IsValid (collect h c)
collect-IsValid h c v = modify-IsValid c _ _ _ v (omega arith) refl λ r _ s.
    elim (Bool-cases (r.msg_id == mid_rcvd)) [
      | inl e ↦ rw e (record {
        same = refl;
        slot = record { room = s.room; fits = s.fits; state = inr (inr (inr (inl refl))) };
        message = inr (inl (omega arith));
      })
      | inr e ↦ rw e (record { same = refl; slot = s; message = inl refl })
    ]

reads-IsValid :
    (h len : ℕ) (xtab : Option (ℕ → ℕ)) (from : ℕ) (c : Client)
    → IsValid c
    → IsValid (get_response_user_words h c).0 × IsValid (get_response_data h len xtab from c).0
unfolding get_response_user_words get_response_data
reads-IsValid h len xtab from c v =
    let got = collect-IsValid h c v in (ground (arith, got), ground (arith, got))

free_request-IsValid : (h : ℕ) (c : Client) → IsValid c → IsValid (free_request h c).0
unfolding free_request
free_request-IsValid h c v = elim (Option-cases (find h c.requests)) [
  | inl e ↦ rw (e, free_request) v
  | inr (r, e) ↦
      rw (e, free_request)
        (elim (Bool-cases (leb mid_pend r.msg_id)) [
          | inl t ↦ rw t v
          | inr t ↦ rw t (mark-IsValid c _ mid_free v (omega arith) (inl refl))
        ])
]

-- What CP guarantees of an arrival: it fits the receive area, and answers a message.
pub record IsReply (a : Arrival) : Type 0 where
  pub fits : length a.stored ≤ max_packet_len
  pub rest : a.header.lenb ≤ max_packet_len
  pub numbered : mid_pend < a.header.mid

respond-slot :
    {last : ℕ} (m : Vmcmhdr) (r : Request)
    → m.lenb ≤ max_packet_len
    → IsSlot last r
    → ((respond m r).me ≡ r.me) × ((respond m r).msg_id ≡ mid_rcvd) × IsSlot last (respond m r)
unfolding respond
respond-slot m r h s = ground (arith, s.room, s.fits)

handle_ext-IsValid :
    (m : Vmcmhdr) (c : Client)
    → m.lenb ≤ max_packet_len
    → mid_pend < m.mid
    → IsValid c
    → IsValid (handle_ext m c)
unfolding handle_ext
handle_ext-IsValid m c rest numbered v = ground (arith, answered false, answered true)
  where
    answered :
        (b : Bool)
        → IsValid (record c {
          requests = modify (λ r. r.msg_id == m.mid) (respond m) c.requests;
          posted = b;
        })
    answered b = modify-IsValid c _ _ (respond m) v (omega arith) refl λ r _ s.
        let after = respond-slot m r rest s in
        record { same = after.0; slot = after.2; message = inr (inl (omega (arith, after.1))) }

pub arrive-IsValid : (a : Arrival) (c : Client) → IsReply a → IsValid c → IsValid (arrive a c)
unfolding arrive
arrive-IsValid a c g v = handle_ext-IsValid a.header _ g.rest g.numbered stored
  where
    stored : IsValid (record c {
      requests =
          modify
            (λ r. r.msg_id == a.header.mid)
            (λ (r : Request). record r { buf = overwrite a.stored r.buf })
            c.requests;
    })
    stored =
        edit-IsValid c _ _ v (λ q. (refl, refl))
          λ q s. (length-overwrite a.stored q.buf (omega (arith, s.room, g.fits)) ∙ s.room, s.fits)

-- What a client and CP owe for a call to be covered: `malloc` gives a new block of the right size,
-- fewer than 2 ^ 32 messages are sent, and CP answers messages.
abbrev pub IsLegal : Client → Call → Type 0
IsLegal c (creates w1 w2 block) = IsNewBlock block c
IsLegal c (sends h to_vm send_rc) = c.last_msg_id + 1 < 2 ^ 32
IsLegal c (arrives a) = IsReply a
IsLegal c _ = Unit {0}

-- A legal call of ncf_010, ncf_011, ncf_021, ncf_035, ncf_040, ncf_041 or ncf_050, or an arrival,
-- keeps a client valid: every buffer has 2048 bytes and every data length fits it, every state is a
-- known one or a message number that was given out, no two requests share an address, and no two
-- wait for the same message.
pub step-IsValid : (c : Client) (a : Call) → IsLegal c a → IsValid c → IsValid (step c a)
unfolding step set_filter_tag
step-IsValid c (creates w1 w2 block) l v = create_request-IsValid w1 w2 block c l v
step-IsValid c (fills h len bytes xtab) l v = set_request_data-IsValid h len bytes xtab c v
step-IsValid c (sends h to_vm send_rc) l v = send_request-IsValid h to_vm send_rc c l v
step-IsValid c (tags h tag) l v = tagged
  where
    tagged : IsValid (set_filter_tag h tag c)
    tagged = edit-IsValid c _ _ v (λ q. (refl, refl)) λ q s. (s.room, s.fits)
step-IsValid c (arrives a) l v = arrive-IsValid a c l v
step-IsValid c (asks_words h) l v = (reads-IsValid h 0 none 0 c v).0
step-IsValid c (asks_data h len xtab from) l v = (reads-IsValid h len xtab from c v).1
step-IsValid c (frees h) l v = free_request-IsValid h c v
