-- ===== src/Proxy.antt =====
-- cms/ioproxy.c: the request buffers of the proxy VM. A slot is its index in `requests`; the two
-- rings hold slots or NULL. The interrupt's data come as an argument.
pub mod Ring
pub mod Buffers
pub mod Flow
pub mod Link
pub mod Receive
pub mod Sound
pub mod Encoding
pub mod Packets
mod Tests
use nicof.Prelude.{
  ℕ, zero, suc, ◌+◌, ◌-◌, Bool, true, false, Option, none, some, List, [], ◌∷◌, replicate,
  get_elem?, set, ltb, leb, not, ◌==◌, if◌then◌else◌,
}

abbrev pub max_packet_len : ℕ
max_packet_len = 2048

abbrev pub max_request_count : ℕ
max_request_count = 128

-- The macro RING_NEXT.
abbrev pub ring_next : ℕ → ℕ
ring_next idx = if leb (max_request_count - 1) idx then 0 else idx + 1

-- `struct _request` less its index and its data buffer; `user` stands for the 8 characters.
pub record Request : Type 0 where
  pub msg_id : ℕ
  pub user : ℕ
  pub user_word1 : ℕ
  pub user_word2 : ℕ
  pub in_data_len : ℕ

pub record Proxy : Type 0 where
  pub requests : List Request
  pub req_free : List (Option ℕ)
  pub req_curr_free : ℕ
  pub req_last_free : ℕ
  pub req_queue : List (Option ℕ)
  pub req_last_in : ℕ
  pub req_last_out : ℕ

abbrev pub blank : Request
blank = record { msg_id = 0; user = 0; user_word1 = 0; user_word2 = 0; in_data_len = 0 }

-- The `count` slots from `slot` on.
abbrev pub slots_from : ℕ → ℕ → List (Option ℕ)
slots_from slot zero = []
slots_from slot (suc count) = some slot ∷ slots_from (slot + 1) count

-- initRequestBuffers
pub init_request_buffers : Proxy
init_request_buffers = record {
  requests = replicate max_request_count blank;
  req_free = slots_from 0 max_request_count;
  req_curr_free = 1;
  req_last_free = 0;
  req_queue = replicate max_request_count none;
  req_last_in = 0;
  req_last_out = 0;
}

-- The slot at a position of a ring, NULL included.
abbrev pub at : List (Option ℕ) → ℕ → Option ℕ
at ring i = elim (get_elem? ring i) [ none ↦ none | some s ↦ s ]

pub get_slot : Proxy → Proxy × Option ℕ
get_slot p =
    if p.req_curr_free == p.req_last_free then (p, none) else elim (at p.req_free p.req_curr_free) [
      | none ↦ (p, none)
      | some s ↦ (
        record p {
          req_free = set p.req_free p.req_curr_free none;
          req_curr_free = ring_next p.req_curr_free;
        },
        some s,
      )
    ]

abbrev pub edit : ℕ → (Request → Request) → List Request → List Request
edit i f [] = []
edit zero f (r ∷ rs) = f r ∷ rs
edit (suc i) f (r ∷ rs) = r ∷ edit i f rs

pub free_slot : ℕ → Proxy → Proxy
free_slot s p =
    let this_free = ring_next p.req_last_free in
    record p {
      requests = edit s (λ r. record r { msg_id = 0 }) p.requests;
      req_free = set p.req_free this_free (some s);
      req_last_free = this_free;
    }

-- enqueueRequest: `head` holds what the VMCF interrupt data say of the request.
pub enqueue_request : ℕ → Request → Proxy → Proxy
enqueue_request s head p =
    let len = if ltb max_packet_len head.in_data_len then max_packet_len else head.in_data_len in
    let idx = ring_next p.req_last_in in
    record p {
      requests = edit s (λ r. record head { in_data_len = len }) p.requests;
      req_queue = set p.req_queue idx (some s);
      req_last_in = idx;
    }

pub having_request : Proxy → Bool
having_request p = not (p.req_last_out == p.req_last_in)

-- getNextRequestToSend
pub get_next_request_to_send : Proxy → Proxy × Option ℕ
get_next_request_to_send p =
    if p.req_last_out == p.req_last_in
    then (p, none)
    else let idx = ring_next p.req_last_out in
      (record p { req_queue = set p.req_queue idx none; req_last_out = idx }, at p.req_queue idx)

-- The branch VMCPSENR of handleExt: the flag tells whether the request was taken in; if not, it is
-- rejected for want of a slot.
pub accept_request : Request → Proxy → Proxy × Bool
accept_request head p =
    let (q, slot) = get_slot p in
    elim slot [ none ↦ (q, false) | some s ↦ (enqueue_request s head q, true) ]
