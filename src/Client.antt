-- ===== src/Client.antt =====
-- cms/nicofclt.c: the request objects of a client VM and the calls that drive a request from its
-- creation to the fetched response. A C function takes the client's static variables as a record
-- and gives the new record beside its result. A pointer into the pool is the request's handle
-- (`me`, which is its address): `find` dereferences it, `on` writes through it. A handle that
-- is no request of the pool is one whose memory does not hold its own address.
pub mod Wait
pub mod Calls
pub mod Tables
pub mod TimedWait
pub mod Validity
pub mod Phases
pub mod Delivery
pub mod History
pub mod Filling
mod Tests
use nicof.Prelude.{
  ℕ, ◌+◌, ◌-◌, ◌^◌, ◌%◌, Bool, true, false, ◌||◌, ◌&&◌, not, Option, none, some, List, [], ◌∷◌,
  ◌++◌, map, length, take, drop, overwrite, get_or, ltb, leb, ◌==◌, if◌then◌else◌,
}
use nicof.Prelude.Int.{ℤ, pos, neg}

abbrev pub max_packet_len : ℕ
max_packet_len = 2048

-- The states of a request, held in `msgId`; above `mid_pend` it is the message sent.
abbrev pub mid_free : ℕ
mid_free = 2

abbrev pub mid_new : ℕ
mid_new = 4

abbrev pub mid_rcvd : ℕ
mid_rcvd = 6

abbrev pub mid_rtrn : ℕ
mid_rtrn = 8

abbrev pub mid_pend : ℕ
mid_pend = 10

-- `RC(code, what)`: the constants `what` are negative in the source, and stand here without sign.
abbrev pub rc : ℕ → ℕ → ℤ
rc code what = neg (what + code)

abbrev pub rc_ok : ℤ
rc_ok = pos 0

abbrev pub vmcf : ℕ
vmcf = 1000000

abbrev pub setreqdata : ℕ
setreqdata = 1001000

abbrev pub sendreq : ℕ
sendreq = 1002000

abbrev pub waitresp : ℕ
waitresp = 1003000

abbrev pub getrespdata : ℕ
getrespdata = 1004000

abbrev pub freereq : ℕ
freereq = 1005000

abbrev pub recvreq : ℕ
recvreq = 1006000

-- `struct _client_request`; `buf` is its array `data`. `next` is the order of the list, and
-- `svcVm` is never used.
pub record Request : Type 0 where
  pub me : ℕ
  pub msg_id : ℕ
  pub recv_rc : ℤ
  pub filter_tag : ℕ
  pub user_word1 : ℕ
  pub user_word2 : ℕ
  pub data_len : ℕ
  pub buf : List ℕ

-- The module's static variables. `initialized` is `vmcparm != NULL`; `posted` is `rcv_ecb != 0`.
pub record Client : Type 0 where
  pub initialized : Bool
  pub requests : List Request
  pub last_msg_id : ℕ
  pub response_filter : ℕ
  pub posted : Bool

abbrev pub xlate : Option (ℕ → ℕ) → List ℕ → List ℕ
xlate none bs = bs
xlate (some xtab) bs = map xtab bs

-- A walk along `next` to the first request that passes a test.
pub first : (Request → Bool) → List Request → Option Request
first test [] = none
first test (r ∷ rs) = if test r then some r else first test rs

-- A write to the request that such a walk finds.
pub modify : (Request → Bool) → (Request → Request) → List Request → List Request
modify test f [] = []
modify test f (r ∷ rs) = if test r then f r ∷ rs else r ∷ modify test f rs

abbrev pub find : ℕ → List Request → Option Request
find h = first λ r. r.me == h

abbrev pub on : ℕ → (Request → Request) → Client → Client
on h f c = record c { requests = modify (λ r. r.me == h) f c.requests }

-- `malloc` gives `block`: `me` is its address, the other fields what the memory held.
pub alloc_request : Request → Client → Client
alloc_request block c = record c {
  requests = record block { msg_id = mid_free; data_len = 0 } ∷ c.requests;
}

pub get_request : Request → Client → Client × ℕ
unfolding alloc_request
get_request block c = elim (first (λ r. r.msg_id == mid_free) c.requests) [
  | none ↦ (alloc_request block c, block.me)
  | some r ↦ (on r.me (λ q. record q { data_len = 0 }) c, r.me)
]

pub alloc_all : List Request → Client → Client
unfolding alloc_request
alloc_all [] c = c
alloc_all (b ∷ bs) c = alloc_all bs (alloc_request b c)

-- ncf_001, with the blocks that its `INIT_REQ_COUNT` calls of `malloc` give and the return code of
-- the VMCF AUTHORIZE.
pub init : List Request → ℕ → Client → Client × ℤ
unfolding alloc_all
init blocks auth_rc c = if c.initialized then (c, rc 0 vmcf) else (
  record (alloc_all blocks c) { initialized = true },
  if auth_rc == 0 then rc_ok else rc auth_rc vmcf,
)

-- ncf_002: the requests are given back; `vmcparm` keeps its value.
pub deinit : Client → Client
deinit c = if c.initialized then record c { requests = [] } else c

-- ncf_010
pub create_request : ℕ → ℕ → Request → Client → Client × ℕ
unfolding get_request
create_request w1 w2 block c =
    let (c', h) = get_request block c in
    (on h (λ r. record r { user_word1 = w1; user_word2 = w2; msg_id = mid_new }) c', h)

-- A call that works on the request behind a handle in state `s`, or fails with 1 or 2.
abbrev pub with_request : {A : Type 0} → ℕ → ℕ → ℕ → Client → (ℤ → A) → (Request → A) → A
with_request h s what c fail work = elim (find h c.requests) [
  | none ↦ fail (rc 1 what)
  | some req ↦ if req.msg_id == s then work req else fail (rc 2 what)
]

abbrev pub clip : ℕ → ℕ
clip n = if ltb max_packet_len n then max_packet_len else n

-- ncf_011. `bytes` is the memory from `data` on.
pub set_request_data : ℕ → ℕ → List ℕ → Option (ℕ → ℕ) → Client → Client × ℤ
set_request_data h len bytes xtab c =
    with_request h mid_new setreqdata c (λ e. (c, e))
      λ req.
        let new = xlate xtab (take (clip len) bytes) in
        (on h (λ r. record r { buf = overwrite new r.buf; data_len = clip len }) c, rc_ok)

-- The lengths that ncf_012 goes on with: the sum of two `uint`s wraps.
abbrev pub clip_lengths : ℕ → ℕ → ℕ × ℕ
clip_lengths len1 len2 =
    let l1 = clip len1 in
    (l1, if ltb max_packet_len ((l1 + len2) % 2 ^ 32) then max_packet_len - l1 else len2)

-- ncf_012; `none` is a write behind the packet's buffer.
pub set_request_data_x :
    ℕ → ℕ → List ℕ → Option (ℕ → ℕ) → ℕ → List ℕ → Option (ℕ → ℕ) → Client → Option (Client × ℤ)
set_request_data_x h len1 bytes1 xtab1 len2 bytes2 xtab2 c =
    with_request h mid_new setreqdata c (λ e. some (c, e))
      λ req.
        let (l1, l2) = clip_lengths len1 len2 in
        let new = xlate xtab1 (take l1 bytes1) ++ xlate xtab2 (take l2 bytes2) in
        if leb (l1 + l2) max_packet_len
        then some (on h (λ r. record r { buf = overwrite new r.buf; data_len = l1 + l2 }) c, rc_ok)
        else none

-- The VMCPARM of a SEND/RECV, as CP sees it: `vmcpvada` and `vmcpvadb` are the buffer of request
-- `data_of`.
pub record Vmcparm : Type 0 where
  pub user : ℕ
  pub data_of : ℕ
  pub lena : ℕ
  pub lenb : ℕ
  pub w1 : ℕ
  pub w2 : ℕ
  pub mid : ℕ

-- ncf_021 up to its wait, for the user id `to_vm`, where CP answers `send_rc`. The last part is
-- what is handed to CP.
pub send_request : ℕ → ℕ → ℕ → Client → Client × ℤ × Option Vmcparm
send_request h to_vm send_rc c =
    with_request h mid_new sendreq c (λ e. (c, e, none))
      λ req.
        let mid = (c.last_msg_id + 1) % 2 ^ 32 in
        let parm : Vmcparm = record {
          user = to_vm;
          data_of = req.me;
          lena = req.data_len;
          lenb = max_packet_len;
          w1 = req.user_word1;
          w2 = req.user_word2;
          mid = mid;
        } in
        let sent = record (on h (λ r. record r { msg_id = mid }) c) { last_msg_id = mid } in
        if send_rc == 0
        then (sent, rc_ok, some parm)
        else (on h (λ r. record r { msg_id = mid_new }) sent, rc send_rc vmcf, some parm)

-- ncf_032, ncf_033
pub is_available : ℕ → Client → Bool
is_available h c = elim (find h c.requests) [ none ↦ false | some r ↦ r.msg_id == mid_rcvd ]

pub is_received : ℕ → Client → Bool
is_received h c = elim (find h c.requests) [ none ↦ false | some r ↦ r.msg_id == mid_rtrn ]

-- ncf_035, ncf_036
pub set_filter_tag : ℕ → ℕ → Client → Client
set_filter_tag h tag c = on h (λ r. record r { filter_tag = tag }) c

pub get_filter_tag : ℕ → Client → ℕ
get_filter_tag h c = elim (find h c.requests) [ none ↦ 0 | some r ↦ r.filter_tag ]

-- `if (req->msgId == MID_RCVD) { ncf_030(h); }`: in that state the loop of ncf_030 makes no round.
abbrev pub collect : ℕ → Client → Client
collect h c = on h (λ r. if r.msg_id == mid_rcvd then record r { msg_id = mid_rtrn } else r) c

-- ncf_040. `none`: the caller's words are not written.
pub get_response_user_words : ℕ → Client → Client × ℤ × Option (ℕ × ℕ)
get_response_user_words h c =
    let c' = collect h c in
    with_request h mid_rtrn getrespdata c' (λ e. (c', e, none))
      λ req. (c', rc_ok, some (req.user_word1, req.user_word2))

-- ncf_041. The last part is what is copied to the caller's buffer, `*dataLen` bytes.
pub get_response_data : ℕ → ℕ → Option (ℕ → ℕ) → ℕ → Client → Client × ℤ × Option (List ℕ)
get_response_data h buffer_len xtab from c =
    let c' = collect h c in
    with_request h mid_rtrn getrespdata c' (λ e. (c', e, none))
      λ req.
        let rest = req.data_len - from in
        let copy_len = if ltb buffer_len rest then buffer_len else rest in
        if leb req.data_len from
        then (c', rc_ok, some [])
        else (c', rc_ok, some (xlate xtab (take copy_len (drop from req.buf))))

-- ncf_042
pub get_response_data_length : ℕ → Client → Client × ℤ × Option ℕ
get_response_data_length h c =
    let c' = collect h c in
    with_request h mid_rtrn getrespdata c' (λ e. (c', e, none))
      λ req. (c', rc_ok, some (clip req.data_len))

-- ncf_043; the number is what `*b` is left with.
pub get_response_data_byte : ℕ → ℕ → Client → Client × ℤ × ℕ
get_response_data_byte h idx c =
    let c' = collect h c in
    with_request h mid_rtrn getrespdata c' (λ e. (c', e, 0))
      λ req.
        if leb max_packet_len idx || leb req.data_len idx
        then (c', rc 3 getrespdata, 0)
        else (c', rc_ok, get_or req.buf idx 0)

-- ncf_050
pub free_request : ℕ → Client → Client × ℤ
free_request h c = elim (find h c.requests) [
  | none ↦ (c, rc 1 freereq)
  | some req ↦
      if leb mid_pend req.msg_id
      then (c, rc 2 freereq)
      else (on h (λ r. record r { msg_id = mid_free }) c, rc_ok)
]
