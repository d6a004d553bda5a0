-- ===== src/Sockets/Ledger.antt =====
-- cms/ncfsockt.c: an account of the requests that the calls on sockets create and free, and what
-- they keep of the table of sockets.
pub mod Rules
pub mod Steps
pub mod Exchange
pub mod Setting
pub mod Flags
pub mod Moving
pub mod Receiving
pub mod Watching
pub mod History
use nicof.Prelude.{
  ℕ, zero, suc, ◌+◌, ◌<◌, ◌≡◌, Bool, true, false, not, ◌&&◌, ◌||◌, Option, none, some, List, [],
  ◌∷◌, length, get_or, All, ltb, ◌==◌, if◌then◌else◌,
}
use nicof.Sockets.{fd_setsize}
use nicof.Sockets.Requests.{Requests, Sock, no_sock, Tcp}
use nicof.Sockets.Transfer.{is_noted}

-- A state with the handles that were created and those that were freed.
pub record Logged (S : Type 0) : Type 0 where
  pub base : S
  pub created : List ℕ
  pub freed : List ℕ

abbrev pub note : {S A : Type 0} → (S → S × A) → Logged S → Logged S × A
note op w = let x = op w.base in (record w { base = x.0 }, x.1)

abbrev pub note3 : {S A B : Type 0} → (S → S × A × B) → Logged S → Logged S × A × B
note3 op w = let x = op w.base in (record w { base = x.0 }, x.1, x.2)

abbrev pub note_wait : {S A : Type 0} → Logged S → Option (S × A) → Option (Logged S × A)
note_wait w none = none
note_wait w (some (s, a)) = some (record w { base = s }, a)

abbrev pub note_pause : {S : Type 0} → Logged S → Option S → Option (Logged S)
note_pause w none = none
note_pause w (some s) = some (record w { base = s })

abbrev pub log_created : Option ℕ → List ℕ → List ℕ
log_created none hs = hs
log_created (some h) hs = h ∷ hs

-- The same calls, with the account kept.
unfoldable pub logged : {S : Type 0} → Requests S → Requests (Logged S)
logged r = record {
  create = λ w1 w2 w.
      let x = r.create w1 w2 w.base in
      (record w { base = x.0; created = log_created x.1 w.created }, x.1);
  fill = λ h bytes. note3 (r.fill h bytes);
  fill_both = λ h first second. note3 (r.fill_both h first second);
  send = λ h. note3 (r.send h);
  await = λ h w. note_wait w (r.await h w.base);
  words = λ h. note3 (r.words h);
  data_length = λ h. note3 (r.data_length h);
  bytes = λ h max from. note3 (r.bytes h max from);
  free = λ h w. record w { base = r.free h w.base; freed = h ∷ w.freed };
  is_available = λ h w. r.is_available h w.base;
  set_filter_tag = λ h tag w. record w { base = r.set_filter_tag h tag w.base };
  get_filter_tag = λ h w. r.get_filter_tag h w.base;
  wait_for_any = λ tag timeout w. note_wait w (r.wait_for_any tag timeout w.base);
  pause = λ timeout w. note_pause w (r.pause timeout w.base);
}

abbrev pub occurs : ℕ → Option ℕ → ℕ
occurs h none = 0
occurs h (some k) = if k == h then 1 else 0

pub count : ℕ → List ℕ → ℕ
count h [] = 0
count h (k ∷ hs) = (if k == h then 1 else 0) + count h hs

abbrev pub noted_in : ℕ → Sock → ℕ
noted_in h s = occurs h s.recv_handle + occurs h s.send_handle

-- How often a handle is noted in the table.
pub noted : ℕ → List Sock → ℕ
noted h [] = 0
noted h (s ∷ ss) = noted_in h s + noted h ss

-- A socket is a client or a server or none of both; it has at most one operation under way, which
-- fits its role and has its request noted; and what is left of a response has its request noted too,
-- with no operation under way.
abbrev pub is_sound : Sock → Bool
is_sound s =
    not (s.client && s.server)
    && (not s.pend_conn || (s.init && not s.client && not s.server && is_noted s.recv_handle))
    && (not s.pend_recv || (s.client && is_noted s.recv_handle))
    && (not s.pend_acpt || (s.server && is_noted s.recv_handle))
    && (s.recv_remaining == 0
        || (is_noted s.recv_handle && not s.pend_conn && not s.pend_recv && not s.pend_acpt))

abbrev pub IsSound : Sock → Type 0
IsSound s = is_sound s ≡ true

-- The table is in order, and every request that was created was freed, is noted in the table, is
-- held by the call under way, or is lost.
pub record Owing (lost : ℕ → ℕ) (held : Option ℕ) (sockets : List Sock) (created freed : List ℕ)
    : Type 0 where
  pub size : length sockets ≡ fd_setsize
  pub sound : All IsSound sockets
  pub accounted :
      (h : ℕ) → count h created ≡ count h freed + (noted h sockets + (occurs h held + lost h))

-- The same of a state, with what is known of its table.
abbrev pub Holds :
    {S : Type 0} → (ℕ → ℕ) → (List Sock → Type 0) → Option ℕ → Tcp (Logged S) → Type 0
Holds lost F held t = F t.sockets × Owing lost held t.sockets t.world.created t.world.freed

abbrev pub Any : List Sock → Type 0
Any ss = Unit {0}

-- The entry of a socket, as it is read.
abbrev pub Entry : ℕ → Sock → List Sock → Type 0
Entry fd e ss = (get_or ss fd no_sock ≡ e) × (fd < fd_setsize) × IsSound e
