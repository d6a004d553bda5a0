-- ===== src/Sockets/Ledger/Flags.antt =====
-- cms/ncfsockt.c: how the calls change the flags of a socket.
use nicof.Prelude.{ℕ, ◌+◌, ◌≡◌, true, false, not, Option, none, some, arith, ltb}
use nicof.Sockets.Requests.{Sock, is_other}
use nicof.Sockets.Transfer.{
  with_rest, note_conn, note_recv, note_acpt, clear_conn, clear_recv, clear_acpt, accepted,
}
use nicof.Sockets.Ledger.{occurs, IsSound}

pub note_conn-IsSound :
    (s : Sock) (h : ℕ)
    → s.server ≡ false
    → s.client ≡ false
    → s.recv_handle ≡ none
    → IsSound s
    → IsSound (note_conn h s)
note_conn-IsSound s h a b e k = ground arith

pub note_recv-IsSound :
    (s : Sock) (h : ℕ)
    → s.server ≡ false
    → not s.client ≡ false
    → s.recv_handle ≡ none
    → IsSound s
    → IsSound (note_recv h s)
note_recv-IsSound s h a b e k = ground arith

pub note_acpt-IsSound :
    (s : Sock) (h : ℕ)
    → s.client ≡ false
    → not s.server ≡ false
    → s.recv_handle ≡ none
    → IsSound s
    → IsSound (note_acpt h s)
note_acpt-IsSound s h a b e k = ground arith

pub clear_conn-IsSound :
    (s : Sock)
    → s.server ≡ false
    → s.client ≡ false
    → is_other s.recv_handle s.pend_conn ≡ false
    → IsSound s
    → IsSound (clear_conn s)
clear_conn-IsSound s a b e k = ground arith

pub clear_recv-IsSound :
    (s : Sock)
    → s.server ≡ false
    → not s.client ≡ false
    → is_other s.recv_handle s.pend_recv ≡ false
    → IsSound s
    → IsSound (clear_recv s)
clear_recv-IsSound s a b e k = ground arith

pub clear_acpt-IsSound :
    (s : Sock)
    → s.client ≡ false
    → not s.server ≡ false
    → is_other s.recv_handle s.pend_acpt ≡ false
    → IsSound s
    → IsSound (clear_acpt s)
clear_acpt-IsSound s a b e k = ground arith

pub connected-IsSound :
    (s : Sock)
    → s.server ≡ false
    → s.client ≡ false
    → is_other s.recv_handle s.pend_conn ≡ false
    → IsSound s
    → IsSound (record (clear_conn s) { client = true })
connected-IsSound s a b e k = ground arith

pub with_rest-IsSound :
    (s : Sock) (h m n : ℕ)
    → s.server ≡ false
    → not s.client ≡ false
    → IsSound s
    → IsSound (with_rest h m n (clear_recv s))
with_rest-IsSound s h m n a b k = ground arith

-- The branch of recv for the rest of a response is never reached: while something is left, no recv
-- is noted as under way.
pub no_chunk :
    (s : Sock) (h : ℕ)
    → s.recv_handle ≡ some h
    → is_other s.recv_handle s.pend_recv ≡ false
    → IsSound s
    → ltb 0 s.recv_remaining ≡ false
no_chunk s h e a k = ground arith

pub accepted-IsSound : (e : Sock) → IsSound e → IsSound (accepted e)
accepted-IsSound e k = ground arith

pub moving_recv :
    (o p : Option ℕ) (h k : ℕ)
    → o ≡ none
    → occurs k (some h) + occurs k p + 0 ≡ occurs k o + occurs k p + occurs k (some h)
moving_recv o p h k e = rw e (omega arith)
