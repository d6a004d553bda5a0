-- ===== src/Stream/Errors.antt =====
-- cms/ncfbases.c: the read calls where the stream ends or the service fails.
use nicof.Prelude.{
  ℕ, ◌+◌, ◌≤◌, ◌<◌, ◌≡◌, refl, true, false, some, List, [], ◌∷◌, arith, length, take, drop,
  drop-eq-cons, ap, ap₂, ◌∙◌, sym, zero, suc,
}
use nicof.Prelude.Int.{ℤ}
use nicof.Stream.{
  Stream, Answer, failed, fetch, supply, ready, advance, cons_read, next_byte, read_loop, nread,
  neof, nerror, state_ok, state_source_ended, nerr_noerror,
}
use nicof.Stream.Source.{unread}

-- A read on a source that has no error noted, has ended and is used up delivers nothing and leaves
-- the stream as it is: `neof` tells the end, and `nerror` reports no error.
pub nread_at_end :
    (n : ℕ) (answers : List Answer) (s : Stream)
    → s.is_source ≡ true
    → s.nerr ≡ nerr_noerror
    → s.buf_len ≤ s.buf_pos
    → s.stream_state ≡ state_source_ended
    → (nread n answers s ≡ some (s, [], answers))
      × (neof s ≡ true)
      × (nerror s ≡ ℤ.pos nerr_noerror)
unfolding nread neof nerror
nread_at_end n answers s a b c d = ground arith

supply_ready :
    (answers : List Answer) (s : Stream)
    → s.buf_pos < s.buf_len
    → supply answers s ≡ ready s answers
unfolding supply
supply_ready answers s h = ground arith

read_loop_ready :
    (n : ℕ) (answers later : List Answer) (s t : Stream)
    → supply answers s ≡ ready t later
    → read_loop (suc n) answers s ≡ cons_read (next_byte t) (read_loop n later (advance t))
unfolding read_loop
read_loop_ready n answers later s t e = rw (e, read_loop) refl

-- What is in the buffer is delivered without a call of the service.
read_loop_buffered :
    (n : ℕ) (answers : List Answer) (s : Stream)
    → s.buf_pos + n ≤ s.buf_len
    → s.buf_len ≤ length s.buffer
    → read_loop n answers s
      ≡ some (record s { buf_pos = s.buf_pos + n }, take n (unread s), answers)
unfolding read_loop
read_loop_buffered zero answers s h k =
    ap (λ i. some (record s { buf_pos = i }, [], answers)) (omega arith)
read_loop_buffered (suc n) answers s h k =
    read_loop_ready n answers answers s s (supply_ready answers s (omega arith))
    ∙ ap (cons_read (next_byte s)) (read_loop_buffered n answers (advance s) (omega arith) k)
    ∙ ap₂ (λ i bytes. some (record s { buf_pos = i }, bytes, answers)) (omega arith)
        (ap (λ i. next_byte s ∷ take n (drop i (take s.buf_len s.buffer))) next
          ∙ ap (take (suc n)) (sym (drop-eq-cons s.buf_len s.buf_pos s.buffer 0 (omega arith) k)))
  where
    next : s.buf_pos + 1 ≡ suc s.buf_pos
    next = omega arith

refetched :
    (n : ℕ) (answers later : List Answer) (s t : Stream)
    → supply answers s ≡ ready t later
    → t.buf_pos ≡ 0
    → t.buf_len ≤ length t.buffer
    → n < t.buf_len
    → read_loop (suc n) answers s
      ≡ some (record t { buf_pos = t.buf_pos + suc n }, take (suc n) (unread t), later)
refetched n answers later s t e z k l =
    read_loop_ready n answers later s t e
    ∙ sym (read_loop_ready n later later t t (supply_ready later t (omega arith)))
    ∙ read_loop_buffered (suc n) later t (omega arith) k

supply_failed :
    (rc : ℤ) (later : List Answer) (s : Stream)
    → s.stream_state ≡ state_ok
    → s.buf_len ≤ s.buf_pos
    → 0 < s.buf_len
    → supply (failed rc ∷ later) s ≡ ready (fetch (failed rc) s) later
unfolding supply fetch
supply_failed rc later s d e p = ground arith

nread_open :
    (n : ℕ) (answers : List Answer) (s : Stream)
    → s.is_source ≡ true
    → s.is_text ≡ false
    → s.nerr ≡ nerr_noerror
    → s.stream_state ≡ state_ok
    → nread n answers s ≡ read_loop n answers (record s { nerr = nerr_noerror })
unfolding nread
nread_open n answers s a b c d = ground arith

-- A read of at least one byte and at most the previous packet's length, on a binary source in order
-- with its buffer used up, whose call of the service fails without a response, delivers the bytes
-- of the previous packet from its start again, and notes the return code.
pub nread_failed :
    (n : ℕ) (rc : ℤ) (later : List Answer) (s : Stream)
    → s.is_source ≡ true
    → s.is_text ≡ false
    → s.nerr ≡ nerr_noerror
    → s.stream_state ≡ state_ok
    → s.buf_len ≤ s.buf_pos
    → s.buf_len ≤ length s.buffer
    → 0 < n
    → n ≤ s.buf_len
    → (t : Stream) × (nread n (failed rc ∷ later) s
        ≡ some (t, take n (take s.buf_len s.buffer), later))
      × (t.commrc ≡ rc)
unfolding fetch
nread_failed zero rc later s a b c d e k p l = absurd (omega arith)
nread_failed (suc n) rc later s a b c d e k p l = (
  record (fetch (failed rc) quiet) { buf_pos = suc n },
  nread_open (suc n) (failed rc ∷ later) s a b c d
      ∙ refetched n (failed rc ∷ later) later quiet (fetch (failed rc) quiet)
          (supply_failed rc later quiet d e (omega arith)) refl k (omega arith)
      ∙ ap
          (λ i. some (
            record (fetch (failed rc) quiet) { buf_pos = i },
            take (suc n) (take s.buf_len s.buffer),
            later,
          ))
          (omega arith),
  refl,
)
  where
    quiet : Stream
    quiet = record s { nerr = nerr_noerror }
