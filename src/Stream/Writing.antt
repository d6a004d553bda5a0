-- ===== src/Stream/Writing.antt =====
-- cms/ncfbases.c: what is written to a sink stream reaches the service in order.
use nicof.Prelude.{
  ℕ, suc, ◌+◌, ◌*◌, ◌<◌, ◌≡◌, ◌∙◌, refl, sym, ap, subst, ◌≢◌, Bool, true, false, some, List, [],
  ◌∷◌, ◌++◌, length, take, arith, All, length-set, append_assoc, append-nil, take-set,
}
use native.Mathlib.Decide.{ℕ_discrete}
use nicof.Prelude.Int.{ℤ}
use nicof.Stream.{Stream, Answer, failed, answered, state_ok, nerr_noerror, stream_buffer_len}
use nicof.Stream.Write.{
  Packet, Sink, packet, flushed, flush_inner, stored, putc, put_all, with_nerr, nwrite, nclose,
  close_call,
}

-- The bytes of all packets, in order.
pub packed : List Packet → List ℕ
packed [] = []
packed (p ∷ ps) = p.bytes ++ packed ps

packed-append : (ps qs : List Packet) → packed (ps ++ qs) ≡ packed ps ++ packed qs
unfolding packed
packed-append [] qs = refl
packed-append (p ∷ ps) qs =
    rw (packed-append ps qs) (sym (append_assoc p.bytes (packed ps) (packed qs)))

-- All that has been written: what was sent, then what the buffer holds.
abbrev pub written : Sink → List ℕ
written k = packed k.sent ++ take k.stream.buf_pos k.stream.buffer

-- A sink stream that works, over a service that takes every packet.
abbrev pub IsTaken : Answer → Type 0
IsTaken (failed rc) = ⊥
IsTaken (answered rc ctl bytes) = (rc ≡ ℤ.pos 0) × (ctl ≡ state_ok)

pub record IsWritableAt (text : Bool) (k : Sink) : Type 0 where
  pub sink : k.stream.is_source ≡ false
  pub kind : k.stream.is_text ≡ text
  pub quiet : k.stream.nerr ≡ nerr_noerror
  pub state : k.stream.stream_state ≡ state_ok
  pub size : k.stream.buf_len ≡ stream_buffer_len
  pub room : length k.stream.buffer ≡ stream_buffer_len
  pub taken : All IsTaken k.answers

-- Between two calls the buffer has room for a byte.
pub record IsWritable (text : Bool) (k : Sink) : Type 0 where
  pub ready : IsWritableAt text k
  pub open ready use *
  pub space : k.stream.buf_pos < stream_buffer_len

-- Each answer serves one packet of 2048 bytes: `n` more bytes can be written.
abbrev pub CanTake : ℕ → Sink → Type 0
CanTake n k = k.stream.buf_pos + n < stream_buffer_len * (length k.answers + 1)

stored-written :
    (c : ℕ) (k : Sink)
    → k.stream.buf_pos < length k.stream.buffer
    → written (stored c k) ≡ written k ++ c ∷ []
stored-written c k h =
    rw (take-set k.stream.buf_pos k.stream.buffer c h)
      (sym (append_assoc (packed k.sent) _ (c ∷ [])))

-- A flush with an answer at hand sends what the buffer holds.
flush-Writes :
    (text : Bool) (a : Answer) (later : List Answer) (k : Sink)
    → k.answers ≡ a ∷ later
    → k.stream.buf_pos ≢ 0
    → flush_inner k
      ≡ some (record {
        stream = flushed a k.stream;
        answers = later;
        sent = k.sent ++ packet k.stream ∷ [];
      })
unfolding flush_inner
flush-Writes text a later k e n = ground arith

flush_empty : (k : Sink) → k.stream.buf_pos ≡ 0 → flush_inner k ≡ some k
unfolding flush_inner
flush_empty k z = ground arith

flushed-IsWritable :
    (text : Bool) (a : Answer) (k : Sink) (later : List Answer) (sent : List Packet)
    → IsWritableAt text k
    → IsTaken a
    → All IsTaken later
    → IsWritable text (record { stream = flushed a k.stream; answers = later; sent = sent })
unfolding flushed
flushed-IsWritable text (failed rc) k later sent v t ts = absurd t
flushed-IsWritable text (answered rc ctl bytes) k later sent v t ts = record {
  ready = record {
    sink = v.sink;
    kind = v.kind;
    quiet = ground (arith, t.0, v.quiet);
    state = t.1;
    size = refl;
    room = v.room;
    taken = ts;
  };
  space = omega arith;
}

packed-packet : (k : Sink) → packed (k.sent ++ packet k.stream ∷ []) ≡ written k
unfolding packed
packed-packet k = rw (
  packed-append k.sent (packet k.stream ∷ []),
  append-nil (take k.stream.buf_pos k.stream.buffer),
)

-- What a call that wrote `bytes` leaves.
abbrev pub Wrote : Bool → List ℕ → Sink → Sink → Type 0
Wrote text bytes k l = IsWritable text l × (written l ≡ written k ++ bytes)

putc_below :
    (c : ℕ) (k : Sink) (text : Bool)
    → IsWritable text k
    → k.stream.buf_pos + 1 ≢ stream_buffer_len
    → putc c k ≡ some (stored c k, true)
unfolding putc
putc_below c k text v n = ground (arith, v.state, v.size)

putc_full :
    (c : ℕ) (k l : Sink) (text : Bool)
    → IsWritable text k
    → k.stream.buf_pos + 1 ≡ stream_buffer_len
    → flush_inner (stored c k) ≡ some l
    → l.stream.stream_state ≡ state_ok
    → putc c k ≡ some (l, true)
unfolding putc
putc_full c k l text v n e st = ground (arith, v.size, e, st)

stored-IsWritableAt :
    (text : Bool) (c : ℕ) (k : Sink) → IsWritable text k → IsWritableAt text (stored c k)
stored-IsWritableAt text c k v = record {
  sink = v.sink;
  kind = v.kind;
  quiet = v.quiet;
  state = v.state;
  size = v.size;
  room = length-set k.stream.buffer k.stream.buf_pos c ∙ v.room;
  taken = v.taken;
}

flushed-pos : (a : Answer) (s : Stream) → (flushed a s).buf_pos ≡ 0
unfolding flushed
flushed-pos (failed rc) s = refl
flushed-pos (answered rc ctl bytes) s = refl

-- A flush only moves bytes from the buffer to the service.
flushed-written :
    (a : Answer) (k : Sink) (later : List Answer)
    → written (record {
      stream = flushed a k.stream;
      answers = later;
      sent = k.sent ++ packet k.stream ∷ [];
    })
      ≡ written k
flushed-written a k later = rw (flushed-pos a k.stream) (append-nil _ ∙ packed-packet k)

filled-Writes :
    (text : Bool) (c n : ℕ) (k : Sink) (answers : List Answer)
    → k.answers ≡ answers
    → IsWritable text k
    → CanTake (suc n) k
    → k.stream.buf_pos + 1 ≡ stream_buffer_len
    → (l : Sink) × (putc c k ≡ some (l, true)) × Wrote text (c ∷ []) k l × CanTake n l
filled-Writes text c n k [] e v t full =
    let none_left : length k.answers ≡ 0 = ap length e in absurd (omega arith)
filled-Writes text c n k (a ∷ later) e v t full =
    let takes : IsTaken a × All IsTaken later = subst (All IsTaken) e v.taken in
    let l : Sink = record {
      stream = flushed a (stored c k).stream;
      answers = later;
      sent = k.sent ++ packet (stored c k).stream ∷ [];
    } in
    let w : IsWritable text l =
      flushed-IsWritable text a (stored c k) later l.sent (stored-IsWritableAt text c k v) takes.0
        takes.1 in
    let one : length k.answers ≡ suc (length later) = ap length e in
    (
      l,
      putc_full c k l text v full (flush-Writes text a later (stored c k) e (omega arith)) w.state,
      (
        w,
        flushed-written a (stored c k) later ∙ stored-written c k (omega (arith, v.space, v.room)),
      ),
      omega (arith, flushed-pos a (stored c k).stream),
    )

putc-Writes :
    (text : Bool) (c n : ℕ) (k : Sink)
    → IsWritable text k
    → CanTake (suc n) k
    → (l : Sink) × (putc c k ≡ some (l, true)) × Wrote text (c ∷ []) k l × CanTake n l
putc-Writes text c n k v t = elim (ℕ_discrete (k.stream.buf_pos + 1) stream_buffer_len) [
  | yes full ↦ filled-Writes text c n k k.answers refl v t full
  | no space ↦ (
    stored c k,
    putc_below c k text v space,
    (
      record { ready = stored-IsWritableAt text c k v; space = omega (arith, v.space) },
      stored-written c k (omega (arith, v.space, v.room)),
    ),
    omega arith,
  )
]

put_all-Writes :
    (text : Bool) (bytes : List ℕ) (i : ℕ) (k : Sink)
    → IsWritable text k
    → CanTake (length bytes) k
    → (l : Sink) × (put_all bytes i k ≡ some (l, i + length bytes, true)) × Wrote text bytes k l
unfolding put_all
put_all-Writes text [] i k v t =
    (k, ap (λ j. some (k, j, true)) (omega arith), (v, sym (append-nil (written k))))
put_all-Writes text (c ∷ cs) i k v t =
    let (l, e, (w, b), room) = putc-Writes text c (length cs) k v t in
    let (m, e', (w', b')) = put_all-Writes text cs (i + 1) l w room in
    (
      m,
      rw (e, put_all) (e' ∙ ap (λ j. some (m, j, true)) (omega arith)),
      (w', b' ∙ ap (λ bs. bs ++ cs) b ∙ append_assoc (written k) (c ∷ []) cs),
    )

calm-IsWritable :
    (text : Bool) (k : Sink) → IsWritable text k → IsWritable text (with_nerr nerr_noerror k)
calm-IsWritable text k v = record {
  ready = record {
    sink = v.sink;
    kind = v.kind;
    quiet = refl;
    state = v.state;
    size = v.size;
    room = v.room;
    taken = v.taken;
  };
  space = v.space;
}

-- On a writable binary stream, over a service that takes every packet and has answers enough, a
-- write takes all its bytes, and what has been sent and is buffered is what it was before with
-- these bytes behind it.
pub nwrite-Writes :
    (bytes : List ℕ) (k : Sink)
    → IsWritable false k
    → CanTake (length bytes) k
    → (l : Sink) × (nwrite bytes k ≡ some (l, length bytes)) × Wrote false bytes k l
unfolding nwrite
nwrite-Writes bytes k v t =
    let (l, e, w) =
      put_all-Writes false bytes 0 (with_nerr nerr_noerror k) (calm-IsWritable false k v) t in
    (l, ground (arith, e, v.sink, v.kind, v.quiet, v.state), w)

-- The close of a writable stream, over a service that answers the flush and the close, returns, and
-- by then every byte written has been sent, in order.
pub nclose-Writes :
    (text : Bool) (k : Sink) (a b : Answer) (later : List Answer)
    → IsWritable text k
    → k.answers ≡ a ∷ b ∷ later
    → (l : Sink) × (nclose k ≡ some (l, true)) × (packed l.sent ≡ written k)
unfolding nclose close_call
nclose-Writes text k a b later v e = elim (ℕ_discrete k.stream.buf_pos 0) [
  | yes z ↦
      (record k { answers = b ∷ later }, closed_empty z, rw z (sym (append-nil (packed k.sent))))
  | no n ↦ (
    record { stream = flushed a k.stream; answers = later; sent = k.sent ++ packet k.stream ∷ [] },
    closed_full n,
    packed-packet k,
  )
]
  where
    closed_empty : k.stream.buf_pos ≡ 0 → nclose k ≡ some (record k { answers = b ∷ later }, true)
    closed_empty z = ground (arith, flush_empty k z, v.sink, v.state, e)

    closed_full :
        k.stream.buf_pos ≢ 0
        → nclose k
          ≡ some (
            record {
              stream = flushed a k.stream;
              answers = later;
              sent = k.sent ++ packet k.stream ∷ [];
            },
            true,
          )
    closed_full n = ground (arith, flush-Writes text a (b ∷ later) k e n, v.sink, v.state, e)
