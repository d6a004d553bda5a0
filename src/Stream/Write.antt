-- ===== src/Stream/Write.antt =====
-- cms/ncfbases.c: the calls that write to a bulk stream. The packets handed to the service are
-- logged in the order of their calls, before the translation that their flag asks for.
use nicof.Prelude.{
  ℕ, ◌+◌, Bool, true, false, ◌||◌, not, Option, none, some, List, [], ◌∷◌, ◌++◌, take, set, ◌==◌,
  if◌then◌else◌,
}
use nicof.Stream.{
  Stream, Answer, failed, answered, note_rc, stream_buffer_len, state_ok, state_closed,
  nerr_noerror, nerr_not_sink, nerr_nottextstream, nerr_notbinstream,
}

pub record Packet : Type 0 where
  pub to_stream : ℕ
  pub as_text : Bool
  pub bytes : List ℕ

-- A stream, what the service will answer, and what has been sent so far, oldest first.
pub record Sink : Type 0 where
  pub stream : Stream
  pub answers : List Answer
  pub sent : List Packet

-- The stream after the call of BULKSINK_WRITE in nflush_inner.
unfoldable pub flushed : Answer → Stream → Stream
flushed (failed rc) s = record (note_rc rc s) { buf_pos = 0; buf_len = stream_buffer_len }
flushed (answered rc ctl bytes) s = record (note_rc rc s) {
  stream_state = ctl;
  buf_pos = 0;
  buf_len = stream_buffer_len;
}

abbrev pub packet : Stream → Packet
packet s = record { to_stream = s.stream_id; as_text = s.is_text; bytes = take s.buf_pos s.buffer }

-- nflush_inner; `none` is a call that does not return.
unfoldable pub flush_inner : Sink → Option Sink
flush_inner k = if k.stream.buf_pos == 0 then some k else elim k.answers [
  | [] ↦ none
  | a ∷ later ↦ some (record {
    stream = flushed a k.stream;
    answers = later;
    sent = k.sent ++ packet k.stream ∷ [];
  })
]

abbrev pub stored : ℕ → Sink → Sink
stored c k =
    let s = k.stream in
    record k { stream = record s { buffer = set s.buffer s.buf_pos c; buf_pos = s.buf_pos + 1 } }

-- The macro `_putc`; the flag is false where the macro makes the caller return.
unfoldable pub putc : ℕ → Sink → Option (Sink × Bool)
putc c k =
    let full = stored c k in
    if full.stream.buf_pos == full.stream.buf_len
    then elim (flush_inner full) [
      | none ↦ none
      | some l ↦ some (l, l.stream.stream_state == state_ok)
    ]
    else some (full, full.stream.stream_state == state_ok)

-- `putc` for each byte, up to the first that makes the caller return; the number counts the bytes
-- before that one.
unfoldable pub put_all : List ℕ → ℕ → Sink → Option (Sink × ℕ × Bool)
put_all [] i k = some (k, i, true)
put_all (c ∷ cs) i k = elim (putc c k) [
  | none ↦ none
  | some (l, on) ↦ elim on [ true ↦ put_all cs (i + 1) l | false ↦ some (l, i, false) ]
]

abbrev pub with_nerr : ℕ → Sink → Sink
with_nerr e k = let s = k.stream in record k { stream = record s { nerr = e } }

-- The tests that the write calls begin with. `str->nerr == NERR_WRITEERROR;` changes nothing.
abbrev pub refuses : Sink → Bool
refuses k = not (k.stream.nerr == nerr_noerror) || not (k.stream.stream_state == state_ok)

unfoldable pub nwrite : List ℕ → Sink → Option (Sink × ℕ)
nwrite bytes k =
    if k.stream.is_source
    then some (with_nerr nerr_not_sink k, 0)
    else if refuses k
    then some (k, 0)
    else if k.stream.is_text
    then some (with_nerr nerr_notbinstream k, 0)
    else elim (put_all bytes 0 (with_nerr nerr_noerror k)) [
      | none ↦ none
      | some (l, i, done) ↦ some (l, i)
    ]

abbrev pub char_cr : ℕ
char_cr = 0x0d

abbrev pub char_lf : ℕ
char_lf = 0x25

-- The line end of the platform: `mode` is `lineEndMode`.
abbrev pub newline : ℕ → List ℕ
newline mode =
    if mode == 1
    then char_lf ∷ []
    else if mode == 2
    then char_cr ∷ []
    else if mode == 3
    then char_cr ∷ char_lf ∷ []
    else char_lf ∷ char_cr ∷ []

-- `string` is the text up to its null char.
unfoldable pub nputstr : ℕ → List ℕ → Bool → Sink → Option (Sink × Bool)
nputstr mode string append_newline k =
    if k.stream.is_source
    then some (with_nerr nerr_not_sink k, false)
    else if refuses k
    then some (k, false)
    else if not k.stream.is_text
    then some (with_nerr nerr_nottextstream k, false)
    else elim (put_all (string ++ (if append_newline then newline mode else [])) 0
        (with_nerr nerr_noerror k)) [ none ↦ none | some (l, i, done) ↦ some (l, done) ]

unfoldable pub nflush : Sink → Option Sink
nflush k =
    if k.stream.is_source
    then some (with_nerr nerr_not_sink k)
    else if refuses k
    then some k
    else flush_inner k

-- The call of BULKSRC_CLOSE or BULKSINK_CLOSE, for its effect on the service; the stream's memory
-- is given back.
unfoldable pub close_call : Sink → Option Sink
close_call k = elim k.answers [ [] ↦ none | a ∷ later ↦ some (record k { answers = later }) ]

-- nclose; the flag tells whether the stream's memory has been freed.
unfoldable pub nclose : Sink → Option (Sink × Bool)
nclose k =
    if k.stream.stream_state == state_closed
    then some (k, false)
    else elim (if k.stream.is_source then some k else flush_inner k) [
      | none ↦ none
      | some l ↦ elim (close_call l) [ none ↦ none | some l' ↦ some (l', true) ]
    ]
