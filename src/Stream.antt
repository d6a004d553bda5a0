-- ===== src/Stream.antt =====
-- cms/ncfbases.c: the bulk streams over which a client reads and writes a remote file. What the
-- external proxy answers to each call of the base services is a list of answers, used up in order;
-- a call with no answer left waits for ever, which is `none`.
pub mod Write
pub mod Source
pub mod Reading
pub mod Writing
pub mod Errors
pub mod Lines
mod Tests
use nicof.Prelude.{
  ℕ, zero, suc, ◌+◌, ◌-◌, ◌^◌, Bool, true, false, ◌||◌, ◌&&◌, not, Option, none, some, List, [],
  ◌∷◌, ◌++◌, length, overwrite, get_or, ltb, leb, ◌==◌, if◌then◌else◌,
}
use nicof.Prelude.Int.{ℤ, is_zero}

abbrev pub stream_buffer_len : ℕ
stream_buffer_len = 2048

-- The states of the remote stream, as the `uint` that holds them.
abbrev pub state_ok : ℕ
state_ok = 0

abbrev pub state_closed : ℕ
state_closed = 2 ^ 32 - 1

abbrev pub state_source_ended : ℕ
state_source_ended = 2 ^ 32 - 2

abbrev pub nerr_noerror : ℕ
nerr_noerror = 0

abbrev pub nerr_commerror : ℕ
nerr_commerror = 1

abbrev pub nerr_not_source : ℕ
nerr_not_source = 20

abbrev pub nerr_not_sink : ℕ
nerr_not_sink = 21

abbrev pub nerr_eof : ℕ
nerr_eof = 1000

abbrev pub nerr_nottextstream : ℕ
nerr_nottextstream = 1011

abbrev pub nerr_notbinstream : ℕ
nerr_notbinstream = 1012

-- `struct _ncfb_bulkstream_private`
pub record Stream : Type 0 where
  pub stream_id : ℕ
  pub is_text : Bool
  pub is_source : Bool
  pub last_line_was_buffer_end : Bool
  pub stream_state : ℕ
  pub nerr : ℕ
  pub commrc : ℤ
  pub buf_len : ℕ
  pub buf_pos : ℕ
  pub buffer : List ℕ

-- The stream that ncfbid2s makes in the memory `block`; `last_line_was_buffer_end` stays as it was.
unfoldable pub open_stream : ℕ → Bool → Bool → Stream → Stream
open_stream id source text block = record block {
  stream_id = id;
  is_source = source;
  is_text = text;
  stream_state = state_ok;
  nerr = nerr_noerror;
  commrc = ℤ.pos 0;
  buf_len = if source then 0 else stream_buffer_len;
  buf_pos = 0;
}

-- How a call of `ncfbasesvc_invoke_sync` ends: without a response, where it writes none of the
-- caller's variables, or with the return code, control word and data of a response.
pub data Answer : Type 0 where
  failed : ℤ → Answer
  answered : ℤ → ℕ → List ℕ → Answer

abbrev pub note_rc : ℤ → Stream → Stream
note_rc rc s = record s { commrc = rc; nerr = if is_zero rc then s.nerr else nerr_commerror }

-- The call of BULKSRC_READ in `nread` and `ngetstr`, up to `bufPos = 0`.
pub fetch : Answer → Stream → Stream
fetch (failed rc) s = record (note_rc rc s) { buf_pos = 0 }
fetch (answered rc ctl bytes) s = record (note_rc rc s) {
  stream_state = ctl;
  buffer = overwrite bytes s.buffer;
  buf_len = length bytes;
  buf_pos = 0;
}

-- What the head of the read loops comes to: a byte is in the buffer, or the loop ends, or it waits.
pub data Supply : Type 0 where
  ready stopped : Stream → List Answer → Supply
  waiting : Supply

pub supply : List Answer → Stream → Supply
unfolding fetch
supply answers s =
    if ltb s.buf_pos s.buf_len
    then ready s answers
    else if s.stream_state == state_ok
    then elim answers [
      | [] ↦ waiting
      | a ∷ later ↦ let t = fetch a s in if t.buf_len == 0 then stopped t later else ready t later
    ]
    else stopped s answers

abbrev pub next_byte : Stream → ℕ
next_byte s = get_or s.buffer s.buf_pos 0

abbrev pub advance : Stream → Stream
advance s = record s { buf_pos = s.buf_pos + 1 }

abbrev pub Read : Type 0
Read = Option (Stream × List ℕ × List Answer)

abbrev pub cons_read : ℕ → Read → Read
cons_read b none = none
cons_read b (some (s, bytes, rest)) = some (s, b ∷ bytes, rest)

-- The loop of `nread`, which is to deliver `count` more bytes.
pub read_loop : ℕ → List Answer → Stream → Read
read_loop zero answers s = some (s, [], answers)
read_loop (suc count) answers s = elim (supply answers s) [
  | waiting ↦ none
  | stopped t later ↦ some (t, [], later)
  | ready t later ↦ cons_read (next_byte t) (read_loop count later (advance t))
]

-- The tests `nread` and `ngetstr` begin with.
abbrev pub at_end : Stream → Bool
at_end s = leb s.buf_len s.buf_pos && s.stream_state == state_source_ended

-- `str->nerr == NERR_EOF;` at the end of the data is a comparison, and changes nothing.
pub nread : ℕ → List Answer → Stream → Read
unfolding read_loop
nread buffer_len answers s =
    if not s.is_source
    then some (record s { nerr = nerr_not_source }, [], answers)
    else if s.nerr == nerr_eof || at_end s
    then some (s, [], answers)
    else if s.is_text
    then some (record s { nerr = nerr_notbinstream }, [], answers)
    else read_loop buffer_len answers (record s { nerr = nerr_noerror })

pub neof : Stream → Bool
neof s =
    s.is_source
    && leb s.buf_len s.buf_pos
    && (s.stream_state == state_source_ended || s.stream_state == state_closed)

pub nerror : Stream → ℤ
nerror s = if s.nerr == nerr_commerror then s.commrc else ℤ.pos s.nerr
