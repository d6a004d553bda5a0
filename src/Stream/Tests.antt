-- ===== src/Stream/Tests.antt =====
-- cms/ncfbases.c: runs of the streams at concrete inputs.
use nicof.Prelude.{
  ℕ, ◌≡◌, refl, Bool, true, false, some, List, [], ◌∷◌, arith, replicate, take, inl, inr,
}
use nicof.Prelude.Int.{ℤ}
use nicof.Stream.{
  Stream, Answer, failed, answered, fetch, supply, nread, nerr_noerror, state_source_ended,
  state_ok,
}
use nicof.Stream.Source.{IsReadable, available, script_bytes}
use nicof.Stream.Reading.{read_all, sum, read_all-eq-take}
use nicof.Stream.Errors.{nread_failed}
use nicof.Stream.Lines.{turn, line_loop, ngetstr}
use nicof.Stream.Lines.Line.{Gotten}
use nicof.Stream.Lines.Cut.{cut_line, ngetstr-Gotten}
use nicof.Stream.Lines.Joining.{Fits, ngetstr-Fits, IsText, get_lines, get_lines-IsText}
use nicof.Stream.Write.{Sink, nwrite}
use nicof.Stream.Writing.{IsWritable, Wrote, nwrite-Writes}

abbrev stream : Bool → Bool → ℕ → ℕ → ℕ → Stream
stream source text state len at = record {
  stream_id = 3;
  is_text = text;
  is_source = source;
  last_line_was_buffer_end = false;
  stream_state = state;
  nerr = nerr_noerror;
  commrc = ℤ.pos 0;
  buf_len = len;
  buf_pos = at;
  buffer = replicate 2048 0;
}

-- Two blocks; with the second the source has ended.
abbrev blocks : List Answer
blocks =
    answered (ℤ.pos 0) state_ok (1 ∷ 2 ∷ []) ∷ answered (ℤ.pos 0) state_source_ended (3 ∷ []) ∷ []

source-IsReadable : IsReadable false blocks (stream true false state_ok 0 0)
source-IsReadable = record {
  source = refl;
  kind = refl;
  quiet = refl;
  within = omega arith;
  filled = omega arith;
  room = refl;
  script = inr (
    refl,
    (refl, omega arith, inr (refl, omega arith, (refl, omega arith, inl (λ e. omega arith)))),
  );
}

read_all-eq-take_example :
    read_all (1 ∷ 5 ∷ 1 ∷ []) blocks (stream true false state_ok 0 0)
    ≡ some (take (sum (1 ∷ 5 ∷ 1 ∷ [])) (available blocks (stream true false state_ok 0 0)))
read_all-eq-take_example =
    read_all-eq-take (1 ∷ 5 ∷ 1 ∷ []) blocks (stream true false state_ok 0 0) source-IsReadable

-- What these two blocks carry.
blocks-bytes : available blocks (stream true false state_ok 0 0) ≡ 1 ∷ 2 ∷ 3 ∷ []
unfolding script_bytes
blocks-bytes = refl

nread_failed_example :
    (t : Stream) × (nread 2 (failed (ℤ.pos 7) ∷ blocks) (stream true false state_ok 3 3)
      ≡ some (t, take 2 (take 3 (replicate 2048 0)), blocks))
    × (t.commrc ≡ ℤ.pos 7)
nread_failed_example =
    nread_failed 2 (ℤ.pos 7) blocks (stream true false state_ok 3 3) refl refl refl refl
      (omega arith) (omega arith) (omega arith) (omega arith)

abbrev taken : Answer
taken = answered (ℤ.pos 0) state_ok []

abbrev sink : Bool → Sink
sink text = record {
  stream = stream false text state_ok 2048 2046;
  answers = taken ∷ taken ∷ [];
  sent = [];
}

sink-IsWritable : (text : Bool) → IsWritable text (sink text)
sink-IsWritable text = record {
  ready = record {
    sink = refl;
    kind = refl;
    quiet = refl;
    state = refl;
    size = refl;
    room = refl;
    taken = ((refl, refl), ((refl, refl), tt));
  };
  space = omega arith;
}

-- The third byte goes into the second packet.
nwrite-Writes_example :
    (l : Sink) × (nwrite (7 ∷ 8 ∷ 9 ∷ []) (sink false) ≡ some (l, 3))
    × Wrote false (7 ∷ 8 ∷ 9 ∷ []) (sink false) l
nwrite-Writes_example =
    nwrite-Writes (7 ∷ 8 ∷ 9 ∷ []) (sink false) (sink-IsWritable false) (omega arith)

-- The text "ab", CR, LF, "c" in two blocks.
abbrev two_lines : List Answer
two_lines =
    answered (ℤ.pos 0) state_ok (0x81 ∷ 0x82 ∷ 0x0d ∷ [])
    ∷ answered (ℤ.pos 0) state_source_ended (0x25 ∷ 0x83 ∷ [])
    ∷ []

text_source-IsReadable : IsReadable true two_lines (stream true true state_ok 0 0)
text_source-IsReadable = record {
  source = refl;
  kind = refl;
  quiet = refl;
  within = omega arith;
  filled = omega arith;
  room = refl;
  script = inr (
    refl,
    (refl, omega arith, inr (refl, omega arith, (refl, omega arith, inl (λ e. omega arith)))),
  );
}

ngetstr-Gotten_example :
    Gotten false true
      (cut_line 3 false false 79 (available two_lines (stream true true state_ok 0 0)))
      (ngetstr 3 80 false two_lines (stream true true state_ok 0 0))
ngetstr-Gotten_example =
    ngetstr-Gotten 3 80 false two_lines (stream true true state_ok 0 0) text_source-IsReadable
      (omega arith)

ngetstr-Fits_example : Fits 2 (ngetstr 3 2 false two_lines (stream true true state_ok 0 0))
ngetstr-Fits_example =
    ngetstr-Fits 3 2 false two_lines (stream true true state_ok 0 0) text_source-IsReadable
      (omega arith)

get_lines-IsText_example :
    IsText 3 3
      (available two_lines (stream true true state_ok 0 0))
      (get_lines 3 (80 ∷ 80 ∷ 80 ∷ []) two_lines (stream true true state_ok 0 0))
get_lines-IsText_example =
    get_lines-IsText 3 (80 ∷ 80 ∷ 80 ∷ []) two_lines (stream true true state_ok 0 0)
      (omega arith, (omega arith, (omega arith, tt))) text_source-IsReadable refl

-- The strings themselves.
two_lines_read :
    get_lines 3 (80 ∷ 80 ∷ 80 ∷ []) two_lines (stream true true state_ok 0 0)
    ≡ some ((0x81 ∷ 0x82 ∷ 0x25 ∷ []) ∷ (0x83 ∷ []) ∷ [])
unfolding get_lines ngetstr line_loop turn supply fetch
two_lines_read = refl
