-- ===== src/Stream/Lines.antt =====
-- cms/ncfbases.c: ngetstr, which reads a line of text. `mode` stands for the static variable
-- `lineEndMode`; a string is the list of its characters, without the null character, and no string
-- is NULL.
pub mod Line
pub mod Fuel
pub mod Reading
pub mod Cut
pub mod Joining
use nicof.Prelude.{
  ℕ, zero, suc, ◌+◌, ◌-◌, Bool, true, false, not, ◌&&◌, ◌||◌, Option, none, some, List, [], ◌∷◌,
  length, ltb, leb, ◌==◌, if◌then◌else◌,
}
use nicof.Stream.{
  Stream, Answer, failed, answered, Supply, ready, stopped, waiting, supply, next_byte, advance,
  at_end, state_ok, nerr_noerror, nerr_not_source, nerr_eof, nerr_nottextstream,
}

abbrev pub char_cr : ℕ
char_cr = 0x0d

abbrev pub char_lf : ℕ
char_lf = 0x25

-- What the loop does with a character: it ends the line, with what it leaves in the string.
pub data Turn : Type 0 where
  skips ignores stores : Turn
  ends : List ℕ → Turn

unfoldable pub turn : (mode : ℕ) (keep_nl skip_line_end : Bool) (c : ℕ) → Turn
turn mode keep skip c =
    if c == char_lf && not (mode == 2) && skip
    then skips
    else if c == char_cr && mode == 2 && skip
    then skips
    else if c == char_lf && mode == 2
    then ignores
    else if c == char_lf
    then ends (if keep then c ∷ [] else [])
    else if c == char_cr && mode == 2
    then ends (if keep then char_lf ∷ [] else [])
    else if c == char_cr
    then ignores
    else stores

-- The string is `none` for NULL; no result at all is a wait without end.
abbrev pub Got : Type 0
Got = Option (Stream × Option (List ℕ) × List Answer)

abbrev pub cons_got : ℕ → Got → Got
cons_got c none = none
cons_got c (some (s, none, rest)) = some (s, none, rest)
cons_got c (some (s, some text, rest)) = some (s, some (c ∷ text), rest)

-- The loop of `ngetstr`, where the buffer takes `room` characters more; `first` tells that it has
-- taken none.
unfoldable pub line_loop :
    (fuel mode : ℕ) (keep first skip : Bool) (room : ℕ) → List Answer → Stream → Got
line_loop fuel mode keep first skip zero answers s =
    some (record s { last_line_was_buffer_end = not keep }, some [], answers)
line_loop zero mode keep first skip (suc room) answers s = none
line_loop (suc fuel) mode keep first skip (suc room) answers s =
    elim (leb s.buf_len s.buf_pos && not (s.stream_state == state_ok)) [
      | true ↦ some (s, some [], answers)
      | false ↦ elim (supply answers s) [
        | waiting ↦ none
        | stopped t later ↦
            some (t, if first && not (t.stream_state == state_ok) then none else some [], later)
        | ready t later ↦ elim (turn mode keep skip (next_byte t)) [
          | skips ↦ line_loop fuel mode keep first false (suc room) later (advance t)
          | ignores ↦ line_loop fuel mode keep first skip (suc room) later (advance t)
          | ends kept ↦ some (advance t, some kept, later)
          | stores ↦
              cons_got (next_byte t) (line_loop fuel mode keep false false room later (advance t))
        ]
      ]
    ]

-- The bytes that the answers can put into a buffer that holds `len`.
abbrev pub turns : ℕ → List Answer → ℕ
turns len [] = 0
turns len (failed rc ∷ later) = len + turns len later
turns len (answered rc ctl bytes ∷ later) = length bytes + turns (length bytes) later

abbrev pub enough : List Answer → Stream → ℕ
enough answers s = suc (s.buf_len + turns s.buf_len answers)

unfoldable pub ngetstr : (mode buffer_len : ℕ) (keep_nl : Bool) → List Answer → Stream → Got
ngetstr mode buffer_len keep answers s =
    if not s.is_source
    then some (record s { nerr = nerr_not_source }, none, answers)
    else if s.nerr == nerr_eof || at_end s
    then some (s, none, answers)
    else if not s.is_text
    then some (record s { nerr = nerr_nottextstream }, none, answers)
    else let t = record s { last_line_was_buffer_end = false; nerr = nerr_noerror } in
      if ltb buffer_len 2
      then some (t, some [], answers)
      else line_loop (enough answers s) mode keep true s.last_line_was_buffer_end (buffer_len - 1)
          answers t
