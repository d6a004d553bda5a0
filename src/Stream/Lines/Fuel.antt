-- ===== src/Stream/Lines/Fuel.antt =====
-- cms/ncfbases.c: the rounds of ngetstr's loop suffice for the bytes there are.
use nicof.Prelude.{
  ℕ, ◌≤◌, ◌<◌, ◌≡◌, true, false, List, [], ◌∷◌, length, take, length-append, length-take,
  length-drop, arith, ◌==◌, inl, inr,
}
use nicof.Stream.{Stream, Answer, failed, answered, state_ok}
use nicof.Stream.Source.{IsScript, script_bytes, unread, IsReadable, available}
use nicof.Stream.Lines.{turns, enough}

length-script_bytes :
    (answers : List Answer) (len : ℕ)
    → IsScript answers
    → length (script_bytes answers) ≤ turns len answers
unfolding script_bytes
length-script_bytes [] len g = absurd g
length-script_bytes (failed rc ∷ later) len g = absurd g
length-script_bytes (answered rc ctl bytes ∷ later) len (z, fits, inl n) =
    let closed : (ctl == state_ok) ≡ false = ground arith in
    rw closed (omega (arith, length-append bytes []))
length-script_bytes (answered rc ctl bytes ∷ later) len (z, fits, inr (y, lt, more)) =
    let open_state : (ctl == state_ok) ≡ true = ground arith in
    rw open_state (
      omega (
        arith,
        length-append bytes (script_bytes later),
        length-script_bytes later (length bytes) more,
      ))

pub length-available :
    (answers : List Answer) (s : Stream)
    → IsReadable true answers s
    → length (available answers s) < enough answers s
length-available answers s v = elim v.script [
  | inl n ↦
      let closed : (s.stream_state == state_ok) ≡ false = ground arith in
      rw closed (
        omega (
          arith,
          length-append (unread s) [],
          length-drop s.buf_pos (take s.buf_len s.buffer),
          length-take s.buf_len s.buffer,
        ))
  | inr (k, g) ↦
      let open_state : (s.stream_state == state_ok) ≡ true = ground arith in
      rw open_state (
        omega (
          arith,
          length-append (unread s) (script_bytes answers),
          length-drop s.buf_pos (take s.buf_len s.buffer),
          length-take s.buf_len s.buffer,
          length-script_bytes answers s.buf_len g,
        ))
]
