-- ===== src/Stream/Lines/Cut.antt =====
-- cms/ncfbases.c: ngetstr against a description of lines by their ends.
use nicof.Prelude.{
  ℕ, zero, suc, ◌-◌, ◌≤◌, ◌≡◌, ◌∙◌, refl, ap, subst, Bool, true, false, List, [], ◌∷◌, arith, ◌==◌,
  if◌then◌else◌, Bool-cases, inl, inr,
}
use nicof.Stream.{Stream, Answer}
use nicof.Stream.Source.{IsReadable, available}
use nicof.Stream.Lines.{char_cr, char_lf, skips, ignores, stores, ends, Turn, turn, ngetstr}
use nicof.Stream.Lines.Line.{Line, line, Gotten}
use nicof.Stream.Lines.Reading.{ngetstr-Gotten_turns}

-- What ends a line: CR in mode 2, and LF in the others. The other of the two characters counts
-- nowhere.
abbrev pub line_end : ℕ → ℕ
line_end mode = if mode == 2 then char_cr else char_lf

abbrev pub no_end : ℕ → ℕ
no_end mode = if mode == 2 then char_lf else char_cr

-- What a character is for a line: with `skip`, a line's end that comes first belongs to the line
-- before, and another one, which counts as a line feed, ends the line.
abbrev pub by_ends : (mode : ℕ) (keep skip : Bool) (c : ℕ) → Turn
by_ends mode keep skip c =
    if c == line_end mode
    then (if skip then skips else ends (if keep then char_lf ∷ [] else []))
    else if c == no_end mode
    then ignores
    else stores

-- The characters up to the line's end or until the room is full, and what follows.
unfoldable pub cut_line : (mode : ℕ) (keep skip : Bool) (room : ℕ) → List ℕ → Line
cut_line mode keep skip zero bytes = record { text = []; rest = bytes; cut = true }
cut_line mode keep skip (suc room) [] = record { text = []; rest = []; cut = false }
cut_line mode keep skip (suc room) (c ∷ bytes) = elim (by_ends mode keep skip c) [
  | skips ↦ cut_line mode keep false (suc room) bytes
  | ignores ↦ cut_line mode keep skip (suc room) bytes
  | ends kept ↦ record { text = kept; rest = bytes; cut = false }
  | stores ↦ let l = cut_line mode keep false room bytes in record l { text = c ∷ l.text }
]

turn-by_ends :
    (mode : ℕ) (keep skip : Bool) (c : ℕ) → turn mode keep skip c ≡ by_ends mode keep skip c
unfolding turn
turn-by_ends mode keep skip c = elim (Bool-cases (mode == 2)) [
  | inl two ↦ rw two (ground arith)
  | inr other ↦ rw other (ground arith)
]

abbrev line_at : (mode : ℕ) (keep skip : Bool) (room c : ℕ) → List ℕ → Turn → Line
line_at mode keep skip room c bytes skips = line mode keep false (suc room) bytes
line_at mode keep skip room c bytes ignores = line mode keep skip (suc room) bytes
line_at mode keep skip room c bytes (ends kept) = record { text = kept; rest = bytes; cut = false }
line_at mode keep skip room c bytes stores =
    let l = line mode keep false room bytes in record l { text = c ∷ l.text }

line-cut_line :
    (mode : ℕ) (keep skip : Bool) (room : ℕ) (bytes : List ℕ)
    → line mode keep skip room bytes ≡ cut_line mode keep skip room bytes
unfolding line cut_line
line-cut_line mode keep skip zero bytes = refl
line-cut_line mode keep skip (suc room) [] = refl
line-cut_line mode keep skip (suc room) (c ∷ bytes) =
    ap (line_at mode keep skip room c bytes) (turn-by_ends mode keep skip c)
    ∙ (elim (by_ends mode keep skip c)
        as (λ u. line_at mode keep skip room c bytes u ≡ elim u [
          | skips ↦ cut_line mode keep false (suc room) bytes
          | ignores ↦ cut_line mode keep skip (suc room) bytes
          | ends kept ↦ record { text = kept; rest = bytes; cut = false }
          | stores ↦ let l = cut_line mode keep false room bytes in record l { text = c ∷ l.text }
        ]) [
          | skips ↦ line-cut_line mode keep false (suc room) bytes
          | ignores ↦ line-cut_line mode keep skip (suc room) bytes
          | ends kept ↦ refl
          | stores ↦
              ap (λ (l : Line). record l { text = c ∷ l.text })
                (line-cut_line mode keep false room bytes)
        ])

-- On a readable text stream, over a service whose answers are a well-formed script, a call of
-- ngetstr with a buffer of at least 2 bytes returns with the characters of the source up to the
-- next line end, or as many as fit: CR ends a line in mode 2 and LF in the others, the other of the
-- two is left out, a line end that is kept is an LF, and one right behind a line that filled the
-- buffer belongs to that line. The call leaves a readable stream with what follows, notes whether a
-- line without its end filled the buffer, and returns NULL at the end of the bytes only.
pub ngetstr-Gotten :
    (mode buffer_len : ℕ) (keep : Bool) (answers : List Answer) (s : Stream)
    → IsReadable true answers s
    → 2 ≤ buffer_len
    → Gotten keep true
        (cut_line mode keep s.last_line_was_buffer_end (buffer_len - 1) (available answers s))
        (ngetstr mode buffer_len keep answers s)
ngetstr-Gotten mode n keep answers s v h =
    subst (λ l. Gotten keep true l (ngetstr mode n keep answers s))
      (line-cut_line mode keep s.last_line_was_buffer_end (n - 1) (available answers s))
      (ngetstr-Gotten_turns mode n keep answers s v h)
