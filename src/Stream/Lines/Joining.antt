-- ===== src/Stream/Lines/Joining.antt =====
-- cms/ncfbases.c: the lines of successive calls of ngetstr, against the text of the whole source.
use nicof.Prelude.{
  ℕ, zero, suc, ◌-◌, ◌≤◌, ◌<◌, ◌≡◌, ◌∙◌, refl, sym, ap, subst, Bool, true, false, not, ◌&&◌, Option,
  none, some, List, [], ◌∷◌, ◌++◌, All, length, append_assoc, arith, ◌==◌, if◌then◌else◌,
}
use mathlib.Core.Option
use nicof.Stream.{Stream, Answer}
use nicof.Stream.Source.{IsReadable, available}
use nicof.Stream.Lines.{Turn, skips, ignores, stores, ends, turn, Got, char_cr, char_lf, ngetstr}
use nicof.Stream.Lines.Line.{Line, line, text_of, Gotten, not_null}
use nicof.Stream.Lines.Reading.{ngetstr-Gotten_turns}

-- The text that the bytes stand for: one line feed for each line end, no other CR or LF.
unfoldable pub clean : ℕ → List ℕ → List ℕ
clean mode [] = []
clean mode (c ∷ bytes) =
    if c == (if mode == 2 then char_cr else char_lf)
    then char_lf ∷ clean mode bytes
    else if c == char_cr
    then clean mode bytes
    else if c == char_lf
    then clean mode bytes
    else c ∷ clean mode bytes

-- What a turn of the loop makes of a character.
turned : Turn → ℕ → List ℕ → List ℕ
turned skips c text = text
turned ignores c text = text
turned stores c text = c ∷ text
turned (ends kept) c text = kept ++ text

turn-clean :
    (mode c : ℕ) (bytes : List ℕ)
    → clean mode (c ∷ bytes) ≡ turned (turn mode true false c) c (clean mode bytes)
unfolding clean turn turned
turn-clean mode c bytes = ground arith

-- With the line ends kept nothing is lost where a line is cut out.
line-clean :
    (mode room : ℕ) (bytes : List ℕ)
    → clean mode bytes
      ≡ (line mode true false room bytes).text ++ clean mode (line mode true false room bytes).rest
unfolding line turned
line-clean mode zero bytes = refl
line-clean mode (suc room) [] = refl
line-clean mode (suc room) (c ∷ bytes) =
    rw (turn-clean mode c bytes)
      (elim (turn mode true false c)
        as (λ u.
          turned u c (clean mode bytes)
          ≡ (elim u as (λ x. Line) [
            | skips ↦ line mode true false (suc room) bytes
            | ignores ↦ line mode true false (suc room) bytes
            | ends kept ↦ record { text = kept; rest = bytes; cut = false }
            | stores ↦ let l = line mode true false room bytes in record l { text = c ∷ l.text }
          ]).text
            ++ clean mode
                (elim u as (λ x. Line) [
                  | skips ↦ line mode true false (suc room) bytes
                  | ignores ↦ line mode true false (suc room) bytes
                  | ends kept ↦ record { text = kept; rest = bytes; cut = false }
                  | stores ↦
                      let l = line mode true false room bytes in record l { text = c ∷ l.text }
                ]).rest) [
                  | skips ↦ line-clean mode (suc room) bytes
                  | ignores ↦ line-clean mode (suc room) bytes
                  | ends kept ↦ refl
                  | stores ↦ ap (◌∷◌ c) (line-clean mode room bytes)
                ])

-- A line end takes one character at most.
abbrev IsShort : Turn → Type 0
IsShort (ends kept) = length kept ≤ 1
IsShort _ = Unit {0}

if-IsShort : (b : Bool) (u v : Turn) → IsShort u → IsShort v → IsShort (if b then u else v)
if-IsShort true u v h k = h
if-IsShort false u v h k = k

kept-IsShort : (keep : Bool) (c : ℕ) → IsShort (ends (if keep then c ∷ [] else []))
kept-IsShort true c = omega arith
kept-IsShort false c = omega arith

turn-IsShort : (mode : ℕ) (keep skip : Bool) (c : ℕ) → IsShort (turn mode keep skip c)
unfolding turn
turn-IsShort mode keep skip c = if-IsShort (c == char_lf && not (mode == 2) && skip) _ _ tt (
    if-IsShort (c == char_cr && mode == 2 && skip) _ _ tt (
      if-IsShort (c == char_lf && mode == 2) _ _ tt (
        if-IsShort (c == char_lf) _ _ (kept-IsShort keep c) (
          if-IsShort (c == char_cr && mode == 2) _ _ (kept-IsShort keep char_lf)
            (if-IsShort (c == char_cr) ignores stores tt tt)))))

line-room :
    (mode : ℕ) (keep skip : Bool) (room : ℕ) (bytes : List ℕ)
    → length (line mode keep skip room bytes).text ≤ room
unfolding line
line-room mode keep skip zero bytes = omega arith
line-room mode keep skip (suc room) [] = omega arith
line-room mode keep skip (suc room) (c ∷ bytes) =
    go (turn mode keep skip c) (turn-IsShort mode keep skip c)
      (line-room mode keep false (suc room) bytes) (line-room mode keep skip (suc room) bytes)
      (line-room mode keep false room bytes)
  where
    go :
        (u : Turn)
        → IsShort u
        → length (line mode keep false (suc room) bytes).text ≤ suc room
        → length (line mode keep skip (suc room) bytes).text ≤ suc room
        → length (line mode keep false room bytes).text ≤ room
        → length
            (elim u as (λ x. Line) [
              | skips ↦ line mode keep false (suc room) bytes
              | ignores ↦ line mode keep skip (suc room) bytes
              | ends kept ↦ record { text = kept; rest = bytes; cut = false }
              | stores ↦ let l = line mode keep false room bytes in record l { text = c ∷ l.text }
            ]).text
          ≤ suc room
    go skips s h1 h2 h3 = h1
    go ignores s h1 h2 h3 = h2
    go (ends kept) s h1 h2 h3 = omega arith
    go stores s h1 h2 h3 = omega arith

-- The string and its null character fit the buffer.
abbrev pub Fits : ℕ → Got → Type 0
Fits buffer_len none = ⊥
Fits buffer_len (some (t, out, later)) = length (text_of out) < buffer_len

-- On a readable text stream, over a service whose answers are a well-formed script, the string that
-- ngetstr leaves, with its null character, fits a buffer of at least 2 bytes.
pub ngetstr-Fits :
    (mode buffer_len : ℕ) (keep : Bool) (answers : List Answer) (s : Stream)
    → IsReadable true answers s
    → 2 ≤ buffer_len
    → Fits buffer_len (ngetstr mode buffer_len keep answers s)
ngetstr-Fits mode n keep answers s v h =
    go (ngetstr mode n keep answers s) (ngetstr-Gotten_turns mode n keep answers s v h)
  where
    l : Line
    l = line mode keep s.last_line_was_buffer_end (n - 1) (available answers s)

    go : (o : Got) → Gotten keep true l o → Fits n o
    go none g = absurd g
    go (some (t, out, later)) g = omega (
      arith,
      ap length g.text,
      line-room mode keep s.last_line_was_buffer_end (n - 1) (available answers s),
    )

-- Successive calls of `ngetstr` that keep the line ends, until one gives NULL.
unfoldable pub get_lines : ℕ → List ℕ → List Answer → Stream → Option (List (List ℕ))
get_lines mode [] answers s = some []
get_lines mode (n ∷ sizes) answers s = elim (ngetstr mode n true answers s) [
  | none ↦ none
  | some (t, none, later) ↦ some []
  | some (t, some text, later) ↦ Option.map (◌∷◌ text) (get_lines mode sizes later t)
]

abbrev pub concat : List (List ℕ) → List ℕ
concat [] = []
concat (text ∷ texts) = text ++ concat texts

-- The strings are the text up to some place, and all of it where there are fewer than calls.
abbrev pub IsText : ℕ → ℕ → List ℕ → Option (List (List ℕ)) → Type 0
IsText mode calls bytes none = ⊥
IsText mode calls bytes (some texts) =
    (rest : List ℕ) × (clean mode bytes ≡ concat texts ++ clean mode rest)
    × (length texts < calls → rest ≡ [])

no_mark : (b : Bool) → (b && not true) ≡ false
no_mark true = refl
no_mark false = refl

added :
    (mode calls : ℕ) (bytes left text : List ℕ)
    → clean mode bytes ≡ text ++ clean mode left
    → (o : Option (List (List ℕ))) → IsText mode calls left o
    → IsText mode (suc calls) bytes (Option.map (◌∷◌ text) o)
added mode calls bytes left text e none d = absurd d
added mode calls bytes left text e (some texts) (rest, f, all) = (
  rest,
  e ∙ ap (◌++◌ text) f ∙ sym (append_assoc text (concat texts) (clean mode rest)),
  λ h. all (omega arith),
)

-- On a readable text stream whose last line was not cut off, over a service whose answers are a
-- well-formed script, successive calls of ngetstr that keep the line ends, with buffers of any
-- sizes from 2 on, return: their strings joined are the text of the source up to some place, with
-- one line feed for each line end and no other CR or LF, whatever blocks it comes in; and where
-- they are fewer than the calls, up to its end.
pub get_lines-IsText :
    (mode : ℕ) (sizes : List ℕ) (answers : List Answer) (s : Stream)
    → All (λ n. 2 ≤ n) sizes
    → IsReadable true answers s
    → s.last_line_was_buffer_end ≡ false
    → IsText mode (length sizes) (available answers s) (get_lines mode sizes answers s)
unfolding get_lines
get_lines-IsText mode [] answers s a v f = (available answers s, refl, λ h. absurd (omega arith))
get_lines-IsText mode (n ∷ sizes) answers s (h, a) v f =
    joined (ngetstr mode n true answers s)
      (subst
        (λ skip.
          Gotten true true (line mode true skip (n - 1) (available answers s))
            (ngetstr mode n true answers s))
        f (ngetstr-Gotten_turns mode n true answers s v h))
      (λ t later w e. get_lines-IsText mode sizes later t a w e)
  where
    l : Line
    l = line mode true false (n - 1) (available answers s)

    joined :
        (o : Got)
        → Gotten true true l o
        → ((t : Stream) (later : List Answer)
            → IsReadable true later t
            → t.last_line_was_buffer_end ≡ false
            → IsText mode (length sizes) (available later t) (get_lines mode sizes later t))
        → IsText mode (suc (length sizes)) (available answers s) (elim o [
          | none ↦ none
          | some (t, none, later) ↦ some []
          | some (t, some text, later) ↦ Option.map (◌∷◌ text) (get_lines mode sizes later t)
        ])
    joined none g more = absurd g
    joined (some (t, none, later)) g more = (
      [],
      line-clean mode (n - 1) (available answers s) ∙ rw (sym g.text, (g.null refl).1) refl,
      λ z. refl,
    )
    joined (some (t, some text, later)) g more =
        added mode (length sizes) (available answers s) (available later t) text
          (line-clean mode (n - 1) (available answers s) ∙ rw (sym g.text, sym g.rest) refl)
          (get_lines mode sizes later t) (more t later g.readable (g.flag not_null ∙ no_mark l.cut))
