-- ===== src/Stream/Lines/Reading.antt =====
-- cms/ncfbases.c: ngetstr against a line taken from the sequence of bytes that the source holds.
use nicof.Prelude.{
  ℕ, zero, suc, ◌-◌, ◌≤◌, ◌<◌, ◌≡◌, ◌∙◌, refl, ap, subst, Bool, true, false, not, ◌&&◌, none, some,
  List, [], ◌∷◌, length, arith, leb, ◌==◌, if◌then◌else◌, Bool-cases, inl, inr,
}
use nicof.Stream.{
  Stream, Answer, Supply, ready, stopped, waiting, supply, next_byte, advance, at_end, state_ok,
  nerr_noerror,
}
use nicof.Stream.Source.{
  IsReadable, available, Supplied, supply-Supplied, ready-available, exhausted,
}
use nicof.Stream.Lines.{skips, ignores, stores, ends, turn, cons_got, line_loop, enough, ngetstr}
use nicof.Stream.Lines.Line.{
  line, line_nil, Gotten, cons-Gotten, settled, IsMarked, supply-IsMarked, unmarked,
}
use nicof.Stream.Lines.Fuel.{length-available}

-- With enough fuel the loop gets the line.
abbrev Lines : ℕ → Type 0
Lines fuel =
    (mode : ℕ) (keep first skip : Bool) (room : ℕ) (answers : List Answer) (s : Stream)
    → IsReadable true answers s
    → s.last_line_was_buffer_end ≡ false
    → length (available answers s) < fuel
    → Gotten keep first (line mode keep skip room (available answers s))
        (line_loop fuel mode keep first skip room answers s)

turn-Gotten :
    (fuel mode : ℕ) (keep first skip : Bool) (room : ℕ) (t : Stream) (later : List Answer)
    → Lines fuel
    → IsReadable true later t
    → t.last_line_was_buffer_end ≡ false
    → t.buf_pos < t.buf_len
    → length (available later t) < suc fuel
    → Gotten keep first
        (line mode keep skip (suc room) (available later t))
        (elim (turn mode keep skip (next_byte t)) [
          | skips ↦ line_loop fuel mode keep first false (suc room) later (advance t)
          | ignores ↦ line_loop fuel mode keep first skip (suc room) later (advance t)
          | ends kept ↦ some (advance t, some kept, later)
          | stores ↦
              cons_got (next_byte t) (line_loop fuel mode keep false false room later (advance t))
        ])
unfolding line
turn-Gotten fuel mode keep first skip room t later more v m lt fits =
    let next = ready-available true later t v lt in
    let less : length (available later (advance t)) < fuel = omega (arith, ap length next.0) in
    let bytes = available later (advance t) in
    rw next.0
      (elim (turn mode keep skip (next_byte t))
        as (λ u.
          Gotten keep first
            (elim u [
              | skips ↦ line mode keep false (suc room) bytes
              | ignores ↦ line mode keep skip (suc room) bytes
              | ends kept ↦ record { text = kept; rest = bytes; cut = false }
              | stores ↦
                  let l = line mode keep false room bytes in
                  record l { text = next_byte t ∷ l.text }
            ])
            (elim u [
              | skips ↦ line_loop fuel mode keep first false (suc room) later (advance t)
              | ignores ↦ line_loop fuel mode keep first skip (suc room) later (advance t)
              | ends kept ↦ some (advance t, some kept, later)
              | stores ↦
                  cons_got (next_byte t)
                    (line_loop fuel mode keep false false room later (advance t))
            ])) [
              | skips ↦ more mode keep first false (suc room) later (advance t) next.1 m less
              | ignores ↦ more mode keep first skip (suc room) later (advance t) next.1 m less
              | ends kept ↦
                  settled keep first false kept (available later (advance t)) (advance t) later
                    next.1 refl m
              | stores ↦
                  cons-Gotten keep first (next_byte t)
                    (line mode keep false room (available later (advance t))) _
                    (more mode keep false false room later (advance t) next.1 m less)
            ])

supply-Gotten :
    (fuel mode : ℕ) (keep first skip : Bool) (room : ℕ) (bytes : List ℕ) (o : Supply)
    → Lines fuel
    → Supplied true bytes o
    → IsMarked o false
    → length bytes < suc fuel
    → Gotten keep first (line mode keep skip (suc room) bytes) (elim o [
      | waiting ↦ none
      | stopped t later ↦
          some (t, if first && not (t.stream_state == state_ok) then none else some [], later)
      | ready t later ↦ elim (turn mode keep skip (next_byte t)) [
        | skips ↦ line_loop fuel mode keep first false (suc room) later (advance t)
        | ignores ↦ line_loop fuel mode keep first skip (suc room) later (advance t)
        | ends kept ↦ some (advance t, some kept, later)
        | stores ↦
            cons_got (next_byte t) (line_loop fuel mode keep false false room later (advance t))
      ]
    ])
unfolding line
supply-Gotten fuel mode keep first skip room bytes waiting more d m fits = absurd d
supply-Gotten fuel mode keep first skip room bytes (ready t later) more (lt, v, e) m fits =
    subst
      (λ bs.
        Gotten keep first (line mode keep skip (suc room) bs)
          (elim (turn mode keep skip (next_byte t)) [
            | skips ↦ line_loop fuel mode keep first false (suc room) later (advance t)
            | ignores ↦ line_loop fuel mode keep first skip (suc room) later (advance t)
            | ends kept ↦ some (advance t, some kept, later)
            | stores ↦
                cons_got (next_byte t) (line_loop fuel mode keep false false room later (advance t))
          ]))
      e
      (turn-Gotten fuel mode keep first skip room t later more v m lt (omega (arith, ap length e)))
supply-Gotten fuel mode keep first skip room bytes (stopped t later) more (v, e, z) m fits =
    rw z (ended first (first && not (t.stream_state == state_ok)) (λ h. ground arith))
  where
    ended :
        (first null : Bool)
        → (null ≡ true → first ≡ true)
        → Gotten keep first
            (record { text = []; rest = []; cut = false })
            (some (t, if null then none else some [], later))
    ended first true h = record {
      text = refl;
      readable = v;
      rest = e ∙ z;
      flag = λ n. m;
      null = λ n. (h refl, refl);
    }
    ended first false h = settled keep first false [] [] t later v (e ∙ z) m

line_loop-Gotten : (fuel : ℕ) → Lines fuel
unfolding line_loop line
line_loop-Gotten fuel mode keep first skip zero answers s v m fits =
    settled keep first true [] (available answers s) _ answers (unmarked answers s (not keep) v)
      refl refl
line_loop-Gotten zero mode keep first skip (suc room) answers s v m fits = absurd (omega arith)
line_loop-Gotten (suc fuel) mode keep first skip (suc room) answers s v m fits =
    elim (Bool-cases (leb s.buf_len s.buf_pos && not (s.stream_state == state_ok))) [
      | inl t ↦
          rw (t, line_loop, exhausted answers s (ground arith) (ground arith))
            (settled keep first false [] [] s answers v
              (exhausted answers s (ground arith) (ground arith)) m)
      | inr t ↦
          rw (t, line_loop)
            (supply-Gotten fuel mode keep first skip room (available answers s) (supply answers s)
              (line_loop-Gotten fuel) (supply-Supplied true answers s v)
              (subst (IsMarked (supply answers s)) m (supply-IsMarked answers s)) fits)
    ]

ngetstr_text :
    (mode buffer_len : ℕ) (keep : Bool) (answers : List Answer) (s : Stream)
    → IsReadable true answers s
    → 2 ≤ buffer_len
    → ngetstr mode buffer_len keep answers s ≡ (
        if at_end s
        then some (s, none, answers)
        else line_loop
            (enough answers s)
            mode
            keep
            true
            s.last_line_was_buffer_end
            (buffer_len - 1)
            answers
            (record s { last_line_was_buffer_end = false; nerr = nerr_noerror }))
unfolding ngetstr
ngetstr_text mode buffer_len keep answers s v h = ground (arith, v.source, v.kind, v.quiet)

-- A call of ngetstr with a buffer of at least 2 bytes gets the line that the turns cut out.
pub ngetstr-Gotten_turns :
    (mode buffer_len : ℕ) (keep : Bool) (answers : List Answer) (s : Stream)
    → IsReadable true answers s
    → 2 ≤ buffer_len
    → Gotten keep true
        (line mode keep s.last_line_was_buffer_end (buffer_len - 1) (available answers s))
        (ngetstr mode buffer_len keep answers s)
ngetstr-Gotten_turns mode n keep answers s v h =
    rw (ngetstr_text mode n keep answers s v h) (elim (Bool-cases (at_end s)) [
      | inl e ↦
          rw
            (
              e,
              exhausted answers s (ground arith) (ground arith),
              line_nil mode keep s.last_line_was_buffer_end (n - 1) (omega arith),
            )
            (record {
              text = refl;
              readable = v;
              rest = exhausted answers s (ground arith) (ground arith);
              flag = λ z. absurd (z refl);
              null = λ z. (refl, refl);
            })
      | inr e ↦ rw e (
          line_loop-Gotten (enough answers s) mode keep true s.last_line_was_buffer_end (n - 1)
            answers _
            (record {
              source = v.source;
              kind = v.kind;
              quiet = refl;
              within = v.within;
              filled = v.filled;
              room = v.room;
              script = v.script;
            })
            refl (length-available answers s v))
    ])
