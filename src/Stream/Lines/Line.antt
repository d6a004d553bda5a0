-- ===== src/Stream/Lines/Line.antt =====
-- cms/ncfbases.c: the line that ngetstr is to cut out of a sequence of bytes.
use nicof.Prelude.{
  ℕ, zero, suc, ◌<◌, ◌≡◌, refl, ap, Bool, true, false, not, ◌&&◌, Option, none, some, List, [], ◌∷◌,
  arith, ltb, ◌==◌, if◌then◌else◌, Bool-cases, inl, inr, ◌≢◌,
}
use nicof.Stream.{
  Stream, Answer, failed, answered, fetch, Supply, ready, stopped, waiting, supply, state_ok,
}
use nicof.Stream.Source.{IsReadable, available}
use nicof.Stream.Lines.{skips, ignores, stores, ends, turn, Got, cons_got}

-- A line cut out of the bytes, what follows it, and whether the room was used up.
pub record Line : Type 0 where
  pub text : List ℕ
  pub rest : List ℕ
  pub cut : Bool

unfoldable pub line : (mode : ℕ) (keep skip : Bool) (room : ℕ) → List ℕ → Line
line mode keep skip zero bytes = record { text = []; rest = bytes; cut = true }
line mode keep skip (suc room) [] = record { text = []; rest = []; cut = false }
line mode keep skip (suc room) (c ∷ bytes) = elim (turn mode keep skip c) [
  | skips ↦ line mode keep false (suc room) bytes
  | ignores ↦ line mode keep skip (suc room) bytes
  | ends kept ↦ record { text = kept; rest = bytes; cut = false }
  | stores ↦ let l = line mode keep false room bytes in record l { text = c ∷ l.text }
]

abbrev pub text_of : Option (List ℕ) → List ℕ
text_of none = []
text_of (some text) = text

-- The call returns that line, leaves what follows it, and returns NULL only at the end and where
-- nothing stands in the buffer before.
pub record Gets (keep first : Bool) (l : Line) (t : Stream) (out : Option (List ℕ))
    (later : List Answer) : Type 0 where
  pub text : text_of out ≡ l.text
  pub readable : IsReadable true later t
  pub rest : available later t ≡ l.rest
  pub flag : out ≢ none → t.last_line_was_buffer_end ≡ (l.cut && not keep)
  pub null : out ≡ none → (first ≡ true) × (l.rest ≡ [])

abbrev pub Gotten : Bool → Bool → Line → Got → Type 0
Gotten keep first l none = ⊥
Gotten keep first l (some (t, out, later)) = Gets keep first l t out later

pub not_null : {text : List ℕ} → some text ≢ none
not_null e = cc

pub cons-Gotten :
    (keep first : Bool) (c : ℕ) (l : Line) (o : Got)
    → Gotten keep false l o
    → Gotten keep first (record l { text = c ∷ l.text }) (cons_got c o)
cons-Gotten keep first c l none g = absurd g
cons-Gotten keep first c l (some (t, none, later)) g = let e = (g.null refl).0 in absurd cc
cons-Gotten keep first c l (some (t, some text, later)) g = record {
  text = ap (◌∷◌ c) g.text;
  readable = g.readable;
  rest = g.rest;
  flag = λ n. g.flag (λ z. not_null z);
  null = λ e. absurd (not_null e);
}

-- A string that ends the loop.
pub settled :
    (keep first cut : Bool) (text rest : List ℕ) (t : Stream) (later : List Answer)
    → IsReadable true later t
    → available later t ≡ rest
    → t.last_line_was_buffer_end ≡ (cut && not keep)
    → Gotten keep first
        (record { text = text; rest = rest; cut = cut })
        (some (t, some text, later))
settled keep first cut text rest t later v e f = record {
  text = refl;
  readable = v;
  rest = e;
  flag = λ n. f;
  null = λ z. absurd (not_null z);
}

-- The mark of the last line stays as it is.
abbrev pub IsMarked : Supply → Bool → Type 0
IsMarked (ready t later) b = t.last_line_was_buffer_end ≡ b
IsMarked (stopped t later) b = t.last_line_was_buffer_end ≡ b
IsMarked waiting b = Unit {0}

fetch_mark :
    (a : Answer) (s : Stream) → (fetch a s).last_line_was_buffer_end ≡ s.last_line_was_buffer_end
unfolding fetch
fetch_mark (failed rc) s = refl
fetch_mark (answered rc ctl bytes) s = refl

pub supply-IsMarked :
    (answers : List Answer) (s : Stream) → IsMarked (supply answers s) s.last_line_was_buffer_end
unfolding supply
supply-IsMarked answers s = elim (Bool-cases (ltb s.buf_pos s.buf_len)) [
  | inl t ↦ rw t refl
  | inr t ↦ elim (Bool-cases (s.stream_state == state_ok)) [
    | inr k ↦ rw (t, k) refl
    | inl k ↦ rw (t, k) (mark_of answers s)
  ]
]
  where
    mark_of :
        (answers : List Answer) (s : Stream)
        → IsMarked
            (elim answers [
              | [] ↦ waiting
              | a ∷ later ↦
                  let t = fetch a s in if t.buf_len == 0 then stopped t later else ready t later
            ])
            s.last_line_was_buffer_end
    mark_of [] s = tt
    mark_of (a ∷ later) s = elim (Bool-cases ((fetch a s).buf_len == 0)) [
      | inl z ↦ rw z (fetch_mark a s)
      | inr z ↦ rw z (fetch_mark a s)
    ]

pub unmarked :
    (answers : List Answer) (s : Stream) (b : Bool)
    → IsReadable true answers s
    → IsReadable true answers (record s { last_line_was_buffer_end = b })
unmarked answers s b v = record {
  source = v.source;
  kind = v.kind;
  quiet = v.quiet;
  within = v.within;
  filled = v.filled;
  room = v.room;
  script = v.script;
}

pub line_nil :
    (mode : ℕ) (keep skip : Bool) (room : ℕ)
    → 0 < room
    → line mode keep skip room [] ≡ record { text = []; rest = []; cut = false }
unfolding line
line_nil mode keep skip zero h = absurd (omega arith)
line_nil mode keep skip (suc room) h = refl
