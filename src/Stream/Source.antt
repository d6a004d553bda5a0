-- ===== src/Stream/Source.antt =====
-- cms/ncfbases.c: what the remote source of a stream still holds, and how `nread` and `ngetstr`
-- come to the next byte.
use native.Mathlib.Numerals.{add-one}
use nicof.Prelude.{
  ℕ, ◌≤◌, ◌<◌, ◌≡◌, ◌∙◌, refl, sym, ap, subst, ◌≢◌, ◌⊎◌, inl, inr, Bool, true, false, List, [], ◌∷◌,
  ◌++◌, length, take, drop, ltb, ◌==◌, if◌then◌else◌, Bool-cases, arith, drop-eq-cons, drop_all,
  take-append, length-overwrite, length-take,
}
use nicof.Prelude.Int.{ℤ}
use nicof.Stream.{
  Stream, Answer, failed, answered, fetch, Supply, ready, stopped, waiting, supply, next_byte,
  advance, state_ok, stream_buffer_len, nerr_noerror,
}

-- The answers of a source that works: blocks that are not empty and fit the buffer, the last one
-- with a state other than OK.
abbrev pub IsScript : List Answer → Type 0
IsScript [] = ⊥
IsScript (failed rc ∷ later) = ⊥
IsScript (answered rc ctl bytes ∷ later) =
    (rc ≡ ℤ.pos 0)
    × (length bytes ≤ stream_buffer_len)
    × ((ctl ≢ state_ok) ⊎ (ctl ≡ state_ok) × (0 < length bytes) × IsScript later)

-- The bytes that they carry.
unfoldable pub script_bytes : List Answer → List ℕ
script_bytes [] = []
script_bytes (failed rc ∷ later) = []
script_bytes (answered rc ctl bytes ∷ later) =
    bytes ++ (if ctl == state_ok then script_bytes later else [])

abbrev pub unread : Stream → List ℕ
unread s = drop s.buf_pos (take s.buf_len s.buffer)

-- All that is still to be read.
abbrev pub available : List Answer → Stream → List ℕ
available answers s = unread s ++ (if s.stream_state == state_ok then script_bytes answers else [])

pub record IsReadable (text : Bool) (answers : List Answer) (s : Stream) : Type 0 where
  pub source : s.is_source ≡ true
  pub kind : s.is_text ≡ text
  pub quiet : s.nerr ≡ nerr_noerror
  pub within : s.buf_pos ≤ s.buf_len
  pub filled : s.buf_len ≤ length s.buffer
  pub room : length s.buffer ≡ stream_buffer_len
  pub script : (s.stream_state ≢ state_ok) ⊎ ((s.stream_state ≡ state_ok) × IsScript answers)

-- What a fetch relies on.
pub record IsOpen (text : Bool) (s : Stream) : Type 0 where
  pub source : s.is_source ≡ true
  pub kind : s.is_text ≡ text
  pub quiet : s.nerr ≡ nerr_noerror
  pub room : length s.buffer ≡ stream_buffer_len

-- The next byte is at hand.
pub ready-available :
    (text : Bool) (answers : List Answer) (s : Stream)
    → IsReadable text answers s
    → s.buf_pos < s.buf_len
    → (available answers s ≡ next_byte s ∷ available answers (advance s))
      × IsReadable text answers (advance s)
ready-available text answers s v h = (
  rw (drop-eq-cons s.buf_len s.buf_pos s.buffer 0 h v.filled, add-one) refl,
  record {
    source = v.source;
    kind = v.kind;
    quiet = v.quiet;
    within = omega arith;
    filled = v.filled;
    room = v.room;
    script = v.script;
  },
)

supply_buffered :
    (answers : List Answer) (s : Stream)
    → ltb s.buf_pos s.buf_len ≡ true
    → supply answers s ≡ ready s answers
unfolding supply
supply_buffered answers s t = simp t

supply_ended :
    (answers : List Answer) (s : Stream)
    → ltb s.buf_pos s.buf_len ≡ false
    → (s.stream_state == state_ok) ≡ false
    → supply answers s ≡ stopped s answers
unfolding supply
supply_ended answers s t k = simp (t, k)

-- The outcome of `supply`: a byte of what is available, or there is none.
abbrev pub Supplied : Bool → List ℕ → Supply → Type 0
Supplied text bytes (ready t later) =
    (t.buf_pos < t.buf_len) × IsReadable text later t × (available later t ≡ bytes)
Supplied text bytes (stopped t later) =
    IsReadable text later t × (available later t ≡ bytes) × (bytes ≡ [])
Supplied text bytes waiting = ⊥

unread_empty : (s : Stream) → s.buf_len ≤ s.buf_pos → unread s ≡ []
unread_empty s h =
    drop_all s.buf_pos (take s.buf_len s.buffer) (omega (arith, length-take s.buf_len s.buffer))

-- A block that comes in is what is available next.
fetch-available :
    (text : Bool) (a : Answer) (later : List Answer) (s : Stream)
    → IsScript (a ∷ later)
    → IsOpen text s
    → IsReadable text later (fetch a s) × (available later (fetch a s) ≡ script_bytes (a ∷ later))
unfolding fetch script_bytes
fetch-available text (failed rc) later s g r = absurd g
fetch-available text (answered rc ctl bytes) later s (z, fits, go) r = (
  record {
    source = r.source;
    kind = r.kind;
    quiet = ground (arith, z, r.quiet);
    within = omega arith;
    filled = omega (arith, length-overwrite bytes s.buffer (omega (arith, r.room)));
    room = length-overwrite bytes s.buffer (omega (arith, r.room)) ∙ r.room;
    script = elim go [ inl n ↦ inl n | inr (y, _, more) ↦ inr (y, more) ];
  },
  ap (λ bs. bs ++ (if ctl == state_ok then script_bytes later else []))
      (take-append bytes (drop (length bytes) s.buffer)),
)

no_block :
    (a : Answer) (later : List Answer) (s : Stream)
    → IsScript (a ∷ later)
    → (fetch a s).buf_len ≡ 0
    → script_bytes (a ∷ later) ≡ []
unfolding fetch script_bytes
no_block (failed rc) later s g e = absurd g
no_block (answered rc ctl (b ∷ bytes)) later s g e = absurd (omega arith)
no_block (answered rc ctl []) later s (z, fits, inl n) e = ground arith
no_block (answered rc ctl []) later s (z, fits, inr (y, lt, more)) e = absurd (omega arith)

fetch-Supplied :
    (text : Bool) (answers : List Answer) (s : Stream)
    → IsScript answers
    → IsOpen text s
    → s.buf_len ≤ s.buf_pos
    → s.stream_state ≡ state_ok
    → Supplied text (script_bytes answers) (supply answers s)
unfolding supply
fetch-Supplied text [] s g r e k = absurd g
fetch-Supplied text (a ∷ later) s g r e k =
    let empty : ltb s.buf_pos s.buf_len ≡ false = ground arith in
    let open_state : (s.stream_state == state_ok) ≡ true = ground arith in
    let got = fetch-available text a later s g r in
    rw (empty, open_state)
      (elim (Bool-cases ((fetch a s).buf_len == 0)) [
        | inl z ↦ rw z (got.0, got.1, no_block a later s g (ground arith))
        | inr z ↦ rw z (ground arith, got.0, got.1)
      ])

pub exhausted :
    (answers : List Answer) (s : Stream)
    → s.buf_len ≤ s.buf_pos
    → s.stream_state ≢ state_ok
    → available answers s ≡ []
exhausted answers s h n =
    let closed : (s.stream_state == state_ok) ≡ false = ground arith in
    rw (unread_empty s h, closed) refl

refilled :
    (answers : List Answer) (s : Stream)
    → s.buf_len ≤ s.buf_pos
    → s.stream_state ≡ state_ok
    → available answers s ≡ script_bytes answers
refilled answers s h k =
    let open_state : (s.stream_state == state_ok) ≡ true = ground arith in
    rw (unread_empty s h, open_state) refl

pub supply-Supplied :
    (text : Bool) (answers : List Answer) (s : Stream)
    → IsReadable text answers s
    → Supplied text (available answers s) (supply answers s)
supply-Supplied text answers s v = elim (Bool-cases (ltb s.buf_pos s.buf_len)) [
  | inl t ↦ rw (supply_buffered answers s t) (ground arith, v, refl)
  | inr t ↦ elim v.script [
    | inl n ↦
        rw (supply_ended answers s t (ground arith)) (v, refl, exhausted answers s (ground arith) n)
    | inr (k, g) ↦
        subst (λ bs. Supplied text bs (supply answers s))
          (sym (refilled answers s (ground arith) k))
          (fetch-Supplied text answers s g
            (record { source = v.source; kind = v.kind; quiet = v.quiet; room = v.room })
            (ground arith) k)
  ]
]
