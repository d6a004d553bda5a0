-- ===== src/Stream/Reading.antt =====
-- cms/ncfbases.c: `nread` against the sequence of bytes that the remote source holds.
use nicof.Prelude.{
  ℕ, zero, suc, ◌+◌, ◌≡◌, ◌∙◌, refl, sym, ap, inl, inr, Bool, false, Option, none, some, List, [],
  ◌∷◌, ◌++◌, take, drop, if◌then◌else◌, Bool-cases, arith, drop_all, take_all, take-add,
}
use mathlib.Core.Option
use nicof.Stream.{
  Stream, Answer, Supply, ready, stopped, waiting, supply, next_byte, advance, Read, cons_read,
  read_loop, nread, nerr_noerror, at_end,
}
use nicof.Stream.Source.{
  available, IsReadable, ready-available, Supplied, supply-Supplied, exhausted,
}

-- A read delivers the next bytes, and leaves the rest.
abbrev pub Delivers : Bool → List ℕ → List ℕ → Read → Type 0
Delivers text bytes rest none = ⊥
Delivers text bytes rest (some (t, out, later)) =
    (out ≡ bytes) × IsReadable text later t × (available later t ≡ rest)

cons-Delivers :
    (text : Bool) (b : ℕ) (bytes rest : List ℕ) (o : Read)
    → Delivers text bytes rest o
    → Delivers text (b ∷ bytes) rest (cons_read b o)
cons-Delivers text b bytes rest none d = absurd d
cons-Delivers text b bytes rest (some (t, out, later)) (e, v, r) = (ap (◌∷◌ b) e, v, r)

-- The rest of the loop delivers what follows.
abbrev Continues : Bool → ℕ → Type 0
Continues text n =
    (answers : List Answer) (s : Stream)
    → IsReadable text answers s
    → Delivers text (take n (available answers s)) (drop n (available answers s))
        (read_loop n answers s)

Supplied-Delivers :
    (text : Bool) (n : ℕ) (bytes : List ℕ) (o : Supply)
    → Supplied text bytes o
    → Continues text n
    → Delivers text (take (suc n) bytes) (drop (suc n) bytes) (elim o [
      | waiting ↦ none
      | stopped t later ↦ some (t, [], later)
      | ready t later ↦ cons_read (next_byte t) (read_loop n later (advance t))
    ])
Supplied-Delivers text n bytes (ready t later) (lt, v, e) more =
    let next = ready-available text later t v lt in
    rw (sym e ∙ next.0) (
      cons-Delivers text (next_byte t) _ _ (read_loop n later (advance t))
        (more later (advance t) next.1))
Supplied-Delivers text n bytes (stopped t later) (v, e, z) more = rw z (refl, v, e ∙ z)
Supplied-Delivers text n bytes waiting d more = absurd d

read_loop-Delivers : (text : Bool) (n : ℕ) → Continues text n
unfolding read_loop
read_loop-Delivers text zero answers s v = (refl, v, refl)
read_loop-Delivers text (suc n) answers s v =
    Supplied-Delivers text n (available answers s) (supply answers s)
      (supply-Supplied text answers s v) (read_loop-Delivers text n)

nread_binary :
    (n : ℕ) (answers : List Answer) (s : Stream)
    → IsReadable false answers s
    → nread n answers s ≡ (
        if at_end s
        then some (s, [], answers)
        else read_loop n answers (record s { nerr = nerr_noerror }))
unfolding nread
nread_binary n answers s v = ground (arith, v.source, v.kind, v.quiet)

nothing-Delivers :
    (text : Bool) (n : ℕ) (answers : List Answer) (s : Stream)
    → IsReadable text answers s
    → available answers s ≡ []
    → Delivers text
        (take n (available answers s))
        (drop n (available answers s))
        (some (s, [], answers))
nothing-Delivers text n answers s v e =
    rw e (sym (take_all n [] (omega arith)), v, sym (drop_all n [] (omega arith)))

-- A read on a readable binary stream, over a service whose answers are a well-formed script,
-- returns with the next bytes of the source, as many as asked for or as there are, and leaves a
-- readable stream from which the rest is still to be read.
pub nread-Delivers :
    (n : ℕ) (answers : List Answer) (s : Stream)
    → IsReadable false answers s
    → Delivers false
        (take n (available answers s))
        (drop n (available answers s))
        (nread n answers s)
nread-Delivers n answers s v = rw (nread_binary n answers s v) (elim (Bool-cases (at_end s)) [
  | inl e ↦
      rw e
        (nothing-Delivers false n answers s v (exhausted answers s (ground arith) (ground arith)))
  | inr e ↦ rw e (
      read_loop-Delivers false n answers _ (record {
        source = v.source;
        kind = v.kind;
        quiet = refl;
        within = v.within;
        filled = v.filled;
        room = v.room;
        script = v.script;
      }))
])

-- Successive calls of `nread`, until one does not return.
pub read_all : List ℕ → List Answer → Stream → Option (List ℕ)
read_all [] answers s = some []
read_all (n ∷ sizes) answers s = elim (nread n answers s) [
  | none ↦ none
  | some (t, bytes, later) ↦ Option.map (λ rest. bytes ++ rest) (read_all sizes later t)
]

pub sum : List ℕ → ℕ
sum [] = 0
sum (n ∷ sizes) = n + sum sizes

-- On a readable binary stream, over a service whose answers are a well-formed script, a sequence of
-- reads of any sizes returns, and the bytes it delivers are the first ones of the source, as many
-- as the sizes add up to or as there are.
pub read_all-eq-take :
    (sizes : List ℕ) (answers : List Answer) (s : Stream)
    → IsReadable false answers s
    → read_all sizes answers s ≡ some (take (sum sizes) (available answers s))
unfolding read_all sum
read_all-eq-take [] answers s v = refl
read_all-eq-take (n ∷ sizes) answers s v =
    joined (nread n answers s) (nread-Delivers n answers s v) (read_all-eq-take sizes)
  where
    joined :
        (o : Read)
        → Delivers false (take n (available answers s)) (drop n (available answers s)) o
        → ((later : List Answer) (t : Stream)
            → IsReadable false later t
            → read_all sizes later t ≡ some (take (sum sizes) (available later t)))
        → elim o [
          | none ↦ none
          | some (t, bytes, later) ↦ Option.map (λ rest. bytes ++ rest) (read_all sizes later t)
        ]
          ≡ some (take (n + sum sizes) (available answers s))
    joined none d rec = absurd d
    joined (some (t, bytes, later)) (e, v', r) rec =
        ap (Option.map (λ rest. bytes ++ rest)) (rec later t v')
        ∙ rw (e, r) (ap some (sym (take-add n (sum sizes) (available answers s))))
