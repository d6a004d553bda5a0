-- ===== src/Ftp/Paths.antt =====
-- cms/cmsftpd.c: what getDirIdx makes of a path, part by part.
use nicof.Prelude.{
  ℕ, zero, suc, ◌≡◌, ◌≢◌, refl, Bool, true, false, Option, none, some, List, [], ◌∷◌, ◌++◌, All,
  length, arith, ◌==◌, if◌then◌else◌, ◌∙◌, ◌≤◌, ap, ◌+◌, Bool-cases, inl, inr,
}
use nicof.Ftp.{
  slash, dot, disk_loop, get_disk_idx, ends, is_dot, goes, refused, enter, entered, dir_turn,
  dir_loop, get_dir_idx,
}

-- A part of a path between its slashes: "..", "." or the letter of a minidisk.
pub data Part : Type 0 where
  up : Part
  here : Part
  disk : ℕ → Part

abbrev pub IsPart : Part → Type 0
IsPart up = true ≡ true
IsPart here = true ≡ true
IsPart (disk c) = (c ≢ slash) × (c ≢ dot)

abbrev pub text : Part → List ℕ
text up = dot ∷ dot ∷ []
text here = dot ∷ []
text (disk c) = c ∷ []

-- Parts, each after a slash, the last one perhaps before another.
abbrev pub below : Bool → List Part → List ℕ
below closed [] = if closed then slash ∷ [] else []
below closed (p ∷ parts) = slash ∷ (text p ++ below closed parts)

-- The place of the first entry with a letter in the table of minidisks.
abbrev pub position : List ℕ → ℕ → Option ℕ
position [] letter = none
position (d ∷ disks) letter =
    if d == letter
    then some 0
    else elim (position disks letter) [ none ↦ none | some i ↦ some (i + 1) ]

abbrev in_disk : Option ℕ → Option (Option ℕ)
in_disk none = none
in_disk (some i) = some (some i)

abbrev and_then : Option (Option ℕ) → (Option ℕ → Option (Option ℕ)) → Option (Option ℕ)
and_then none f = none
and_then (some index) f = f index

-- The entry at a distance.
abbrev far : ℕ → Option ℕ → Option ℕ
far i none = none
far i (some k) = some (i + k)

disk_loop-position :
    (i : ℕ) (disks : List ℕ) (letter : ℕ) → disk_loop i disks letter ≡ far i (position disks letter)
unfolding disk_loop
disk_loop-position i [] letter = refl
disk_loop-position i (d ∷ disks) letter = elim (Bool-cases (d == letter)) [
  | inl e ↦ rw e (ap some (omega arith))
  | inr e ↦ rw e (disk_loop-position (suc i) disks letter ∙ further i (position disks letter))
]
  where
    further :
        (i : ℕ) (o : Option ℕ)
        → far (suc i) o ≡ far i (elim o [ none ↦ none | some k ↦ some (k + 1) ])
    further i none = refl
    further i (some k) = ap some (omega arith)

far_zero : (o : Option ℕ) → far 0 o ≡ o
far_zero none = refl
far_zero (some k) = ap some (omega arith)

module _ (c_upper : ℕ → ℕ) (disks : List ℕ) where
  -- The directory that a part leads to, `none` where there is no such directory: from the root a
  -- letter, of either case, leads to its minidisk, and below a minidisk no letter leads anywhere.
  abbrev pub moved : Part → Option ℕ → Option (Option ℕ)
  moved up index = some none
  moved here index = some index
  moved (disk c) none = in_disk (position disks (c_upper c))
  moved (disk c) (some i) = none

  abbrev pub follow : List Part → Option ℕ → Option (Option ℕ)
  follow [] index = some index
  follow (p ∷ parts) index = and_then (moved p index) (follow parts)

  enter-moved :
      (c : ℕ) (index : Option ℕ) → in_disk (enter c_upper disks c index) ≡ moved (disk c) index
  unfolding enter get_disk_idx
  enter-moved c none =
      ap in_disk (disk_loop-position 0 disks (c_upper c) ∙ far_zero (position disks (c_upper c)))
  enter-moved c (some i) = refl

  abbrev on : ℕ → List ℕ → Option (Option ℕ) → Option (Option (Option ℕ))
  on n rest none = some none
  on n rest (some i) = dir_loop c_upper disks n rest i false

  loop-goes :
      (c n : ℕ) (path rest : List ℕ) (index i : Option ℕ) (last_sep s : Bool)
      → dir_turn c_upper disks c path index last_sep ≡ goes rest i s
      → dir_loop c_upper disks (suc n) (c ∷ path) index last_sep ≡ dir_loop c_upper disks n rest i s
  unfolding dir_loop
  loop-goes c n path rest index i last_sep s e = rw (e, dir_loop) refl

  loop-refused :
      (c n : ℕ) (path : List ℕ) (index : Option ℕ) (last_sep : Bool)
      → dir_turn c_upper disks c path index last_sep ≡ refused
      → dir_loop c_upper disks (suc n) (c ∷ path) index last_sep ≡ some none
  unfolding dir_loop
  loop-refused c n path index last_sep e = rw (e, dir_loop) refl

  turn-up :
      (rest : List ℕ) (index : Option ℕ) (last_sep : Bool)
      → ends rest ≡ true
      → dir_turn c_upper disks dot (dot ∷ rest) index last_sep ≡ goes rest none false
  unfolding dir_turn is_dot
  turn-up rest index last_sep e = rw e refl

  turn-here :
      (rest : List ℕ) (index : Option ℕ) (last_sep : Bool)
      → ends rest ≡ true
      → dir_turn c_upper disks dot rest index last_sep ≡ goes rest index false
  unfolding dir_turn is_dot ends
  turn-here [] index last_sep e = refl
  turn-here (c ∷ rest) index last_sep e =
      let other : (c == dot) ≡ false = ground arith in rw (other, e) refl

  turn-stuck :
      (path : List ℕ) (index : Option ℕ) (last_sep : Bool)
      → ends path ≡ false
      → is_dot path ≡ false
      → dir_turn c_upper disks dot path index last_sep ≡ goes (dot ∷ path) index false
  unfolding dir_turn
  turn-stuck path index last_sep e d = rw (d, e) refl

  turn-disk :
      (c : ℕ) (rest : List ℕ) (index : Option ℕ) (last_sep : Bool)
      → c ≢ slash
      → c ≢ dot
      → ends rest ≡ true
      → dir_turn c_upper disks c rest index last_sep ≡ entered rest (enter c_upper disks c index)
  unfolding dir_turn
  turn-disk c rest index last_sep h k e =
      let other : (c == slash) ≡ false = ground arith in
      let other2 : (c == dot) ≡ false = ground arith in rw (other, other2, e) refl

  loop-entered :
      (c n : ℕ) (rest : List ℕ) (index : Option ℕ) (last_sep : Bool) (o : Option ℕ)
      → dir_turn c_upper disks c rest index last_sep ≡ entered rest o
      → dir_loop c_upper disks (suc n) (c ∷ rest) index last_sep ≡ on n rest (in_disk o)
  unfolding entered
  loop-entered c n rest index last_sep none e = loop-refused c n rest index last_sep e
  loop-entered c n rest index last_sep (some i) e =
      loop-goes c n rest rest index (some i) last_sep false e

  loop-part :
      (p : Part) (n : ℕ) (rest : List ℕ) (index : Option ℕ) (last_sep : Bool)
      → IsPart p
      → ends rest ≡ true
      → dir_loop c_upper disks (suc n) (text p ++ rest) index last_sep ≡ on n rest (moved p index)
  loop-part up n rest index last_sep h e =
      loop-goes dot n (dot ∷ rest) rest index none last_sep false (turn-up rest index last_sep e)
  loop-part here n rest index last_sep h e =
      loop-goes dot n rest rest index index last_sep false (turn-here rest index last_sep e)
  loop-part (disk c) n rest index last_sep (h, k) e =
      loop-entered c n rest index last_sep (enter c_upper disks c index)
        (turn-disk c rest index last_sep h k e)
      ∙ ap (on n rest) (enter-moved c index)

  ends-below : (closed : Bool) (parts : List Part) → ends (below closed parts) ≡ true
  unfolding ends
  ends-below true [] = refl
  ends-below false [] = refl
  ends-below closed (p ∷ parts) = refl

  on-follow :
      (n : ℕ) (rest : List ℕ) (f : Option ℕ → Option (Option ℕ)) (o : Option (Option ℕ))
      → ((i : Option ℕ) → dir_loop c_upper disks n rest i false ≡ some (f i))
      → on n rest o ≡ some (and_then o f)
  on-follow n rest f none h = refl
  on-follow n rest f (some i) h = h i

  -- A part, and then what is below it.
  loop-parts :
      (closed : Bool) (p : Part) (parts : List Part) (index : Option ℕ) (last_sep : Bool) (n : ℕ)
      → IsPart p
      → ((i : Option ℕ)
          → dir_loop c_upper disks n (below closed parts) i false ≡ some (follow parts i))
      → dir_loop c_upper disks (suc n) (text p ++ below closed parts) index last_sep
        ≡ some (follow (p ∷ parts) index)
  loop-parts closed p parts index last_sep n h rest =
      loop-part p n (below closed parts) index last_sep h (ends-below closed parts)
      ∙ on-follow n (below closed parts) (follow parts) (moved p index) rest

  fits : (p : Part) (rest : List ℕ) (n : ℕ) → length (text p ++ rest) ≤ suc n → length rest ≤ n
  fits up rest n e = omega arith
  fits here rest n e = omega arith
  fits (disk c) rest n e = omega arith

  is_long : (p : Part) (rest : List ℕ) → 1 ≤ length (text p ++ rest)
  is_long up rest = omega arith
  is_long here rest = omega arith
  is_long (disk c) rest = omega arith

  loop-below :
      (closed : Bool) (parts : List Part) (index : Option ℕ) (n : ℕ)
      → All IsPart parts
      → length (below closed parts) ≤ n
      → dir_loop c_upper disks n (below closed parts) index false ≡ some (follow parts index)
  unfolding dir_loop dir_turn
  loop-below false [] index n h e = refl
  loop-below true [] index zero h e = ground arith
  loop-below true [] index (suc n) h e = refl
  loop-below closed (p ∷ parts) index zero h e = ground arith
  loop-below closed (p ∷ parts) index (suc zero) h e =
      let long = is_long p (below closed parts) in ground arith
  loop-below closed (p ∷ parts) index (suc (suc n)) (h, hs) e =
      loop-goes slash (suc n) (text p ++ below closed parts) (text p ++ below closed parts) index
        index false true refl
      ∙ loop-parts closed p parts index true n h
          (λ i. loop-below closed parts i n hs (fits p (below closed parts) n (omega arith)))

  get_dir_idx-parts :
      (closed : Bool) (p : Part) (parts : List Part) (current : Option ℕ)
      → All IsPart (p ∷ parts)
      → get_dir_idx c_upper disks current (text p ++ below closed parts)
        ≡ some (follow (p ∷ parts) current)
  unfolding get_dir_idx
  get_dir_idx-parts closed up parts current (h, hs) =
      loop-parts closed up parts current false (suc (length (below closed parts))) h
        (λ i. loop-below closed parts i (suc (length (below closed parts))) hs (omega arith))
  get_dir_idx-parts closed here parts current (h, hs) =
      loop-parts closed here parts current false (length (below closed parts)) h
        (λ i. loop-below closed parts i (length (below closed parts)) hs (omega arith))
  get_dir_idx-parts closed (disk c) parts current ((h, k), hs) =
      let other : (c == slash) ≡ false = ground arith in
      rw other (
        loop-parts closed (disk c) parts current false (length (below closed parts)) (h, k)
          (λ i. loop-below closed parts i (length (below closed parts)) hs (omega arith)))

  -- On a path of one or more parts, each "..", "." or a letter that is no slash and no dot, with a
  -- slash between two and perhaps one at the end, getDirIdx returns. What it finds is where the
  -- parts lead, one after the other, from the root if the path starts with a slash and else from
  -- the current directory: ".." to the root, "." nowhere else, and a letter from the root to the
  -- first minidisk in the table with that letter in upper case; if there is none, or the letter
  -- stands below a minidisk, it returns false.
  pub get_dir_idx-follow :
      (closed : Bool) (p : Part) (parts : List Part) (current : Option ℕ)
      → All IsPart (p ∷ parts)
      → (get_dir_idx c_upper disks current (below closed (p ∷ parts))
          ≡ some (follow (p ∷ parts) none))
        × (get_dir_idx c_upper disks current (text p ++ below closed parts)
            ≡ some (follow (p ∷ parts) current))
  unfolding get_dir_idx
  get_dir_idx-follow closed p parts current h = (
    loop-below closed (p ∷ parts) none (length (below closed (p ∷ parts))) h (omega arith),
    get_dir_idx-parts closed p parts current h,
  )

  -- The loop of getDirIdx never ends once it stands at a dot that is followed neither by a slash or
  -- the end of the path nor by a second dot with a slash or the end after it: no number of turns is
  -- enough, whatever the minidisks and the directory reached.
  pub dir_loop_stuck :
      (path : List ℕ) (index : Option ℕ) (last_sep : Bool) (n : ℕ)
      → ends path ≡ false
      → is_dot path ≡ false
      → dir_loop c_upper disks n (dot ∷ path) index last_sep ≡ none
  unfolding dir_loop
  dir_loop_stuck path index last_sep zero e d = refl
  dir_loop_stuck path index last_sep (suc n) e d =
      loop-goes dot n path (dot ∷ path) index index last_sep false
        (turn-stuck path index last_sep e d)
      ∙ dir_loop_stuck path index false n e d
