-- ===== src/Ftp/Specs.antt =====
-- cms/cmsftpd.c: the file type overrides, and the file specification of an upload or a download. The
-- changes of case and the comparison of names are functions of a library, parameters.
pub mod Bounds
pub mod Names
use nicof.Prelude.{
  ℕ, zero, suc, ◌+◌, ◌-◌, ◌*◌, ◌%◌, ◌^◌, Bool, true, false, not, ◌&&◌, ◌||◌, Option, none, some,
  List, [], ◌∷◌, length, take, drop, get_or, ltb, leb, ◌==◌, if◌then◌else◌,
}
use nicof.Prelude.Int.{ℤ, to_int}
use nicof.Ftp.{slash, dot, get_dir_idx}

-- FT_OVERRIDE.
pub record Override : Type 0 where
  ft : List ℕ
  binary : Bool
  recfm : ℕ
  lrecl : ℤ

abbrev pub colon : ℕ
colon = 0x7a

abbrev pub bang : ℕ
bang = 0x5a

abbrev pub blank : ℕ
blank = 0x40

abbrev pub clamped : ℤ → ℤ
clamped (ℤ.negsuc n) = ℤ.pos 1
clamped (ℤ.pos n) = ℤ.pos (if ltb n 1 then 1 else if ltb 255 n then 255 else n)

-- The places of the separators, `none` for -1.
pub record Spots : Type 0 where
  last_sep : Option ℕ
  last_dot : Option ℕ
  last_colon : Option ℕ
  count_dot : ℕ
  count_colon : ℕ
  replace : Bool

abbrev pub no_spots : Spots
no_spots = record {
  last_sep = none;
  last_dot = none;
  last_colon = none;
  count_dot = 0;
  count_colon = 0;
  replace = false;
}

unfoldable pub spot : ℕ → ℕ → Spots → Spots
spot i c s =
    if c == slash
    then record s { count_dot = 0; last_sep = some i }
    else if c == dot
    then record s { count_dot = suc s.count_dot; last_dot = some i }
    else if c == colon
    then record s { count_colon = suc s.count_colon; last_colon = some i }
    else if c == bang
    then record s { count_colon = suc s.count_colon; last_colon = some i; replace = true }
    else s

unfoldable pub scan : ℕ → List ℕ → Spots → Spots
scan i [] s = s
scan i (c ∷ line) s = scan (suc i) line (spot i c s)

-- `a > b`.
abbrev pub above : Option ℕ → Option ℕ → Bool
above none b = false
above (some a) none = true
above (some a) (some b) = ltb b a

-- The basic structure check.
unfoldable pub is_bad : Spots → Bool
is_bad s =
    not (s.count_dot == 1)
    || (ltb 1 s.count_colon
        || (above s.last_sep s.last_dot
            || ((above s.last_sep none && not (above s.last_dot s.last_sep))
                || (above s.last_colon none
                    && (above s.last_sep s.last_colon || not (above s.last_colon s.last_dot))))))

-- The output parameters.
pub record Spec : Type 0 where
  pub disk_idx : Option ℕ
  pub fn : List ℕ
  pub ft : List ℕ
  pub recfm : ℕ
  pub lrecl : ℤ
  pub replace : Bool
  pub binary : Bool

-- What parseFullPath gives: the components, or `false` after a response with this code.
pub data Parsed : Type 0 where
  parsed : Spec → Parsed
  rejected : ℕ → Parsed

-- Where the name starts, and the minidisk.
pub data Place : Type 0 where
  at : Option ℕ → ℕ → Place
  nowhere : ℕ → Place

-- The digits of LRECL, in a word of 32 bits.
unfoldable pub lrecl_digits : ℕ → List ℕ → Option ℕ
lrecl_digits val [] = some val
lrecl_digits val (c ∷ line) =
    let rest = lrecl_digits ((val * 10 + (c - 0xf0)) % 2 ^ 32) line in
    if ltb c 0xf0 || ltb 0xf9 c then none else rest

-- `val > 255` for an `int`.
abbrev pub is_over : ℕ → Bool
is_over val = ltb 255 val && ltb val (2 ^ 31)

unfoldable pub with_lrecl : List ℕ → Spec → Parsed
with_lrecl [] spec = parsed spec
with_lrecl (c ∷ line) spec = elim (lrecl_digits 0 (c ∷ line)) [
  | none ↦ rejected 501
  | some val ↦ if is_over val then rejected 501 else parsed (record spec { lrecl = to_int val })
]

-- The modifier, behind the colon.
unfoldable pub with_format : ℕ → List ℕ → Spec → Parsed
with_format c line spec =
    if c == 0xa5 || c == 0xe5
    then with_lrecl line (record spec { recfm = 0xe5 })
    else if c == 0x86 || c == 0xc6
    then with_lrecl line (record spec { recfm = 0xc6 })
    else rejected 501

-- The end of the file type.
abbrev pub ft_end : List ℕ → Option ℕ → ℕ
ft_end line none = length line
ft_end line (some k) = k

module _ (c_upper : ℕ → ℕ) (s_upper : List ℕ → List ℕ) (same_name : List ℕ → List ℕ → Bool) where
  unfoldable pub override_ft : ℕ → List ℕ → List ℕ
  override_ft zero ft = []
  override_ft (suc n) [] = []
  override_ft (suc n) (c ∷ ft) = if c == blank then [] else c_upper c ∷ override_ft n ft

  unfoldable pub add_override : List ℕ → Bool → ℕ → ℤ → List Override → List Override
  add_override ft binary recfm lrecl overrides =
      record {
        ft = override_ft 8 ft;
        binary = binary;
        recfm = c_upper recfm;
        lrecl = clamped lrecl;
      }
      ∷ overrides

  unfoldable pub find_override : List ℕ → List Override → Option Override
  find_override ft [] = none
  find_override ft (o ∷ overrides) =
      if same_name ft o.ft then some o else find_override ft overrides

  -- Without a modifier.
  unfoldable pub overridden : Option Override → Spec → Spec
  overridden none spec = spec
  overridden (some o) spec = record spec { binary = o.binary; recfm = o.recfm; lrecl = o.lrecl }

  unfoldable pub formatted : List Override → List ℕ → Option ℕ → Spec → Parsed
  formatted overrides line none spec = parsed (overridden (find_override spec.ft overrides) spec)
  formatted overrides line (some k) spec = elim (drop (suc k) line) [
    | [] ↦ parsed (overridden (find_override spec.ft overrides) spec)
    | c ∷ rest ↦ with_format c rest spec
  ]

  unfoldable pub root_disk : List ℕ → ℕ → Place
  root_disk disks fn_pos = if get_or disks 0 0 == 0xc1 then at (some 0) fn_pos else nowhere 553

  unfoldable pub place_of : Option (Option ℕ) → ℕ → Place
  place_of none fn_pos = nowhere 501
  place_of (some index) fn_pos = at index fn_pos

  -- The directory of the file, `none` where getDirIdx does not return.
  unfoldable pub locate : List ℕ → Option ℕ → List ℕ → Option ℕ → Option Place
  locate disks (some i) line none = some (at (some i) 0)
  locate disks none line none = some (root_disk disks 0)
  locate disks current line (some zero) = some (root_disk disks 1)
  locate disks current line (some (suc k)) =
      elim (get_dir_idx c_upper disks current (take (suc k) line)) [
        | none ↦ none
        | some found ↦ some (place_of found (suc (suc k)))
      ]

  unfoldable pub named : List Override → Bool → List ℕ → Spots → ℕ → Place → Parsed
  named overrides binary line s d (nowhere code) = rejected code
  named overrides binary line s d (at index fn_pos) =
      if ltb 8 (d - fn_pos) || ltb 8 (ft_end line s.last_colon - suc d)
      then rejected 501
      else formatted overrides line s.last_colon (record {
        disk_idx = index;
        fn = s_upper (take (d - fn_pos) (drop fn_pos line));
        ft = s_upper (take (ft_end line s.last_colon - suc d) (drop (suc d) line));
        recfm = 0xe5;
        lrecl = ℤ.pos 80;
        replace = s.replace;
        binary = binary;
      })

  -- The parsing, with the places found. Where there is no dot, `is_bad` holds.
  unfoldable pub parse_at :
      List Override → List ℕ → Option ℕ → Bool → List ℕ → Spots → Option ℕ → Option Parsed
  parse_at overrides disks current binary line s none = some (rejected 501)
  parse_at overrides disks current binary line s (some d) =
      elim (locate disks current line s.last_sep) [
        | none ↦ none
        | some place ↦ some (named overrides binary line s d place)
      ]

  unfoldable pub parse_full_path : List Override → List ℕ → Option ℕ → Bool → List ℕ → Option Parsed
  parse_full_path overrides disks current binary line =
      let s = scan 0 line no_spots in
      let rest = parse_at overrides disks current binary line s s.last_dot in
      if ltb 64 (length line)
      then some (rejected 501)
      else if is_bad s
      then some (rejected 501)
      else rest
