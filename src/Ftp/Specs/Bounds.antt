-- ===== src/Ftp/Specs/Bounds.antt =====
-- cms/cmsftpd.c: the names that parseFullPath gives fit the buffers of its callers.
use nicof.Prelude.{
  ℕ, suc, ◌-◌, ◌≤◌, Bool, true, false, ◌||◌, Option, none, some, List, [], ◌∷◌, length, length-take,
  take, drop, arith, ltb, ◌==◌, if◌then◌else◌, Bool-cases, inl, inr,
}
use nicof.Prelude.Int.{to_int}
use nicof.Ftp.Specs.{
  Override, Spec, Spots, no_spots, scan, is_bad, is_over, Parsed, parsed, rejected, Place, at,
  nowhere, locate, ft_end, named, parse_at, parse_full_path, formatted, overridden, find_override,
  with_lrecl, with_format, lrecl_digits,
}

-- A file name and a file type of at most 8 characters, where there are any.
abbrev pub Fits : Parsed → Type 0
Fits (rejected code) = 0 ≤ code
Fits (parsed spec) = (length spec.fn ≤ 8) × (length spec.ft ≤ 8)

abbrev pub AllFit : Option Parsed → Type 0
AllFit none = 0 ≤ 0
AllFit (some p) = Fits p

Fits-if : (b : Bool) (p q : Parsed) → Fits p → Fits q → Fits (if b then p else q)
Fits-if true p q h k = h
Fits-if false p q h k = k

with_lrecl-Fits : (line : List ℕ) (spec : Spec) → Fits (parsed spec) → Fits (with_lrecl line spec)
unfolding with_lrecl
with_lrecl-Fits [] spec h = h
with_lrecl-Fits (c ∷ line) spec h =
    elim (lrecl_digits 0 (c ∷ line))
      as (λ o. Fits (elim o [
        | none ↦ rejected 501
        | some val ↦
            if is_over val then rejected 501 else parsed (record spec { lrecl = to_int val })
      ])) [
        | none ↦ omega arith
        | some val ↦
            Fits-if (is_over val) (rejected 501) (parsed (record spec { lrecl = to_int val }))
              (omega arith) h
      ]

with_format-Fits :
    (c : ℕ) (line : List ℕ) (spec : Spec) → Fits (parsed spec) → Fits (with_format c line spec)
unfolding with_format
with_format-Fits c line spec h =
    Fits-if (c == 0xa5 || c == 0xe5) (with_lrecl line (record spec { recfm = 0xe5 })) _
      (with_lrecl-Fits line (record spec { recfm = 0xe5 }) h)
      (Fits-if (c == 0x86 || c == 0xc6) (with_lrecl line (record spec { recfm = 0xc6 }))
        (rejected 501) (with_lrecl-Fits line (record spec { recfm = 0xc6 }) h) (omega arith))

module _ (c_upper : ℕ → ℕ) (s_upper : List ℕ → List ℕ) (same_name : List ℕ → List ℕ → Bool) where
  overridden-Fits :
      (o : Option Override) (spec : Spec)
      → Fits (parsed spec)
      → Fits (parsed (overridden c_upper s_upper same_name o spec))
  unfolding overridden
  overridden-Fits none spec h = h
  overridden-Fits (some o) spec h = h

  formatted-Fits :
      (overrides : List Override) (line : List ℕ) (last_colon : Option ℕ) (spec : Spec)
      → Fits (parsed spec)
      → Fits (formatted c_upper s_upper same_name overrides line last_colon spec)
  unfolding formatted
  formatted-Fits overrides line none spec h =
      overridden-Fits (find_override c_upper s_upper same_name spec.ft overrides) spec h
  formatted-Fits overrides line (some k) spec h =
      elim (drop (suc k) line)
        as (λ rest. Fits (elim rest [
          | [] ↦ parsed (
              overridden c_upper s_upper same_name
                (find_override c_upper s_upper same_name spec.ft overrides) spec)
          | c ∷ rest ↦ with_format c rest spec
        ])) [
          | [] ↦ overridden-Fits (find_override c_upper s_upper same_name spec.ft overrides) spec h
          | c ∷ rest ↦ with_format-Fits c rest spec h
        ]

  module _ (shorter : (s : List ℕ) → length (s_upper s) ≤ length s) where
    part-fits : (n k : ℕ) (line : List ℕ) → n ≤ 8 → length (s_upper (take n (drop k line))) ≤ 8
    part-fits n k line h =
        omega (arith, shorter (take n (drop k line)), length-take n (drop k line))

    named-Fits :
        (overrides : List Override) (binary : Bool) (line : List ℕ) (s : Spots) (d : ℕ) (p : Place)
        → Fits (named c_upper s_upper same_name overrides binary line s d p)
    unfolding named
    named-Fits overrides binary line s d (nowhere code) = omega arith
    named-Fits overrides binary line s d (at index fn_pos) =
        elim (Bool-cases (ltb 8 (d - fn_pos) || ltb 8 (ft_end line s.last_colon - suc d))) [
          | inl e ↦ rw e (omega arith)
          | inr e ↦
              let fn_fits : d - fn_pos ≤ 8 = ground arith in
              let ft_fits : ft_end line s.last_colon - suc d ≤ 8 = ground arith in
              rw e (
                formatted-Fits overrides line s.last_colon _ (
                  part-fits (d - fn_pos) fn_pos line fn_fits,
                  part-fits (ft_end line s.last_colon - suc d) (suc d) line ft_fits,
                ))
        ]

    parse_at-fit :
        (overrides : List Override) (disks : List ℕ) (current : Option ℕ) (binary : Bool)
        (line : List ℕ) (s : Spots) (o : Option ℕ)
        → AllFit (parse_at c_upper s_upper same_name overrides disks current binary line s o)
    unfolding parse_at
    parse_at-fit overrides disks current binary line s none = omega arith
    parse_at-fit overrides disks current binary line s (some d) =
        elim (locate c_upper s_upper same_name disks current line s.last_sep)
          as (λ o. AllFit (elim o [
            | none ↦ none
            | some place ↦ some (named c_upper s_upper same_name overrides binary line s d place)
          ])) [ none ↦ omega arith | some place ↦ named-Fits overrides binary line s d place ]

    -- Whatever the text, the minidisks, the overrides and the current directory, the file name and
    -- the file type that parseFullPath gives, where it accepts the text, have at most 8 characters,
    -- provided s_upper makes no text longer: with the null character they fit the buffers of 9.
    pub parse_full_path-AllFit :
        (overrides : List Override) (disks : List ℕ) (current : Option ℕ) (binary : Bool)
        (line : List ℕ)
        → AllFit (parse_full_path c_upper s_upper same_name overrides disks current binary line)
    unfolding parse_full_path
    parse_full_path-AllFit overrides disks current binary line =
        let s = scan 0 line no_spots in
        elim (Bool-cases (ltb 64 (length line))) [
          | inl e ↦ rw e (omega arith)
          | inr e ↦ rw e (elim (Bool-cases (is_bad s)) [
            | inl b ↦ rw b (omega arith)
            | inr b ↦ rw b (parse_at-fit overrides disks current binary line s s.last_dot)
          ])
        ]
