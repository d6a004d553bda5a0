-- ===== src/Ftp/Specs/Names.antt =====
-- cms/cmsftpd.c: parseFullPath on the name of a file in the current directory.
use nicof.Prelude.{
  Option, none, if◌then◌else◌, ℕ, suc, ◌+◌, ◌-◌, ◌≤◌, ◌≡◌, ◌≢◌, ◌∙◌, refl, ap, subst, Bool, false,
  some, List, [], ◌∷◌, ◌++◌, All, length, length-append, take, drop, take-append, take_all,
  drop_plus, arith, ltb, ◌==◌, append-nil,
}
use nicof.Prelude.Int.{ℤ}
use nicof.Ftp.{slash, dot}
use nicof.Ftp.Specs.{
  Override, Spec, Spots, no_spots, spot, scan, is_bad, parsed, colon, bang, at, locate, named,
  parse_at, parse_full_path, formatted, overridden, find_override,
}

-- A character that separates nothing.
abbrev pub IsPlain : ℕ → Type 0
IsPlain c = (c ≢ slash) × ((c ≢ dot) × ((c ≢ colon) × (c ≢ bang)))

spot-plain : (i c : ℕ) (s : Spots) → IsPlain c → spot i c s ≡ s
unfolding spot
spot-plain i c s (h1, (h2, (h3, h4))) =
    let e1 : (c == slash) ≡ false = ground arith in
    let e2 : (c == dot) ≡ false = ground arith in
    let e3 : (c == colon) ≡ false = ground arith in
    let e4 : (c == bang) ≡ false = ground arith in rw (e1, e2, e3, e4) refl

scan-plain :
    (i : ℕ) (name rest : List ℕ) (s : Spots)
    → All IsPlain name
    → scan i (name ++ rest) s ≡ scan (i + length name) rest s
unfolding scan
scan-plain i [] rest s h = ap (λ n. scan n rest s) (omega arith)
scan-plain i (c ∷ name) rest s (h, hs) =
    ap (scan (suc i) (name ++ rest)) (spot-plain i c s h)
    ∙ scan-plain (suc i) name rest s hs
    ∙ ap (λ n. scan n rest s) (omega arith)

abbrev dotted : ℕ → Spots
dotted d = record no_spots { count_dot = 1; last_dot = some d }

scan-name :
    (fn ft : List ℕ)
    → All IsPlain fn
    → All IsPlain ft
    → scan 0 (fn ++ (dot ∷ ft)) no_spots ≡ dotted (length fn)
unfolding scan spot
scan-name fn ft h k =
    scan-plain 0 fn (dot ∷ ft) no_spots h
    ∙ ap (λ n. scan n (dot ∷ ft) no_spots) (omega arith)
    ∙ subst (λ t. scan (suc (length fn)) t (dotted (length fn)) ≡ dotted (length fn))
        (append-nil ft) (scan-plain (suc (length fn)) ft [] (dotted (length fn)) k)

-- A field of an override, where there is one.
abbrev pub or_else : {A : Type 0} → (Override → A) → A → Option Override → A
or_else field a none = a
or_else field a (some o) = field o

module _ (c_upper : ℕ → ℕ) (s_upper : List ℕ → List ℕ) (same_name : List ℕ → List ℕ → Bool) where
  -- The first of the overrides for a type.
  abbrev pub override_for : List ℕ → List Override → Option Override
  override_for ft [] = none
  override_for ft (o ∷ overrides) = if same_name ft o.ft then some o else override_for ft overrides

  -- The components of a plain name without a modifier.
  abbrev pub plain_spec : List Override → ℕ → Bool → (fn ft : List ℕ) → Spec
  plain_spec overrides i binary fn ft =
      let chosen = override_for (s_upper ft) overrides in
      record {
        disk_idx = some i;
        fn = s_upper fn;
        ft = s_upper ft;
        recfm = or_else (λ o. o.recfm) 0xe5 chosen;
        lrecl = or_else (λ o. o.lrecl) (ℤ.pos 80) chosen;
        replace = false;
        binary = or_else (λ o. o.binary) binary chosen;
      }

  find_override-override_for :
      (ft : List ℕ) (overrides : List Override)
      → find_override c_upper s_upper same_name ft overrides ≡ override_for ft overrides
  unfolding find_override
  find_override-override_for ft [] = refl
  find_override-override_for ft (o ∷ overrides) =
      ap (λ rest. if same_name ft o.ft then some o else rest)
        (find_override-override_for ft overrides)

  overridden-fields :
      (o : Option Override) (i : ℕ) (binary : Bool) (fn ft : List ℕ)
      → overridden c_upper s_upper same_name o (record {
        disk_idx = some i;
        fn = fn;
        ft = ft;
        recfm = 0xe5;
        lrecl = ℤ.pos 80;
        replace = false;
        binary = binary;
      })
        ≡ record {
          disk_idx = some i;
          fn = fn;
          ft = ft;
          recfm = or_else (λ p. p.recfm) 0xe5 o;
          lrecl = or_else (λ p. p.lrecl) (ℤ.pos 80) o;
          replace = false;
          binary = or_else (λ p. p.binary) binary o;
        }
  unfolding overridden
  overridden-fields none i binary fn ft = refl
  overridden-fields (some o) i binary fn ft = refl

  named-plain :
      (overrides : List Override) (i : ℕ) (binary : Bool) (fn ft : List ℕ)
      → length fn ≤ 8
      → length ft ≤ 8
      → named c_upper s_upper same_name overrides binary
          (fn ++ (dot ∷ ft))
          (dotted (length fn))
          (length fn)
          (at (some i) 0)
        ≡ parsed (plain_spec overrides i binary fn ft)
  unfolding named formatted
  named-plain overrides i binary fn ft h k =
      let len = length-append fn (dot ∷ ft) in
      let whole : length fn - 0 ≡ length fn = omega arith in
      let fn_fits : ltb 8 (length fn) ≡ false = ground arith in
      let size : length (fn ++ (dot ∷ ft)) - suc (length fn) ≡ length ft = omega (arith, len) in
      let ft_fits : ltb 8 (length ft) ≡ false = ground arith in
      let fn_text : take (length fn) (fn ++ (dot ∷ ft)) ≡ fn = take-append fn (dot ∷ ft) in
      let past : suc (length fn) ≡ length fn + 1 = omega arith in
      let ft_text : drop (suc (length fn)) (fn ++ (dot ∷ ft)) ≡ ft =
        ap (λ n. drop n (fn ++ (dot ∷ ft))) past ∙ drop_plus fn (dot ∷ ft) 1 in
      rw
        (
          whole,
          fn_fits,
          size,
          ft_fits,
          fn_text,
          ft_text,
          take_all (length ft) ft (omega arith),
          find_override-override_for (s_upper ft) overrides,
        )
        (ap parsed (
          overridden-fields (override_for (s_upper ft) overrides) i binary (s_upper fn)
            (s_upper ft)))

  -- With a minidisk as the current directory, a text that is a name, a dot and a type of at most 8
  -- characters each, without slash, dot, colon or exclamation mark, is accepted by parseFullPath:
  -- it gives that minidisk, name and type in upper case, no replacing, and the mode, RECFM and
  -- LRECL of the first override for the type or, without one, the session's mode, V and 80.
  pub parse_full_path-name :
      (overrides : List Override) (disks : List ℕ) (i : ℕ) (binary : Bool) (fn ft : List ℕ)
      → All IsPlain fn
      → All IsPlain ft
      → length fn ≤ 8
      → length ft ≤ 8
      → parse_full_path c_upper s_upper same_name overrides disks (some i) binary (fn ++ (dot ∷ ft))
        ≡ some (parsed (plain_spec overrides i binary fn ft))
  unfolding parse_full_path parse_at is_bad locate
  parse_full_path-name overrides disks i binary fn ft h k hn kn =
      let len = length-append fn (dot ∷ ft) in
      let short : ltb 64 (length (fn ++ (dot ∷ ft))) ≡ false = ground (arith, len) in
      rw (scan-name fn ft h k, short) (ap some (named-plain overrides i binary fn ft hn kn))
