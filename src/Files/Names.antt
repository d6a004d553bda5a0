-- ===== src/Files/Names.antt =====
-- cms/nhfscomn.c: the comparison of names and the identifiers of files.
use nicof.Prelude.{
  ℕ, zero, suc, ◌≤◌, ◌≡◌, ◌≢◌, ◌∙◌, refl, sym, ap, ap₂, ◌↔◌, Bool, true, false, ◌&&◌, Option, none,
  some, List, [], ◌∷◌, ◌++◌, All, map, length, length-map, arith, ◌==◌, Bool-cases, inl, inr,
}
use mathlib.Core.Option
use nicof.Files.{toupper, blank, same_chars, strequiv, name_field, mode_field, build_fid}

both : (a b : Bool) → (a && b) ≡ true → (a ≡ true) × (b ≡ true)
both true b e = (refl, e)
both false b e = absurd cc

same_code : (a b : ℕ) → (a == b) ≡ true → a ≡ b
same_code a b h = ground arith

same_chars_sound :
    (s1 s2 : List ℕ)
    → length s1 ≡ length s2
    → same_chars s1 s2 ≡ true
    → map toupper s1 ≡ map toupper s2
unfolding same_chars
same_chars_sound [] [] h e = refl
same_chars_sound [] (d ∷ s2) h e = absurd (omega arith)
same_chars_sound (c ∷ s1) [] h e = absurd (omega arith)
same_chars_sound (c ∷ s1) (d ∷ s2) h e =
    let (k, r) = both (toupper c == toupper d) (same_chars s1 s2) e in
    ap₂ ◌∷◌ (same_code (toupper c) (toupper d) k) (same_chars_sound s1 s2 (omega arith) r)

self_code : (a b : ℕ) → a ≡ b → (a == b) ≡ true
self_code a b h = ground arith

head_eq : (c d : ℕ) (s t : List ℕ) → c ∷ s ≡ d ∷ t → c ≡ d
head_eq c d s t e = ap (λ l. elim l [ [] ↦ 0 | x ∷ xs ↦ x ]) e

tail_eq : (c d : ℕ) (s t : List ℕ) → c ∷ s ≡ d ∷ t → s ≡ t
tail_eq c d s t e = ap (λ l. elim l [ [] ↦ [] | x ∷ xs ↦ xs ]) e

same_chars_complete : (s1 s2 : List ℕ) → map toupper s1 ≡ map toupper s2 → same_chars s1 s2 ≡ true
unfolding same_chars
same_chars_complete [] s2 e = refl
same_chars_complete (c ∷ s1) [] e = let n = ap length e in absurd (omega arith)
same_chars_complete (c ∷ s1) (d ∷ s2) e =
    rw (self_code (toupper c) (toupper d) (head_eq _ _ _ _ e))
      (same_chars_complete s1 s2 (tail_eq _ _ _ _ e))

some_eq : (s t : List ℕ) → some s ≡ some t → s ≡ t
some_eq s t e = ap (λ o. elim o [ none ↦ [] | some x ↦ x ]) e

-- The characters of a string in upper case.
abbrev pub upper : Option (List ℕ) → Option (List ℕ)
upper = Option.map (map toupper)

-- states
pub strequiv-upper : (s1 s2 : Option (List ℕ)) → (strequiv s1 s2 ≡ true) ↔ (upper s1 ≡ upper s2)
unfolding strequiv
strequiv-upper none none = (λ e. refl, λ e. refl)
strequiv-upper none (some s2) = (λ e. absurd cc, λ e. absurd cc)
strequiv-upper (some s1) none = (λ e. absurd cc, λ e. absurd cc)
strequiv-upper (some s1) (some s2) = elim (Bool-cases (length s1 == length s2)) [
  | inl t ↦ rw t (
    λ e. ap some (same_chars_sound s1 s2 (same_code (length s1) (length s2) t) e),
    λ e. same_chars_complete s1 s2 (some_eq (map toupper s1) (map toupper s2) e),
  )
  | inr f ↦ rw f (
    λ e. absurd cc,
    λ e.
        let same = ap length (some_eq (map toupper s1) (map toupper s2) e) in
        absurd (ground (arith, length-map s1 toupper, length-map s2 toupper)),
  )
]

name_field-length : (n : ℕ) (p : List ℕ) → length (name_field n p) ≡ n
unfolding name_field
name_field-length zero p = refl
name_field-length (suc n) [] = ap suc (name_field-length n [])
name_field-length (suc n) (c ∷ p) = ap suc (name_field-length n p)

-- A name as CMS allows it.
abbrev pub IsName : List ℕ → Type 0
IsName p = (length p ≤ 8) × All (λ c. toupper c ≢ blank) p

name_field-eq :
    (n : ℕ) (p q : List ℕ)
    → length p ≤ n
    → length q ≤ n
    → All (λ c. toupper c ≢ blank) p
    → All (λ c. toupper c ≢ blank) q
    → name_field n p ≡ name_field n q
    → map toupper p ≡ map toupper q
unfolding name_field
name_field-eq n [] [] h k a b e = refl
name_field-eq zero [] (d ∷ q) h k a b e = absurd (omega arith)
name_field-eq zero (c ∷ p) q h k a b e = absurd (omega arith)
name_field-eq (suc n) [] (d ∷ q) h k a (m, b) e = absurd (m (sym (head_eq _ _ _ _ e)))
name_field-eq (suc n) (c ∷ p) [] h k (m, a) b e = absurd (m (head_eq _ _ _ _ e))
name_field-eq (suc n) (c ∷ p) (d ∷ q) h k (m, a) (m', b) e =
    ap₂ ◌∷◌ (head_eq _ _ _ _ e)
      (name_field-eq n p q (omega arith) (omega arith) a b (tail_eq _ _ _ _ e))

split_eq :
    (xs ys us vs : List ℕ) → length xs ≡ length us → xs ++ ys ≡ us ++ vs → (xs ≡ us) × (ys ≡ vs)
split_eq [] ys [] vs h e = (refl, e)
split_eq [] ys (u ∷ us) vs h e = absurd (omega arith)
split_eq (x ∷ xs) ys [] vs h e = absurd (omega arith)
split_eq (x ∷ xs) ys (u ∷ us) vs h e =
    let (a, b) = split_eq xs ys us vs (omega arith) (tail_eq _ _ _ _ e) in
    (ap₂ ◌∷◌ (head_eq _ _ _ _ e) a, b)

-- Two file identifiers that buildFid makes of names and types of at most 8 characters, without
-- blanks in upper case, are equal only where strequiv finds the names and the types equal.
pub build_fid-strequiv :
    (fn ft fm fn2 ft2 fm2 : List ℕ)
    → IsName fn
    → IsName ft
    → IsName fn2
    → IsName ft2
    → build_fid fn ft fm ≡ build_fid fn2 ft2 fm2
    → (strequiv (some fn) (some fn2) ≡ true) × (strequiv (some ft) (some ft2) ≡ true)
unfolding build_fid
build_fid-strequiv fn ft fm fn2 ft2 fm2 h1 h2 h3 h4 e =
    let (e1, rest) =
      split_eq (name_field 8 fn) (name_field 8 ft ++ mode_field fm) (name_field 8 fn2)
        (name_field 8 ft2 ++ mode_field fm2)
        (name_field-length 8 fn ∙ sym (name_field-length 8 fn2)) e in
    let (e2, modes) =
      split_eq (name_field 8 ft) (mode_field fm) (name_field 8 ft2) (mode_field fm2)
        (name_field-length 8 ft ∙ sym (name_field-length 8 ft2)) rest in
    (
      (strequiv-upper (some fn) (some fn2)).1
          (ap some (name_field-eq 8 fn fn2 h1.0 h3.0 h1.1 h3.1 e1)),
      (strequiv-upper (some ft) (some ft2)).1
          (ap some (name_field-eq 8 ft ft2 h2.0 h4.0 h2.1 h4.1 e2)),
    )
