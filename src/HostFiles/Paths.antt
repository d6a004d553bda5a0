-- ===== src/HostFiles/Paths.antt =====
-- cms/svcnhfs.c: the texts of the requests, as the service takes them apart, and their buffers.
use nicof.Prelude.{
  ℕ, zero, suc, ◌+◌, ◌-◌, ◌*◌, ◌≤◌, ◌<◌, ◌≡◌, ◌≢◌, refl, ap, false, List, [], ◌∷◌, ◌++◌, All, map,
  take, append-nil, length, length-append, length-take, arith, ◌==◌, if◌then◌else◌,
}
use nicof.HostFiles.{
  blank, nhfs_max_path_depth, path_elems, without_last, encode_path, before_path, file_text,
  dir_text,
}

abbrev put : ℕ → List (List ℕ) → List (List ℕ)
put c [] = (c ∷ []) ∷ []
put c (w ∷ ws) = (c ∷ w) ∷ ws

-- The parts of a text between its blanks.
unfoldable pub words : List ℕ → List (List ℕ)
words [] = [] ∷ []
words (c ∷ text) = if c == blank then [] ∷ words text else put c (words text)

-- A name without a blank in it.
abbrev pub IsWord : List ℕ → Type 0
IsWord = All (λ c. c ≢ blank)

IsWord-take : (n : ℕ) (s : List ℕ) → IsWord s → IsWord (take n s)
IsWord-take zero s h = tt
IsWord-take (suc n) [] h = tt
IsWord-take (suc n) (c ∷ s) (k, h) = (k, IsWord-take n s h)

words_one : (t : List ℕ) → IsWord t → words t ≡ t ∷ []
unfolding words
words_one [] h = refl
words_one (c ∷ t) (k, h) =
    let other : (c == blank) ≡ false = ground arith in rw (other, words_one t h) refl

words_more : (t text : List ℕ) → IsWord t → words (t ++ (blank ∷ text)) ≡ t ∷ words text
unfolding words
words_more [] text h = refl
words_more (c ∷ t) text (k, h) =
    let other : (c == blank) ≡ false = ground arith in rw (other, words_more t text h) refl

take_past : (xs zs : List ℕ) (k : ℕ) → take (length xs + k) (xs ++ zs) ≡ xs ++ take k zs
take_past [] zs k = ap (λ n. take n zs) (omega arith)
take_past (x ∷ xs) zs k =
    let e : suc (length xs) + k ≡ suc (length xs + k) = omega arith in
    rw e (ap (◌∷◌ x) (take_past xs zs k))

without_last-append :
    (xs ys : List ℕ) (y : ℕ) → without_last (xs ++ (y ∷ ys)) ≡ xs ++ without_last (y ∷ ys)
unfolding without_last
without_last-append xs ys y =
    let e : length (xs ++ (y ∷ ys)) - 1 ≡ length xs + (suc (length ys) - 1) =
      omega (arith, length-append xs (y ∷ ys)) in
    rw e (take_past xs (y ∷ ys) (suc (length ys) - 1))

-- The element's blank is cut off where nothing follows.
last_word : (t : List ℕ) → IsWord t → words (without_last (t ++ (blank ∷ []))) ≡ t ∷ []
unfolding without_last
last_word t h = rw (without_last-append t [] blank, append-nil t) (words_one t h)

without_last_more :
    (c : ℕ) (ys : List ℕ) → 0 < length ys → without_last (c ∷ ys) ≡ c ∷ without_last ys
unfolding without_last
without_last_more c ys h =
    let e : length (c ∷ ys) - 1 ≡ suc (length ys - 1) = omega arith in rw e refl

path-words :
    (n : ℕ) (s : List ℕ) (elems : List (List ℕ))
    → All IsWord (s ∷ elems)
    → words (without_last (path_elems (suc n) (s ∷ elems)))
      ≡ map (take 8) (take (suc n) (s ∷ elems))
unfolding path_elems
path-words zero s elems (h, hs) = last_word (take 8 s) (IsWord-take 8 s h)
path-words (suc n) s [] (h, hs) = last_word (take 8 s) (IsWord-take 8 s h)
path-words (suc n) s (s2 ∷ elems) (h, hs) =
    let more : 0 < length (path_elems (suc n) (s2 ∷ elems)) =
      omega (arith, length-append (take 8 s2) (blank ∷ path_elems n elems)) in
    rw
      (
        without_last-append (take 8 s) (path_elems (suc n) (s2 ∷ elems)) blank,
        without_last_more blank (path_elems (suc n) (s2 ∷ elems)) more,
        words_more (take 8 s) (without_last (path_elems (suc n) (s2 ∷ elems))) (IsWord-take 8 s h),
      )
      (ap (◌∷◌ (take 8 s)) (path-words n s2 elems hs))

-- The text of a path of at least one element, whose elements have no blank in them, taken apart at
-- its blanks gives the first 10 elements, each cut to 8 characters.
pub encode_path-words :
    (s : List ℕ) (elems : List (List ℕ))
    → All IsWord (s ∷ elems)
    → words (encode_path (s ∷ elems)) ≡ map (take 8) (take nhfs_max_path_depth (s ∷ elems))
unfolding encode_path
encode_path-words s elems h = path-words 9 s elems h

path_elems-length : (n : ℕ) (elems : List (List ℕ)) → length (path_elems n elems) ≤ 9 * n
unfolding path_elems
path_elems-length zero elems = omega arith
path_elems-length (suc n) [] = omega arith
path_elems-length (suc n) (s ∷ elems) = omega (
  arith,
  length-append (take 8 s) (blank ∷ path_elems n elems),
  length-take 8 s,
  path_elems-length n elems,
)

encode_path-length : (elems : List (List ℕ)) → length (encode_path elems) ≤ 89
unfolding encode_path without_last
encode_path-length elems = omega (
  arith,
  length-take (length (path_elems nhfs_max_path_depth elems) - 1)
      (path_elems nhfs_max_path_depth elems),
  path_elems-length nhfs_max_path_depth elems,
)

before_path-length : (elems : List (List ℕ)) → length (before_path elems) ≤ 1
before_path-length [] = omega arith
before_path-length (s ∷ elems) = omega arith

-- With a file's name and type, or a directory's name, of at most 8 characters, the text of a
-- request for the file, or to create the directory, fits its buffer with the null character,
-- whatever the path.
pub request_text-fits :
    (fn ft : List ℕ) (elems : List (List ℕ))
    → length fn ≤ 8
    → length ft ≤ 8
    → (length (file_text fn ft elems) < 18 + nhfs_max_path_depth * 9)
      × (length (dir_text fn elems) < 9 + nhfs_max_path_depth * 9)
unfolding file_text dir_text
request_text-fits fn ft elems h k = (
  omega (
    arith,
    length-append fn (blank ∷ (ft ++ (before_path elems ++ encode_path elems))),
    length-append ft (before_path elems ++ encode_path elems),
    length-append (before_path elems) (encode_path elems),
    before_path-length elems,
    encode_path-length elems,
  ),
  omega (
    arith,
    length-append fn (before_path elems ++ encode_path elems),
    length-append (before_path elems) (encode_path elems),
    before_path-length elems,
    encode_path-length elems,
  ),
)
