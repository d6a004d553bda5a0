-- ===== src/Sockets/Addresses.antt =====
-- cms/ncfsockt.c: inet_addr reads an address in text.
use nicof.Prelude.{
  ℕ, ◌+◌, ◌*◌, ◌-◌, ◌^◌, ◌/◌, ◌%◌, ◌<◌, ◌≡◌, ◌∙◌, refl, sym, ap, true, false, ◌&&◌, some, List, [],
  ◌∷◌, ◌++◌, append-nil, set, get_or, get_or-set, set-set, length, arith, ltb, leb, if◌then◌else◌,
  Bool-cases, inl, inr,
}
use nicof.Sockets.{inet_loop, inet_addr, eok}

-- The decimal digits of a number below 1000, as EBCDIC characters.
abbrev pub digits : ℕ → List ℕ
digits x =
    if ltb x 10
    then (0xf0 + x) ∷ []
    else if ltb x 100
    then (0xf0 + x / 10) ∷ (0xf0 + x % 10) ∷ []
    else (0xf0 + x / 100) ∷ (0xf0 + (x / 10) % 10) ∷ (0xf0 + x % 10) ∷ []

abbrev pub dot : ℕ
dot = 0x4b

abbrev pub dotted : (a b c d : ℕ) → List ℕ
dotted a b c d = digits a ++ (dot ∷ (digits b ++ (dot ∷ (digits c ++ (dot ∷ digits d)))))

-- One digit.
inet_loop-digit :
    (nibbles : List ℕ) (n d : ℕ) (rest : List ℕ)
    → d < 10
    → get_or nibbles n 0 * 10 + d < 256
    → inet_loop nibbles n ((0xf0 + d) ∷ rest)
      ≡ inet_loop (set nibbles n (get_or nibbles n 0 * 10 + d)) n rest
unfolding inet_loop
inet_loop-digit nibbles n d rest h fits =
    let value : 0xf0 + d - 0xf0 ≡ d = omega arith in
    let digit : (leb 0xf0 (0xf0 + d) && leb (0xf0 + d) 0xf9) ≡ true = ground arith in
    let small : ltb 255 (get_or nibbles n 0 * 10 + d) ≡ false = ground arith in
    rw (digit, inet_loop)
      (rw (value, small, inet_loop)
        (ap (λ v. inet_loop (set nibbles n (get_or nibbles n 0 * 10 + v)) n rest) value))

inet_loop-dot :
    (nibbles : List ℕ) (n : ℕ) (rest : List ℕ)
    → n < 3
    → inet_loop nibbles n (dot ∷ rest) ≡ inet_loop nibbles (n + 1) rest
unfolding inet_loop
inet_loop-dot nibbles n rest h =
    let more : leb 4 (n + 1) ≡ false = ground arith in rw (more, inet_loop) refl

first_digit :
    (nibbles : List ℕ) (n d : ℕ) (rest : List ℕ)
    → d < 10
    → get_or nibbles n 0 ≡ 0
    → inet_loop nibbles n ((0xf0 + d) ∷ rest) ≡ inet_loop (set nibbles n d) n rest
first_digit nibbles n d rest h z =
    inet_loop-digit nibbles n d rest h (omega arith)
    ∙ ap (λ v. inet_loop (set nibbles n v) n rest) (omega arith)

next_digit :
    (nibbles : List ℕ) (n v d : ℕ) (rest : List ℕ)
    → d < 10
    → n < length nibbles
    → v * 10 + d < 256
    → inet_loop (set nibbles n v) n ((0xf0 + d) ∷ rest)
      ≡ inet_loop (set nibbles n (v * 10 + d)) n rest
next_digit nibbles n v d rest h k small =
    let now = get_or-set nibbles n v 0 k in
    inet_loop-digit (set nibbles n v) n d rest h (omega (arith, now))
    ∙ ap (λ w. inet_loop (set (set nibbles n v) n (w * 10 + d)) n rest) now
    ∙ ap (λ ns. inet_loop ns n rest) (set-set nibbles n v (v * 10 + d))

-- A number in front of `rest`, where none has been read before.
inet_loop-digits :
    (nibbles : List ℕ) (n x : ℕ) (rest : List ℕ)
    → x < 256
    → n < length nibbles
    → get_or nibbles n 0 ≡ 0
    → inet_loop nibbles n (digits x ++ rest) ≡ inet_loop (set nibbles n x) n rest
inet_loop-digits nibbles n x rest h fits z = elim (Bool-cases (ltb x 10)) [
  | inl t ↦ rw t (first_digit nibbles n x rest (ground arith) z)
  | inr f ↦ elim (Bool-cases (ltb x 100)) [
    | inl t ↦
        let small : x / 10 < 10 = ground arith in
        rw (f, t)
          (first_digit nibbles n (x / 10) ((0xf0 + x % 10) ∷ rest) small z
            ∙ next_digit nibbles n (x / 10) (x % 10) rest (omega arith) fits (omega arith)
            ∙ ap (λ v. inet_loop (set nibbles n v) n rest) (omega arith))
    | inr g ↦
        rw (f, g)
          (first_digit nibbles n (x / 100) ((0xf0 + (x / 10) % 10) ∷ (0xf0 + x % 10) ∷ rest)
              (omega arith) z
            ∙ next_digit nibbles n (x / 100) ((x / 10) % 10) ((0xf0 + x % 10) ∷ rest) (omega arith)
                fits (omega arith)
            ∙ next_digit nibbles n (x / 100 * 10 + (x / 10) % 10) (x % 10) rest (omega arith) fits
                (omega arith)
            ∙ ap (λ v. inet_loop (set nibbles n v) n rest) (omega arith))
  ]
]

-- The address of four bytes in decimal, with dots between them, is read by inet_addr as the number
-- that the bytes make, without an error.
pub inet_addr-dotted :
    (a b c d : ℕ)
    → a < 256
    → b < 256
    → c < 256
    → d < 256
    → inet_addr (some (dotted a b c d)) ≡ (a * 2 ^ 24 + b * 2 ^ 16 + c * 2 ^ 8 + d, eok)
unfolding inet_addr inet_loop
inet_addr-dotted a b c d ha hb hc hd =
    let after_c = dot ∷ digits d in
    let after_b = dot ∷ (digits c ++ after_c) in
    let after_a = dot ∷ (digits b ++ after_b) in
    inet_loop-digits (0 ∷ 0 ∷ 0 ∷ 0 ∷ []) 0 a after_a ha (omega arith) refl
    ∙ inet_loop-dot (a ∷ 0 ∷ 0 ∷ 0 ∷ []) 0 (digits b ++ after_b) (omega arith)
    ∙ inet_loop-digits (a ∷ 0 ∷ 0 ∷ 0 ∷ []) 1 b after_b hb (omega arith) refl
    ∙ inet_loop-dot (a ∷ b ∷ 0 ∷ 0 ∷ []) 1 (digits c ++ after_c) (omega arith)
    ∙ inet_loop-digits (a ∷ b ∷ 0 ∷ 0 ∷ []) 2 c after_c hc (omega arith) refl
    ∙ inet_loop-dot (a ∷ b ∷ c ∷ 0 ∷ []) 2 (digits d) (omega arith)
    ∙ ap (inet_loop (a ∷ b ∷ c ∷ 0 ∷ []) 3) (sym (append-nil (digits d)))
    ∙ inet_loop-digits (a ∷ b ∷ c ∷ 0 ∷ []) 3 d [] hd (omega arith) refl
