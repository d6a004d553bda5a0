-- ===== src/Proxy/Encoding.antt =====
-- cms/ioproxy.c: the 7-to-8 encoding of a response, against the encoder of the external proxy.
use nicof.Prelude.{
  ℕ, suc, ◌+◌, ◌*◌, ◌-◌, ◌/◌, ◌%◌, ◌<◌, ◌≡◌, ◌∙◌, refl, ap, ap₂, List, [], ◌∷◌, ◌++◌, All, arith,
  length, replicate, leb, ◌==◌, if◌then◌else◌,
}
use nicof.Proxy.Receive.{has_bit, set_high, unpack, decode}

-- RequestResponse7to8Encoded of Dialed3270HostConnector.java: `write` for each byte, then `flush`.
unfoldable pub encode_from : (encode_pos escape_mask escape_byte : ℕ) → List ℕ → List ℕ
encode_from pos mask esc [] = replicate (7 - pos) 0 ++ esc ∷ []
encode_from pos mask esc (b ∷ bs) =
    let next = if leb 128 b then esc + mask else esc in
    let full = pos + 1 == 7 in
    b % 128
    ∷ ((if full then next ∷ [] else [])
        ++ encode_from (if full then 0 else pos + 1) (if full then 64 else mask / 2)
            (if full then 0 else next) bs)

unfoldable pub encode : List ℕ → List ℕ
unfolding encode_from
encode bs = encode_from 0 64 0 bs

abbrev pub IsByte : ℕ → Type 0
IsByte b = b < 256

-- The bytes that the flush fills the last block with.
abbrev pub padding : List ℕ → ℕ
padding bs = 7 - length bs % 7

abbrev pub blocks : List ℕ → ℕ
blocks bs = length bs / 7 + 1

abbrev marks : (a b c d e f g : ℕ) → ℕ
marks a b c d e f g =
    64 * (a / 128)
    + 32 * (b / 128)
    + 16 * (c / 128)
    + 8 * (d / 128)
    + 4 * (e / 128)
    + 2 * (f / 128)
    + g / 128

abbrev block : (a b c d e f g : ℕ) → List ℕ → List ℕ
block a b c d e f g rest =
    a % 128 ∷ b % 128 ∷ c % 128 ∷ d % 128 ∷ e % 128 ∷ f % 128 ∷ g % 128 ∷ marks a b c d e f g ∷ rest

byte_back :
    (b m mask : ℕ)
    → b < 256
    → (m / mask) % 2 ≡ b / 128
    → (if has_bit mask m then set_high (b % 128) else b % 128) ≡ b
byte_back b m mask h e = ground arith

-- A block gives its seven bytes back.
decode-block :
    (a b c d e f g count : ℕ) (rest : List ℕ)
    → IsByte a
    → IsByte b
    → IsByte c
    → IsByte d
    → IsByte e
    → IsByte f
    → IsByte g
    → decode (suc count) (block a b c d e f g rest) ≡ a ∷ b ∷ c ∷ d ∷ e ∷ f ∷ g ∷ decode count rest
unfolding decode unpack
decode-block a b c d e f g count rest ha hb hc hd he hf hg =
    ap₂ ◌∷◌ (byte_back a m 64 ha (omega arith)) (
      ap₂ ◌∷◌ (byte_back b m 32 hb (omega arith)) (
        ap₂ ◌∷◌ (byte_back c m 16 hc (omega arith)) (
          ap₂ ◌∷◌ (byte_back d m 8 hd (omega arith)) (
            ap₂ ◌∷◌ (byte_back e m 4 he (omega arith)) (
              ap₂ ◌∷◌ (byte_back f m 2 hf (omega arith))
                (ap₂ ◌∷◌ (byte_back g m 1 hg (omega arith)) refl))))))
  where
    m : ℕ
    m = marks a b c d e f g

-- The escape byte after a byte.
marked : ℕ → ℕ → ℕ → ℕ
marked esc mask b = if leb 128 b then esc + mask else esc

marked_lem : (esc mask b : ℕ) → IsByte b → marked esc mask b ≡ esc + mask * (b / 128)
unfolding marked
marked_lem esc mask b h = ground arith

marks_lem :
    (a b c d e f g : ℕ)
    → IsByte a
    → IsByte b
    → IsByte c
    → IsByte d
    → IsByte e
    → IsByte f
    → IsByte g
    → marked (marked (marked (marked (marked (marked (marked 0 64 a) 32 b) 16 c) 8 d) 4 e) 2 f) 1 g
      ≡ marks a b c d e f g
marks_lem a b c d e f g ha hb hc hd he hf hg =
    let h1 = marked_lem 0 64 a ha in
    let h2 = marked_lem (marked 0 64 a) 32 b hb in
    let h3 = marked_lem (marked (marked 0 64 a) 32 b) 16 c hc in
    let h4 = marked_lem (marked (marked (marked 0 64 a) 32 b) 16 c) 8 d hd in
    let h5 = marked_lem (marked (marked (marked (marked 0 64 a) 32 b) 16 c) 8 d) 4 e he in
    let h6 =
      marked_lem (marked (marked (marked (marked (marked 0 64 a) 32 b) 16 c) 8 d) 4 e) 2 f hf in
    let h7 =
      marked_lem (marked (marked (marked (marked (marked (marked 0 64 a) 32 b) 16 c) 8 d) 4 e) 2 f)
        1 g hg in
    omega arith

encode-block :
    (a b c d e f g : ℕ) (bs : List ℕ)
    → IsByte a
    → IsByte b
    → IsByte c
    → IsByte d
    → IsByte e
    → IsByte f
    → IsByte g
    → encode (a ∷ b ∷ c ∷ d ∷ e ∷ f ∷ g ∷ bs) ≡ block a b c d e f g (encode bs)
unfolding encode encode_from marked
encode-block a b c d e f g bs ha hb hc hd he hf hg =
    ap (λ m. a % 128 ∷ b % 128 ∷ c % 128 ∷ d % 128 ∷ e % 128 ∷ f % 128 ∷ g % 128 ∷ m ∷ encode bs)
      (marks_lem a b c d e f g ha hb hc hd he hf hg)

encode_6 :
    (a b c d e f : ℕ)
    → IsByte a
    → IsByte b
    → IsByte c
    → IsByte d
    → IsByte e
    → IsByte f
    → encode (a ∷ b ∷ c ∷ d ∷ e ∷ f ∷ []) ≡ block a b c d e f 0 []
unfolding encode encode_from marked
encode_6 a b c d e f ha hb hc hd he hf =
    ap (λ m. a % 128 ∷ b % 128 ∷ c % 128 ∷ d % 128 ∷ e % 128 ∷ f % 128 ∷ 0 ∷ m ∷ [])
      (marks_lem a b c d e f 0 ha hb hc hd he hf (omega arith))

encode_5 :
    (a b c d e : ℕ)
    → IsByte a
    → IsByte b
    → IsByte c
    → IsByte d
    → IsByte e
    → encode (a ∷ b ∷ c ∷ d ∷ e ∷ []) ≡ block a b c d e 0 0 []
unfolding encode encode_from marked
encode_5 a b c d e ha hb hc hd he =
    ap (λ m. a % 128 ∷ b % 128 ∷ c % 128 ∷ d % 128 ∷ e % 128 ∷ 0 ∷ 0 ∷ m ∷ [])
      (marks_lem a b c d e 0 0 ha hb hc hd he (omega arith) (omega arith))

encode_4 :
    (a b c d : ℕ)
    → IsByte a
    → IsByte b
    → IsByte c
    → IsByte d
    → encode (a ∷ b ∷ c ∷ d ∷ []) ≡ block a b c d 0 0 0 []
unfolding encode encode_from marked
encode_4 a b c d ha hb hc hd =
    ap (λ m. a % 128 ∷ b % 128 ∷ c % 128 ∷ d % 128 ∷ 0 ∷ 0 ∷ 0 ∷ m ∷ [])
      (marks_lem a b c d 0 0 0 ha hb hc hd (omega arith) (omega arith) (omega arith))

encode_3 :
    (a b c : ℕ) → IsByte a → IsByte b → IsByte c → encode (a ∷ b ∷ c ∷ []) ≡ block a b c 0 0 0 0 []
unfolding encode encode_from marked
encode_3 a b c ha hb hc =
    ap (λ m. a % 128 ∷ b % 128 ∷ c % 128 ∷ 0 ∷ 0 ∷ 0 ∷ 0 ∷ m ∷ [])
      (marks_lem a b c 0 0 0 0 ha hb hc (omega arith) (omega arith) (omega arith) (omega arith))

encode_2 : (a b : ℕ) → IsByte a → IsByte b → encode (a ∷ b ∷ []) ≡ block a b 0 0 0 0 0 []
unfolding encode encode_from marked
encode_2 a b ha hb =
    ap (λ m. a % 128 ∷ b % 128 ∷ 0 ∷ 0 ∷ 0 ∷ 0 ∷ 0 ∷ m ∷ [])
      (marks_lem a b 0 0 0 0 0 ha hb (omega arith) (omega arith) (omega arith) (omega arith)
        (omega arith))

encode_1 : (a : ℕ) → IsByte a → encode (a ∷ []) ≡ block a 0 0 0 0 0 0 []
unfolding encode encode_from marked
encode_1 a ha =
    ap (λ m. a % 128 ∷ 0 ∷ 0 ∷ 0 ∷ 0 ∷ 0 ∷ 0 ∷ m ∷ [])
      (marks_lem a 0 0 0 0 0 0 ha (omega arith) (omega arith) (omega arith) (omega arith)
        (omega arith) (omega arith))

encode_0 : encode [] ≡ block 0 0 0 0 0 0 0 []
unfolding encode encode_from marked
encode_0 = refl

-- The decoding loop of endReceivePacket, over the blocks of 8, gives back the bytes that the
-- external proxy has encoded 7 to 8, and the zeros that fill its last block, whatever follows them.
pub decode-encode :
    (bytes rest : List ℕ)
    → All IsByte bytes
    → decode (blocks bytes) (encode bytes ++ rest) ≡ bytes ++ replicate (padding bytes) 0
unfolding decode
decode-encode [] rest h =
    rw
      (
        encode_0,
        decode-block 0 0 0 0 0 0 0 0 rest (omega arith) (omega arith) (omega arith) (omega arith)
            (omega arith) (omega arith) (omega arith),
      )
      refl
decode-encode (a ∷ []) rest (ha, _) =
    rw
      (
        encode_1 a ha,
        decode-block a 0 0 0 0 0 0 0 rest ha (omega arith) (omega arith) (omega arith) (omega arith)
            (omega arith) (omega arith),
      )
      refl
decode-encode (a ∷ b ∷ []) rest (ha, (hb, _)) =
    rw
      (
        encode_2 a b ha hb,
        decode-block a b 0 0 0 0 0 0 rest ha hb (omega arith) (omega arith) (omega arith)
            (omega arith) (omega arith),
      )
      refl
decode-encode (a ∷ b ∷ c ∷ []) rest (ha, (hb, (hc, _))) =
    rw
      (
        encode_3 a b c ha hb hc,
        decode-block a b c 0 0 0 0 0 rest ha hb hc (omega arith) (omega arith) (omega arith)
            (omega arith),
      )
      refl
decode-encode (a ∷ b ∷ c ∷ d ∷ []) rest (ha, (hb, (hc, (hd, _)))) =
    rw
      (
        encode_4 a b c d ha hb hc hd,
        decode-block a b c d 0 0 0 0 rest ha hb hc hd (omega arith) (omega arith) (omega arith),
      )
      refl
decode-encode (a ∷ b ∷ c ∷ d ∷ e ∷ []) rest (ha, (hb, (hc, (hd, (he, _))))) =
    rw
      (
        encode_5 a b c d e ha hb hc hd he,
        decode-block a b c d e 0 0 0 rest ha hb hc hd he (omega arith) (omega arith),
      )
      refl
decode-encode (a ∷ b ∷ c ∷ d ∷ e ∷ f ∷ []) rest (ha, (hb, (hc, (hd, (he, (hf, _)))))) =
    rw
      (
        encode_6 a b c d e f ha hb hc hd he hf,
        decode-block a b c d e f 0 0 rest ha hb hc hd he hf (omega arith),
      )
      refl
decode-encode (a ∷ b ∷ c ∷ d ∷ e ∷ f ∷ g ∷ bs) rest (ha, (hb, (hc, (hd, (he, (hf, (hg, h))))))) =
    let e1 = encode-block a b c d e f g bs ha hb hc hd he hf hg in
    let e2 = decode-block a b c d e f g (blocks bs) (encode bs ++ rest) ha hb hc hd he hf hg in
    let n1 : blocks (a ∷ b ∷ c ∷ d ∷ e ∷ f ∷ g ∷ bs) ≡ suc (blocks bs) = omega arith in
    let n2 : padding (a ∷ b ∷ c ∷ d ∷ e ∷ f ∷ g ∷ bs) ≡ padding bs = omega arith in
    rw (n1, n2, e1, e2, decode-encode bs rest h) refl

pub length-encode : (bytes : List ℕ) → All IsByte bytes → length (encode bytes) ≡ 8 * blocks bytes
length-encode [] h = ap length encode_0
length-encode (a ∷ []) (ha, _) = ap length (encode_1 a ha)
length-encode (a ∷ b ∷ []) (ha, (hb, _)) = ap length (encode_2 a b ha hb)
length-encode (a ∷ b ∷ c ∷ []) (ha, (hb, (hc, _))) = ap length (encode_3 a b c ha hb hc)
length-encode (a ∷ b ∷ c ∷ d ∷ []) (ha, (hb, (hc, (hd, _)))) =
    ap length (encode_4 a b c d ha hb hc hd)
length-encode (a ∷ b ∷ c ∷ d ∷ e ∷ []) (ha, (hb, (hc, (hd, (he, _))))) =
    ap length (encode_5 a b c d e ha hb hc hd he)
length-encode (a ∷ b ∷ c ∷ d ∷ e ∷ f ∷ []) (ha, (hb, (hc, (hd, (he, (hf, _)))))) =
    ap length (encode_6 a b c d e f ha hb hc hd he hf)
length-encode (a ∷ b ∷ c ∷ d ∷ e ∷ f ∷ g ∷ bs) (ha, (hb, (hc, (hd, (he, (hf, (hg, h))))))) =
    let e1 = ap length (encode-block a b c d e f g bs ha hb hc hd he hf hg) in
    e1 ∙ omega (arith, length-encode bs h)
