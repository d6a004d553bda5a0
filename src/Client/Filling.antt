-- ===== src/Client/Filling.antt =====
-- cms/nicofclt.c: the data of a request, as ncf_011 and ncf_012 put them together.
use nicof.Prelude.{
  ℕ, zero, suc, ◌+◌, ◌-◌, ◌^◌, ◌≤◌, ◌<◌, ◌≡◌, ◌∙◌, refl, sym, ap, Option, none, some, List, [], ◌∷◌,
  ◌++◌, ◌↔◌, min, ◌⊎◌, inl, inr, ap₂, take_all, drop, arith, length, take, overwrite, length-take,
  length-append, take-append,
}
use nicof.Client.{
  Request, Client, max_packet_len, mid_new, rc_ok, find, on, clip, clip_lengths, set_request_data_x,
}
use nicof.Client.Phases.Find.{find-modify_self}

-- What a request then holds for its next send.
abbrev pub Filled : ℕ → List ℕ → Client → Type 0
Filled h bytes c =
    (q : Request) × (find h c.requests ≡ some q)
    × (q.data_len ≡ length bytes)
    × (take q.data_len q.buf ≡ bytes)

take_append {ℓ} :
    {A : Type ℓ} (n : ℕ) (xs ys : List A) → take n (xs ++ ys) ≡ take n xs ++ take (n - length xs) ys
take_append zero [] ys = refl
take_append zero (x ∷ xs) ys =
    let e : 0 - suc (length xs) ≡ 0 = omega arith in ap (λ k. take k ys) (sym e)
take_append (suc n) [] ys = let e : suc n - 0 ≡ suc n = omega arith in ap (λ k. take k ys) (sym e)
take_append (suc n) (x ∷ xs) ys =
    let e : suc n - suc (length xs) ≡ n - length xs = omega arith in
    rw e (ap (◌∷◌ x) (take_append n xs ys))

take_same {ℓ} :
    {A : Type ℓ} (n m : ℕ) (xs : List A)
    → (n ≡ m) ⊎ (length xs ≤ n) × (length xs ≤ m)
    → take n xs ≡ take m xs
take_same n m xs (inl e) = ap (λ k. take k xs) e
take_same n m xs (inr (h, k)) = take_all n xs h ∙ sym (take_all m xs k)

parts-eq-take :
    (len2 : ℕ) (bytes1 bytes2 : List ℕ)
    → length bytes2 ≡ len2
    → clip (length bytes1) + len2 < 2 ^ 32
    → let (l1, l2) = clip_lengths (length bytes1) len2 in
      take l1 bytes1 ++ take l2 bytes2 ≡ take max_packet_len (bytes1 ++ bytes2)
parts-eq-take len2 bytes1 bytes2 l k =
    let (l1, l2) = clip_lengths (length bytes1) len2 in
    ap₂ ◌++◌ (take_same l1 max_packet_len bytes1 (ground arith))
      (take_same l2 (max_packet_len - length bytes1) bytes2 (ground arith))
    ∙ sym (take_append max_packet_len bytes1 bytes2)

clip_lengths_sum :
    (len1 len2 : ℕ)
    → clip len1 + len2 < 2 ^ 32
    → (clip_lengths len1 len2).0 + (clip_lengths len1 len2).1 ≡ min max_packet_len (len1 + len2)
clip_lengths_sum len1 len2 k = ground arith

take-overwrite :
    (new want buf : List ℕ) (n : ℕ)
    → new ≡ want
    → n ≡ length want
    → take n (overwrite new buf) ≡ want
take-overwrite new want buf n e d = rw (e, d) (take-append want (drop (length want) buf))

-- Where the sum of the lengths fits in 32 bits, ncf_012 without translation fills a new request
-- with the bytes of the first part followed by those of the second, cut off at 2048 bytes.
pub set_request_data_x-joins :
    (h len2 : ℕ) (bytes1 bytes2 : List ℕ) (c : Client) (r : Request)
    → find h c.requests ≡ some r
    → r.msg_id ≡ mid_new
    → length bytes2 ≡ len2
    → clip (length bytes1) + len2 < 2 ^ 32
    → (d : Client) × (set_request_data_x h (length bytes1) bytes1 none len2 bytes2 none c
        ≡ some (d, rc_ok))
      × Filled h (take max_packet_len (bytes1 ++ bytes2)) d
unfolding set_request_data_x
set_request_data_x-joins h len2 bytes1 bytes2 c r e n l k = (
  on h fill c,
  ground (arith, clip_lengths_sum (length bytes1) len2 k),
  (
    fill r,
    find-modify_self h fill c.requests r (λ q. refl) e,
    total,
    take-overwrite _ _ r.buf (l1 + l2) (parts-eq-take len2 bytes1 bytes2 l k) total,
  ),
)
  where
    l1 : ℕ
    l1 = (clip_lengths (length bytes1) len2).0

    l2 : ℕ
    l2 = (clip_lengths (length bytes1) len2).1

    fill : Request → Request
    fill q = record q {
      buf = overwrite (take l1 bytes1 ++ take l2 bytes2) q.buf;
      data_len = l1 + l2;
    }

    total : l1 + l2 ≡ length (take max_packet_len (bytes1 ++ bytes2))
    total = omega (
      arith,
      clip_lengths_sum (length bytes1) len2 k,
      length-take max_packet_len (bytes1 ++ bytes2),
      length-append bytes1 bytes2,
    )

-- On a new request, for a second length that is a `uint`, ncf_012 writes behind the packet's buffer
-- exactly when the clipped first length and the second length together do not fit in 32 bits.
pub set_request_data_x-none :
    (h len1 len2 : ℕ) (bytes1 bytes2 : List ℕ) (xtab1 xtab2 : Option (ℕ → ℕ)) (c : Client)
    (r : Request)
    → find h c.requests ≡ some r
    → r.msg_id ≡ mid_new
    → len2 < 2 ^ 32
    → (set_request_data_x h len1 bytes1 xtab1 len2 bytes2 xtab2 c ≡ none)
      ↔ (2 ^ 32 ≤ clip len1 + len2)
unfolding set_request_data_x
set_request_data_x-none h len1 len2 bytes1 bytes2 xtab1 xtab2 c r e n l =
    (λ q. ground (arith), λ q. ground (arith))
