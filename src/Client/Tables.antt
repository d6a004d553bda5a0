-- ===== src/Client/Tables.antt =====
-- cms/nicofclt.c: the code tables between EBCDIC and ISO Latin-1, and the translations with them.
use nicof.Prelude.Ranges.{holds, holds-at, same}
use nicof.Prelude.{
  ℕ, zero, suc, ◌≤◌, ◌<◌, ◌≡◌, refl, ap₂, ◌⊎◌, inl, inr, true, List, [], ◌∷◌, All, get_or, take,
  map, ◌==◌,
}

abbrev pub e2a_tab : List ℕ
e2a_tab =
    0x20 ∷ 0x20 ∷ 0x20 ∷ 0x20 ∷ 0x20 ∷ 0x20 ∷ 0x20 ∷ 0x20 ∷ 0x20 ∷ 0x20 ∷ 0x20 ∷ 0x20 ∷ 0x20 ∷ 0x0d
    ∷ 0x20 ∷ 0x20 ∷ 0x20 ∷ 0x20 ∷ 0x20 ∷ 0x20 ∷ 0x20 ∷ 0x20 ∷ 0x20 ∷ 0x20 ∷ 0x20 ∷ 0x20 ∷ 0x20
    ∷ 0x20 ∷ 0x20 ∷ 0x20 ∷ 0x20 ∷ 0x20 ∷ 0x20 ∷ 0x20 ∷ 0x20 ∷ 0x20 ∷ 0x20 ∷ 0x0a ∷ 0x20 ∷ 0x20
    ∷ 0x20 ∷ 0x20 ∷ 0x20 ∷ 0x20 ∷ 0x20 ∷ 0x20 ∷ 0x20 ∷ 0x20 ∷ 0x20 ∷ 0x20 ∷ 0x20 ∷ 0x20 ∷ 0x20
    ∷ 0x20 ∷ 0x20 ∷ 0x20 ∷ 0x20 ∷ 0x20 ∷ 0x20 ∷ 0x20 ∷ 0x20 ∷ 0x20 ∷ 0x20 ∷ 0x20 ∷ 0x20 ∷ 0xa0
    ∷ 0xe2 ∷ 0xe4 ∷ 0xe0 ∷ 0xe1 ∷ 0xe3 ∷ 0xe5 ∷ 0xe7 ∷ 0xf1 ∷ 0xa2 ∷ 0x2e ∷ 0x3c ∷ 0x28 ∷ 0x2b
    ∷ 0x7c ∷ 0x26 ∷ 0xe9 ∷ 0xea ∷ 0xeb ∷ 0xe8 ∷ 0xed ∷ 0xee ∷ 0xef ∷ 0xec ∷ 0xdf ∷ 0x21 ∷ 0x24
    ∷ 0x2a ∷ 0x29 ∷ 0x3b ∷ 0xac ∷ 0x2d ∷ 0x2f ∷ 0xc2 ∷ 0xc4 ∷ 0xc0 ∷ 0xc1 ∷ 0xc3 ∷ 0xc5 ∷ 0xc7
    ∷ 0xd1 ∷ 0xa6 ∷ 0x2c ∷ 0x25 ∷ 0x5f ∷ 0x3e ∷ 0x3f ∷ 0xf8 ∷ 0xc9 ∷ 0xca ∷ 0xcb ∷ 0xc8 ∷ 0xcd
    ∷ 0xce ∷ 0xcf ∷ 0xcc ∷ 0x60 ∷ 0x3a ∷ 0x23 ∷ 0x40 ∷ 0x27 ∷ 0x3d ∷ 0x22 ∷ 0xd8 ∷ 0x61 ∷ 0x62
    ∷ 0x63 ∷ 0x64 ∷ 0x65 ∷ 0x66 ∷ 0x67 ∷ 0x68 ∷ 0x69 ∷ 0xab ∷ 0xbb ∷ 0xf0 ∷ 0xfd ∷ 0xfe ∷ 0xb1
    ∷ 0xb0 ∷ 0x6a ∷ 0x6b ∷ 0x6c ∷ 0x6d ∷ 0x6e ∷ 0x6f ∷ 0x70 ∷ 0x71 ∷ 0x72 ∷ 0xaa ∷ 0xba ∷ 0xe6
    ∷ 0xb8 ∷ 0xc6 ∷ 0xa4 ∷ 0xb5 ∷ 0x7e ∷ 0x73 ∷ 0x74 ∷ 0x75 ∷ 0x76 ∷ 0x77 ∷ 0x78 ∷ 0x79 ∷ 0x7a
    ∷ 0xa1 ∷ 0xbf ∷ 0xd0 ∷ 0x5b ∷ 0xde ∷ 0xae ∷ 0x5e ∷ 0xa3 ∷ 0xa5 ∷ 0xb7 ∷ 0xa9 ∷ 0xa7 ∷ 0xb6
    ∷ 0xbc ∷ 0xbd ∷ 0xbe ∷ 0xdd ∷ 0xa8 ∷ 0xaf ∷ 0x5d ∷ 0xb4 ∷ 0xd7 ∷ 0x7b ∷ 0x41 ∷ 0x42 ∷ 0x43
    ∷ 0x44 ∷ 0x45 ∷ 0x46 ∷ 0x47 ∷ 0x48 ∷ 0x49 ∷ 0xad ∷ 0xf4 ∷ 0xf6 ∷ 0xf2 ∷ 0xf3 ∷ 0xf5 ∷ 0x7d
    ∷ 0x4a ∷ 0x4b ∷ 0x4c ∷ 0x4d ∷ 0x4e ∷ 0x4f ∷ 0x50 ∷ 0x51 ∷ 0x52 ∷ 0xb9 ∷ 0xfb ∷ 0xfc ∷ 0xf9
    ∷ 0xfa ∷ 0xff ∷ 0x5c ∷ 0xf7 ∷ 0x53 ∷ 0x54 ∷ 0x55 ∷ 0x56 ∷ 0x57 ∷ 0x58 ∷ 0x59 ∷ 0x5a ∷ 0xb2
    ∷ 0xd4 ∷ 0xd6 ∷ 0xd2 ∷ 0xd3 ∷ 0xd5 ∷ 0x30 ∷ 0x31 ∷ 0x32 ∷ 0x33 ∷ 0x34 ∷ 0x35 ∷ 0x36 ∷ 0x37
    ∷ 0x38 ∷ 0x39 ∷ 0xb3 ∷ 0xdb ∷ 0xdc ∷ 0xd9 ∷ 0xda ∷ 0x20 ∷ []

abbrev pub a2e_tab : List ℕ
a2e_tab =
    0x40 ∷ 0x40 ∷ 0x40 ∷ 0x40 ∷ 0x40 ∷ 0x40 ∷ 0x40 ∷ 0x40 ∷ 0x40 ∷ 0x40 ∷ 0x25 ∷ 0x40 ∷ 0x40 ∷ 0x0d
    ∷ 0x40 ∷ 0x40 ∷ 0x40 ∷ 0x40 ∷ 0x40 ∷ 0x40 ∷ 0x40 ∷ 0x40 ∷ 0x40 ∷ 0x40 ∷ 0x40 ∷ 0x40 ∷ 0x40
    ∷ 0x40 ∷ 0x40 ∷ 0x40 ∷ 0x40 ∷ 0x40 ∷ 0x40 ∷ 0x5a ∷ 0x7f ∷ 0x7b ∷ 0x5b ∷ 0x6c ∷ 0x50 ∷ 0x7d
    ∷ 0x4d ∷ 0x5d ∷ 0x5c ∷ 0x4e ∷ 0x6b ∷ 0x60 ∷ 0x4b ∷ 0x61 ∷ 0xf0 ∷ 0xf1 ∷ 0xf2 ∷ 0xf3 ∷ 0xf4
    ∷ 0xf5 ∷ 0xf6 ∷ 0xf7 ∷ 0xf8 ∷ 0xf9 ∷ 0x7a ∷ 0x5e ∷ 0x4c ∷ 0x7e ∷ 0x6e ∷ 0x6f ∷ 0x7c ∷ 0xc1
    ∷ 0xc2 ∷ 0xc3 ∷ 0xc4 ∷ 0xc5 ∷ 0xc6 ∷ 0xc7 ∷ 0xc8 ∷ 0xc9 ∷ 0xd1 ∷ 0xd2 ∷ 0xd3 ∷ 0xd4 ∷ 0xd5
    ∷ 0xd6 ∷ 0xd7 ∷ 0xd8 ∷ 0xd9 ∷ 0xe2 ∷ 0xe3 ∷ 0xe4 ∷ 0xe5 ∷ 0xe6 ∷ 0xe7 ∷ 0xe8 ∷ 0xe9 ∷ 0xad
    ∷ 0xe0 ∷ 0xbd ∷ 0xb0 ∷ 0x6d ∷ 0x79 ∷ 0x81 ∷ 0x82 ∷ 0x83 ∷ 0x84 ∷ 0x85 ∷ 0x86 ∷ 0x87 ∷ 0x88
    ∷ 0x89 ∷ 0x91 ∷ 0x92 ∷ 0x93 ∷ 0x94 ∷ 0x95 ∷ 0x96 ∷ 0x97 ∷ 0x98 ∷ 0x99 ∷ 0xa2 ∷ 0xa3 ∷ 0xa4
    ∷ 0xa5 ∷ 0xa6 ∷ 0xa7 ∷ 0xa8 ∷ 0xa9 ∷ 0xc0 ∷ 0x4f ∷ 0xd0 ∷ 0xa1 ∷ 0x40 ∷ 0x40 ∷ 0x40 ∷ 0x40
    ∷ 0x40 ∷ 0x40 ∷ 0x40 ∷ 0x40 ∷ 0x40 ∷ 0x40 ∷ 0x40 ∷ 0x40 ∷ 0x40 ∷ 0x40 ∷ 0x40 ∷ 0x40 ∷ 0x40
    ∷ 0x40 ∷ 0x40 ∷ 0x40 ∷ 0x40 ∷ 0x40 ∷ 0x40 ∷ 0x40 ∷ 0x40 ∷ 0x40 ∷ 0x40 ∷ 0x40 ∷ 0x40 ∷ 0x40
    ∷ 0x40 ∷ 0x40 ∷ 0x40 ∷ 0x41 ∷ 0xaa ∷ 0x4a ∷ 0xb1 ∷ 0x9f ∷ 0xb2 ∷ 0x6a ∷ 0xb5 ∷ 0xbb ∷ 0xb4
    ∷ 0x9a ∷ 0x8a ∷ 0x5f ∷ 0xca ∷ 0xaf ∷ 0xbc ∷ 0x90 ∷ 0x8f ∷ 0xea ∷ 0xfa ∷ 0xbe ∷ 0xa0 ∷ 0xb6
    ∷ 0xb3 ∷ 0x9d ∷ 0xda ∷ 0x9b ∷ 0x8b ∷ 0xb7 ∷ 0xb8 ∷ 0xb9 ∷ 0xab ∷ 0x64 ∷ 0x65 ∷ 0x62 ∷ 0x66
    ∷ 0x63 ∷ 0x67 ∷ 0x9e ∷ 0x68 ∷ 0x74 ∷ 0x71 ∷ 0x72 ∷ 0x73 ∷ 0x78 ∷ 0x75 ∷ 0x76 ∷ 0x77 ∷ 0xac
    ∷ 0x69 ∷ 0xed ∷ 0xee ∷ 0xeb ∷ 0xef ∷ 0xec ∷ 0xbf ∷ 0x80 ∷ 0xfd ∷ 0xfe ∷ 0xfb ∷ 0xfc ∷ 0xba
    ∷ 0xae ∷ 0x59 ∷ 0x44 ∷ 0x45 ∷ 0x42 ∷ 0x46 ∷ 0x43 ∷ 0x47 ∷ 0x9c ∷ 0x48 ∷ 0x54 ∷ 0x51 ∷ 0x52
    ∷ 0x53 ∷ 0x58 ∷ 0x55 ∷ 0x56 ∷ 0x57 ∷ 0x8c ∷ 0x49 ∷ 0xcd ∷ 0xce ∷ 0xcb ∷ 0xcf ∷ 0xcc ∷ 0xe1
    ∷ 0x70 ∷ 0xdd ∷ 0xde ∷ 0xdb ∷ 0xdc ∷ 0x8d ∷ 0x8e ∷ 0xdf ∷ []

-- The entry of a table of 256 characters.
abbrev pub entry : List ℕ → ℕ → ℕ
entry table c = get_or table c 0

-- nicofclt_ebcdic2ascii
unfoldable pub ebcdic2ascii : List ℕ → ℕ → List ℕ
ebcdic2ascii src length = map (entry e2a_tab) (take length src)

-- nicofclt_ascii2ebcdic
unfoldable pub ascii2ebcdic : List ℕ → ℕ → List ℕ
ascii2ebcdic src length = map (entry a2e_tab) (take length src)

-- The characters of ISO Latin-1 that show, in ASCII and above.
abbrev pub IsLatin : ℕ → Type 0
IsLatin c = (32 ≤ c) × (c < 127) ⊎ (160 ≤ c) × (c < 256)

-- The characters of EBCDIC that show.
abbrev pub IsEbcdic : ℕ → Type 0
IsEbcdic c = (64 ≤ c) × (c < 255)

low_holds : holds (λ c. entry e2a_tab (entry a2e_tab c) == c) 32 95 ≡ true
unfolding holds
low_holds = refl

high_holds : holds (λ c. entry e2a_tab (entry a2e_tab c) == c) 160 96 ≡ true
unfolding holds
high_holds = refl

ebcdic_holds : holds (λ c. entry a2e_tab (entry e2a_tab c) == c) 64 191 ≡ true
unfolding holds
ebcdic_holds = refl

latin_back : (c : ℕ) → IsLatin c → entry e2a_tab (entry a2e_tab c) ≡ c
latin_back c (inl (lo, hi)) =
    same _ _ (holds-at (λ x. entry e2a_tab (entry a2e_tab x) == x) 95 32 c low_holds lo hi)
latin_back c (inr (lo, hi)) =
    same _ _ (holds-at (λ x. entry e2a_tab (entry a2e_tab x) == x) 96 160 c high_holds lo hi)

ebcdic_back : (c : ℕ) → IsEbcdic c → entry a2e_tab (entry e2a_tab c) ≡ c
ebcdic_back c (lo, hi) =
    same _ _ (holds-at (λ x. entry a2e_tab (entry e2a_tab x) == x) 191 64 c ebcdic_holds lo hi)

-- A text that one table translates and the other back.
translated_back :
    (there back : List ℕ) (P : ℕ → Type 0)
    → ((c : ℕ) → P c → entry back (entry there c) ≡ c)
    → (text : List ℕ) (n : ℕ) → All P text
    → map (entry back) (take n (map (entry there) (take n text))) ≡ take n text
translated_back there back P h text zero a = refl
translated_back there back P h [] (suc n) a = refl
translated_back there back P h (c ∷ text) (suc n) (k, a) =
    ap₂ ◌∷◌ (h c k) (translated_back there back P h text n a)

-- A text of EBCDIC characters from 0x40 to 0xfe that nicofclt_ebcdic2ascii translates, and a text
-- of ISO Latin-1 characters that show that nicofclt_ascii2ebcdic translates, are what they were
-- after the other translation.
pub translations_back :
    (ebcdic latin : List ℕ) (n : ℕ)
    → All IsEbcdic ebcdic
    → All IsLatin latin
    → (ascii2ebcdic (ebcdic2ascii ebcdic n) n ≡ take n ebcdic)
      × (ebcdic2ascii (ascii2ebcdic latin n) n ≡ take n latin)
unfolding ebcdic2ascii ascii2ebcdic
translations_back ebcdic latin n he hl = (
  translated_back e2a_tab a2e_tab IsEbcdic ebcdic_back ebcdic n he,
  translated_back a2e_tab e2a_tab IsLatin latin_back latin n hl,
)
