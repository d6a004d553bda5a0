-- ===== src/Files.antt =====
-- cms/nhfscomn.c: names and records of CMS files. The return codes of the CMS file functions, and
-- what CMSfileRead stores, are arguments. Characters are EBCDIC codes.
pub mod Names
pub mod Records
mod Tests
use nicof.Prelude.{
  ℕ, zero, suc, ◌+◌, ◌-◌, Bool, true, false, not, ◌&&◌, ◌||◌, Option, none, some, List, [], ◌∷◌,
  ◌++◌, length, overwrite, take, set, get_or, replicate, ltb, leb, ◌==◌, if◌then◌else◌,
}
use nicof.Prelude.Int.{ℤ}

abbrev pub tbl_2upr : List ℕ
tbl_2upr =
    0x00 ∷ 0x01 ∷ 0x02 ∷ 0x03 ∷ 0x04 ∷ 0x05 ∷ 0x06 ∷ 0x07 ∷ 0x08 ∷ 0x09 ∷ 0x0a ∷ 0x0b ∷ 0x0c ∷ 0x0d
    ∷ 0x0e ∷ 0x0f ∷ 0x10 ∷ 0x11 ∷ 0x12 ∷ 0x13 ∷ 0x14 ∷ 0x15 ∷ 0x16 ∷ 0x17 ∷ 0x18 ∷ 0x19 ∷ 0x1a
    ∷ 0x1b ∷ 0x1c ∷ 0x1d ∷ 0x1e ∷ 0x1f ∷ 0x20 ∷ 0x21 ∷ 0x22 ∷ 0x23 ∷ 0x24 ∷ 0x25 ∷ 0x26 ∷ 0x27
    ∷ 0x28 ∷ 0x29 ∷ 0x2a ∷ 0x2b ∷ 0x2c ∷ 0x2d ∷ 0x2e ∷ 0x2f ∷ 0x30 ∷ 0x31 ∷ 0x32 ∷ 0x33 ∷ 0x34
    ∷ 0x35 ∷ 0x36 ∷ 0x37 ∷ 0x38 ∷ 0x39 ∷ 0x3a ∷ 0x3b ∷ 0x3c ∷ 0x3d ∷ 0x3e ∷ 0x3f ∷ 0x40 ∷ 0x41
    ∷ 0x62 ∷ 0x63 ∷ 0x64 ∷ 0x65 ∷ 0x66 ∷ 0x67 ∷ 0x68 ∷ 0x69 ∷ 0x4a ∷ 0x4b ∷ 0x4c ∷ 0x4d ∷ 0x4e
    ∷ 0x4f ∷ 0x50 ∷ 0x71 ∷ 0x72 ∷ 0x73 ∷ 0x74 ∷ 0x75 ∷ 0x76 ∷ 0x77 ∷ 0x78 ∷ 0x59 ∷ 0x5a ∷ 0x5b
    ∷ 0x5c ∷ 0x5d ∷ 0x5e ∷ 0x5f ∷ 0x60 ∷ 0x61 ∷ 0x62 ∷ 0x63 ∷ 0x64 ∷ 0x65 ∷ 0x66 ∷ 0x67 ∷ 0x68
    ∷ 0x69 ∷ 0x6a ∷ 0x6b ∷ 0x6c ∷ 0x6d ∷ 0x6e ∷ 0x6f ∷ 0x80 ∷ 0x71 ∷ 0x72 ∷ 0x73 ∷ 0x74 ∷ 0x75
    ∷ 0x76 ∷ 0x77 ∷ 0x78 ∷ 0x79 ∷ 0x7a ∷ 0x7b ∷ 0x7c ∷ 0x7d ∷ 0x7e ∷ 0x7f ∷ 0x80 ∷ 0xc1 ∷ 0xc2
    ∷ 0xc3 ∷ 0xc4 ∷ 0xc5 ∷ 0xc6 ∷ 0xc7 ∷ 0xc8 ∷ 0xc9 ∷ 0x8a ∷ 0x8b ∷ 0xac ∷ 0xba ∷ 0x8e ∷ 0x8f
    ∷ 0x90 ∷ 0xd1 ∷ 0xd2 ∷ 0xd3 ∷ 0xd4 ∷ 0xd5 ∷ 0xd6 ∷ 0xd7 ∷ 0xd8 ∷ 0xd9 ∷ 0x9a ∷ 0x9b ∷ 0x9e
    ∷ 0x9d ∷ 0x9e ∷ 0x9f ∷ 0xa0 ∷ 0xa1 ∷ 0xe2 ∷ 0xe3 ∷ 0xe4 ∷ 0xe5 ∷ 0xe6 ∷ 0xe7 ∷ 0xe8 ∷ 0xe9
    ∷ 0xaa ∷ 0xab ∷ 0xac ∷ 0xad ∷ 0x8e ∷ 0xaf ∷ 0xb0 ∷ 0xb1 ∷ 0xb2 ∷ 0xb3 ∷ 0xb4 ∷ 0xb5 ∷ 0xb6
    ∷ 0xb7 ∷ 0xb8 ∷ 0xb9 ∷ 0xba ∷ 0xbb ∷ 0xbc ∷ 0xbd ∷ 0xbe ∷ 0xbf ∷ 0xc0 ∷ 0xc1 ∷ 0xc2 ∷ 0xc3
    ∷ 0xc4 ∷ 0xc5 ∷ 0xc6 ∷ 0xc7 ∷ 0xc8 ∷ 0xc9 ∷ 0xca ∷ 0xeb ∷ 0xec ∷ 0xed ∷ 0xee ∷ 0xef ∷ 0xd0
    ∷ 0xd1 ∷ 0xd2 ∷ 0xd3 ∷ 0xd4 ∷ 0xd5 ∷ 0xd6 ∷ 0xd7 ∷ 0xd8 ∷ 0xd9 ∷ 0xda ∷ 0xfb ∷ 0xfc ∷ 0xfd
    ∷ 0xfe ∷ 0xdf ∷ 0xe0 ∷ 0xe1 ∷ 0xe2 ∷ 0xe3 ∷ 0xe4 ∷ 0xe5 ∷ 0xe6 ∷ 0xe7 ∷ 0xe8 ∷ 0xe9 ∷ 0xea
    ∷ 0xeb ∷ 0xec ∷ 0xed ∷ 0xee ∷ 0xef ∷ 0xf0 ∷ 0xf1 ∷ 0xf2 ∷ 0xf3 ∷ 0xf4 ∷ 0xf5 ∷ 0xf6 ∷ 0xf7
    ∷ 0xf8 ∷ 0xf9 ∷ 0xfa ∷ 0xfb ∷ 0xfc ∷ 0xfd ∷ 0xfe ∷ 0xff ∷ []

abbrev pub toupper : ℕ → ℕ
toupper c = get_or tbl_2upr c 0

abbrev pub blank : ℕ
blank = 0x40

-- The loop of `strequiv`.
unfoldable pub same_chars : List ℕ → List ℕ → Bool
same_chars [] s2 = true
same_chars (c ∷ s1) [] = false
same_chars (c ∷ s1) (d ∷ s2) = toupper c == toupper d && same_chars s1 s2

-- `none` is NULL.
unfoldable pub strequiv : Option (List ℕ) → Option (List ℕ) → Bool
strequiv none none = true
strequiv none (some s2) = false
strequiv (some s1) none = false
strequiv (some s1) (some s2) = if not (length s1 == length s2) then false else same_chars s1 s2

-- The loops of `buildFid`: a name is filled up with blanks and cut off.
unfoldable pub name_field : ℕ → List ℕ → List ℕ
name_field zero p = []
name_field (suc n) [] = blank ∷ name_field n []
name_field (suc n) (c ∷ p) = toupper c ∷ name_field n p

-- The file mode: 'A' and '1' where they are left out, the latter not behind '*'.
unfoldable pub mode_field : List ℕ → List ℕ
mode_field [] = 0xc1 ∷ 0xf1 ∷ []
mode_field (c ∷ []) = toupper c ∷ (if toupper c == 0x5c then blank else 0xf1) ∷ []
mode_field (c ∷ d ∷ p) = toupper c ∷ toupper d ∷ []

unfoldable pub build_fid : (fn ft fm : List ℕ) → List ℕ
build_fid fn ft fm = name_field 8 fn ++ (name_field 8 ft ++ mode_field fm)

-- The static variables.
pub record Files : Type 0 where
  pub do_text : Bool
  pub do_append : Bool
  pub recfm : ℕ
  pub lrecl : ℕ
  pub is_open : Bool
  pub io_buffer : List ℕ
  pub record_num : ℕ

abbrev pub io_buffer_len : ℕ
io_buffer_len = 544

-- `f_exists`, on the return code of CMSfileState.
abbrev pub f_exists : ℕ → Bool
f_exists rc = rc == 0

-- What `openFile` returns, whether it has erased a file, and the buffer's length and the first line
-- that it has asked CMSfileOpen for.
pub record Opening : Type 0 where
  pub rc : ℕ
  pub erased : Bool
  pub asked : Option (ℕ × ℕ)

-- The end of `openFile`, from CMSfileOpen on.
unfoldable pub open_now : (for_read erased : Bool) (open_rc : ℕ) → Files → Files × Opening
open_now for_read erased open_rc s =
    let asked = some (
      if for_read then io_buffer_len - 1 else s.lrecl,
      if not for_read && s.do_append then 0 else 1,
    ) in
    if open_rc == 0 || open_rc == 28
    then (
      record s {
        is_open = true;
        record_num = if for_read then 0 else if s.do_append then 0 else 1;
      },
      record { rc = 0; erased = erased; asked = asked },
    )
    else (record s { is_open = false }, record { rc = open_rc; erased = erased; asked = asked })

abbrev pub stop : ℕ → Opening
stop rc = record { rc = rc; erased = false; asked = none }

-- openFile: CMSfileState gives `state_rc` and the record length of an existing file.
unfoldable pub open_file :
    (for_read : Bool) (state_rc info_lrecl erase_rc open_rc : ℕ) → Files → Files × Opening
open_file for_read state_rc info_lrecl erase_rc open_rc s0 =
    let s = record s0 { io_buffer = replicate io_buffer_len 0 } in
    if state_rc == 28
    then (if for_read
        then (record s { is_open = false }, stop 28)
        else open_now for_read false open_rc s)
    else if not (state_rc == 0)
    then (record s { is_open = false }, stop state_rc)
    else if not for_read && not s.do_append
    then (if not (erase_rc == 0) && not (erase_rc == 28)
        then (s, stop erase_rc)
        else open_now for_read (erase_rc == 0) open_rc s)
    else if for_read && ltb 255 info_lrecl
    then (s, stop 4)
    else open_now for_read false open_rc s

abbrev pub close_file : Files → Files
close_file s = record s { is_open = false }

-- The loop that takes the blanks at the end off; `len` is the length so far.
unfoldable pub strip_len : ℕ → List ℕ → ℕ
strip_len zero buffer = zero
strip_len (suc zero) buffer = suc zero
strip_len (suc (suc n)) buffer = elim (get_or buffer (suc n) 0 == blank) [
  | true ↦ strip_len (suc n) buffer
  | false ↦ suc (suc n)
]

-- readRecord: CMSfileRead returns `rc` and has stored the record where `rc` is 0. The result is the
-- length, and whether the file has ended.
unfoldable pub read_record : (rc : ℕ) (stored : List ℕ) → Files → Files × ℤ × Bool
read_record rc stored s0 =
    let s = record s0 { record_num = 0; io_buffer = overwrite stored s0.io_buffer } in
    let len = strip_len (length stored) s.io_buffer in
    if rc == 12
    then (s, ℤ.pos 0, true)
    else if not (rc == 0)
    then (s, ℤ.negsuc 0, false)
    else if s.do_text
    then (record s { io_buffer = set s.io_buffer len 0 }, ℤ.pos len, false)
    else (s, ℤ.pos (length stored), false)

unfoldable pub fill_from : ℕ → ℕ → ℕ → List ℕ → List ℕ
fill_from zero at fill buffer = buffer
fill_from (suc count) at fill buffer = fill_from count (at + 1) fill (set buffer at fill)

-- writeRecord up to CMSfileWrite: the buffer and the length of the record.
unfoldable pub fill_record : ℕ → Files → List ℕ × ℕ
fill_record len0 s =
    let fill = if s.do_text then blank else 0 in
    let buffer = if ltb len0 1 then set s.io_buffer 0 fill else s.io_buffer in
    let len = if ltb len0 1 then 1 else len0 in
    if s.recfm == 0xc6 && ltb len s.lrecl
    then (fill_from (s.lrecl - len) len fill buffer, s.lrecl)
    else (buffer, len)

-- writeRecord: CMSfileWrite is given the record and returns `rc`; the flag tells that it failed.
unfoldable pub write_record : (rc len : ℕ) → Files → Files × List ℕ × Bool
write_record rc len s =
    let (buffer, filled) = fill_record len s in
    let t = record s { io_buffer = buffer; record_num = 0 } in
    let written = take filled buffer in
    if rc == 4 || rc == 5 || rc == 20 || rc == 21
    then (t, written, true)
    else if rc == 10 || rc == 13 || rc == 19
    then (t, written, true)
    else if rc == 12
    then (t, written, true)
    else if not (rc == 0)
    then (t, written, true)
    else (t, written, false)
