-- ===== src/Files/Tests.antt =====
-- cms/nhfscomn.c: names and records at concrete inputs.
use nicof.Prelude.{ℕ, ◌≡◌, refl, true, false, some, List, [], ◌∷◌, arith, replicate, take}
use nicof.Prelude.Int.{ℤ}
use nicof.Files.{Files, strequiv, build_fid, name_field, mode_field, read_record, write_record}
use nicof.Files.Names.{IsName, build_fid-strequiv}
use nicof.Files.Records.{write_record-read_record}

-- "ab" and "AB".
abbrev lower_ab : List ℕ
lower_ab = 0x81 ∷ 0x82 ∷ []

abbrev upper_ab : List ℕ
upper_ab = 0xc1 ∷ 0xc2 ∷ []

lower-IsName : IsName lower_ab
lower-IsName = (omega arith, ((λ e. omega arith), ((λ e. omega arith), tt)))

upper-IsName : IsName upper_ab
upper-IsName = (omega arith, ((λ e. omega arith), ((λ e. omega arith), tt)))

build_fid-strequiv_example :
    (strequiv (some lower_ab) (some upper_ab) ≡ true)
    × (strequiv (some upper_ab) (some lower_ab) ≡ true)
unfolding build_fid name_field mode_field
build_fid-strequiv_example =
    build_fid-strequiv lower_ab upper_ab [] upper_ab lower_ab (0xc1 ∷ []) lower-IsName upper-IsName
      upper-IsName lower-IsName refl

-- A file of fixed records of 10 bytes, with `bytes` in the buffer.
abbrev files : List ℕ → Files
files bytes = record {
  do_text = true;
  do_append = false;
  recfm = 0xc6;
  lrecl = 10;
  is_open = true;
  io_buffer = bytes;
  record_num = 1;
}

write_record-read_record_example :
    (u : Files) × (v : Files) × (written : List ℕ) × (write_record 0 2
        (files (0x81 ∷ 0x82 ∷ replicate 542 7))
      ≡ (u, written, false))
    × (read_record 0 written (files (replicate 544 9)) ≡ (v, ℤ.pos 2, false))
    × (take 2 v.io_buffer ≡ 0x81 ∷ 0x82 ∷ [])
write_record-read_record_example =
    write_record-read_record (files (0x81 ∷ 0x82 ∷ replicate 542 7)) (files (replicate 544 9))
      (0x81 ∷ []) (replicate 542 7) 0x82 refl refl (λ e. omega arith) refl (omega arith)
      (omega arith) refl
