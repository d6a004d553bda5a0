-- ===== src/Files/Records.antt =====
-- cms/nhfscomn.c: a line of text that is written as a record and read back; the opening of a file.
use nicof.Prelude.{
  ℕ, zero, suc, ◌+◌, ◌-◌, ◌≤◌, ◌<◌, ◌≡◌, ◌≢◌, ◌∙◌, refl, sym, ap, subst, Bool, true, false, ◌&&◌,
  List, [], ◌∷◌, ◌++◌, length, length-append, append_assoc, append-nil, overwrite, take, drop, set,
  get_or, replicate, take-append, take-set, length-set, get_or-append, get_or-replicate,
  take-set_same, length-replicate, arith, ltb, ◌==◌, Bool-cases, inl, inr,
}
use nicof.Prelude.Int.{ℤ}
use nicof.Files.{
  Files, blank, io_buffer_len, strip_len, read_record, fill_from, fill_record, write_record,
  open_file, open_now,
}

take-fill_from :
    (count at fill : ℕ) (buffer : List ℕ)
    → at + count ≤ length buffer
    → take (at + count) (fill_from count at fill buffer) ≡ take at buffer ++ replicate count fill
unfolding fill_from
take-fill_from zero at fill buffer h =
    ap (λ n. take n buffer) (omega arith) ∙ sym (append-nil (take at buffer))
take-fill_from (suc count) at fill buffer h =
    let e : at + suc count ≡ at + 1 + count = omega arith in
    rw e (
      take-fill_from count (at + 1) fill (set buffer at fill)
        (omega (arith, length-set buffer at fill))
      ∙ ap (λ xs. xs ++ replicate count fill) (take-set at buffer fill (omega arith))
      ∙ append_assoc (take at buffer) (fill ∷ []) (replicate count fill))

-- A line of text becomes itself and blanks, which fit the buffer.
fill_record-text :
    (s : Files) (line after : List ℕ)
    → s.do_text ≡ true
    → 0 < length line
    → s.io_buffer ≡ line ++ after
    → length line < io_buffer_len
    → s.lrecl < io_buffer_len
    → length s.io_buffer ≡ io_buffer_len
    → (k : ℕ) × (take (fill_record (length line) s).1 (fill_record (length line) s).0
        ≡ line ++ replicate k blank)
      × (length line + k < io_buffer_len)
unfolding fill_record
fill_record-text s line after text some_text held fits room whole =
    let long : ltb (length line) 1 ≡ false = ground arith in
    let shown : take (length line) s.io_buffer ≡ line = rw held (take-append line after) in
    rw (long, text)
      (elim (Bool-cases (s.recfm == 0xc6 && ltb (length line) s.lrecl)) [
        | inl t ↦
            let short : length line < s.lrecl = ground arith in
            let e : s.lrecl ≡ length line + (s.lrecl - length line) = omega arith in
            rw t (
              s.lrecl - length line,
              subst
                  (λ n.
                    take n (fill_from (s.lrecl - length line) (length line) blank s.io_buffer)
                    ≡ line ++ replicate (s.lrecl - length line) blank)
                  (sym e)
                  (take-fill_from (s.lrecl - length line) (length line) blank s.io_buffer
                      (omega arith)
                    ∙ ap (λ xs. xs ++ replicate (s.lrecl - length line) blank) shown),
              omega arith,
            )
        | inr f ↦ rw f (0, shown ∙ sym (append-nil line), omega arith)
      ])

strip_len-blanks :
    (k n : ℕ) (buffer : List ℕ)
    → get_or buffer n 0 ≢ blank
    → ((j : ℕ) → j < k → get_or buffer (suc (n + j)) 0 ≡ blank)
    → strip_len (suc (n + k)) buffer ≡ suc n
unfolding strip_len
strip_len-blanks zero zero buffer h b = refl
strip_len-blanks zero (suc n) buffer h b =
    let e : suc n + 0 ≡ suc n = omega arith in
    let full : (get_or buffer (suc n) 0 == blank) ≡ false = ground arith in
    rw (e, full, strip_len) refl
strip_len-blanks (suc k) n buffer h b =
    let e : n + suc k ≡ suc (n + k) = omega arith in
    let empty : (get_or buffer (suc (n + k)) 0 == blank) ≡ true =
      ground (arith, b k (omega arith)) in
    rw (e, empty, strip_len) (strip_len-blanks k n buffer h (λ j less. b j (omega arith)))

-- What CMSfileRead has stored: a line that ends with `c`, blanks, and what stood there before.
strip_len-stored :
    (begin rest : List ℕ) (c k : ℕ)
    → c ≢ blank
    → strip_len
        (length ((begin ++ c ∷ []) ++ replicate k blank))
        (((begin ++ c ∷ []) ++ replicate k blank) ++ rest)
      ≡ length (begin ++ c ∷ [])
strip_len-stored begin rest c k h =
    let size : length ((begin ++ c ∷ []) ++ replicate k blank) ≡ suc (length begin + k) = omega (
      arith,
      length-append (begin ++ c ∷ []) (replicate k blank),
      length-append begin (c ∷ []),
      length-replicate k blank,
    ) in
    let all =
      append_assoc (begin ++ c ∷ []) (replicate k blank) rest
      ∙ append_assoc begin (c ∷ []) (replicate k blank ++ rest) in
    rw (size, all)
      (strip_len-blanks k (length begin) (begin ++ (c ∷ (replicate k blank ++ rest)))
          (λ e. h (
            sym (at_end 0)
            ∙ ap (λ i. get_or (begin ++ (c ∷ (replicate k blank ++ rest))) i 0) (omega arith)
            ∙ e))
          (λ j less.
            ap (λ i. get_or (begin ++ (c ∷ (replicate k blank ++ rest))) i 0) (omega arith)
            ∙ at_end (suc j)
            ∙ get_or-replicate k j blank 0 rest less)
        ∙ omega (arith, length-append begin (c ∷ [])))
  where
    at_end :
        (i : ℕ)
        → get_or (begin ++ (c ∷ (replicate k blank ++ rest))) (length begin + i) 0
          ≡ get_or (c ∷ (replicate k blank ++ rest)) i 0
    at_end i = get_or-append begin (c ∷ (replicate k blank ++ rest)) i 0

-- A line of text that ends with a character other than a blank and is shorter than the buffer,
-- written as a record of either format with a record length below that of the buffer, where
-- CMSfileWrite returns 0, is written without failure, and the record that is written is read back,
-- into any buffer, as that line with its length.
pub write_record-read_record :
    (s t : Files) (begin after : List ℕ) (c : ℕ)
    → s.do_text ≡ true
    → t.do_text ≡ true
    → c ≢ blank
    → s.io_buffer ≡ (begin ++ c ∷ []) ++ after
    → length (begin ++ c ∷ []) < io_buffer_len
    → s.lrecl < io_buffer_len
    → length s.io_buffer ≡ io_buffer_len
    → (u : Files) × (v : Files) × (written : List ℕ) × (write_record 0 (length (begin ++ c ∷ [])) s
        ≡ (u, written, false))
      × (read_record 0 written t ≡ (v, ℤ.pos (length (begin ++ c ∷ [])), false))
      × (take (length (begin ++ c ∷ [])) v.io_buffer ≡ begin ++ c ∷ [])
unfolding write_record read_record
write_record-read_record s t begin after c text_s text_t h held fits room whole =
    let (k, written, short) =
      fill_record-text s line after text_s (omega (arith, length-append begin (c ∷ []))) held fits
        room whole in
    let stripped =
      strip_len-stored begin (drop (length (line ++ replicate k blank)) t.io_buffer) c k h in
    (
      record s { io_buffer = filled.0; record_num = 0 },
      record t {
        record_num = 0;
        io_buffer = set (overwrite (line ++ replicate k blank) t.io_buffer) (length line) 0;
      },
      take filled.1 filled.0,
      refl,
      rw (written, text_t, stripped) refl,
      take-set_same (length line) (overwrite (line ++ replicate k blank) t.io_buffer) 0
          ∙ ap (take (length line)) (
              append_assoc line (replicate k blank)
                (drop (length (line ++ replicate k blank)) t.io_buffer))
          ∙ take-append line _,
    )
  where
    line : List ℕ
    line = begin ++ c ∷ []

    filled : List ℕ × ℕ
    filled = fill_record (length line) s

-- Where openFile erases a file, that file exists and is opened for writing, and not to append.
pub open_file-erases :
    (for_read : Bool) (state_rc info_lrecl erase_rc open_rc : ℕ) (s : Files)
    → (open_file for_read state_rc info_lrecl erase_rc open_rc s).1.erased ≡ true
    → (for_read ≡ false) × (s.do_append ≡ false) × (state_rc ≡ 0)
unfolding open_file open_now
open_file-erases for_read state_rc info_lrecl erase_rc open_rc s e = ground arith
