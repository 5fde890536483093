-- ===== src/Source/Journal/Records.antt =====
-- What `consume` makes of an export: one entry for each record.
use blackboxd.Prelude.{
  ℕ, zero, suc, ◌<◌, ◌≡◌, refl, ap, ◌∙◌, Bool, true, false, List, [], ◌∷◌, ◌++◌, All, length,
  length-append, Result, append_assoc, append-nil, arith,
}
use blackboxd.Bytes.{Bytes, equal}
use blackboxd.Bytes.Laws.{Lacks}
use blackboxd.Bytes.Text.{reads}
use blackboxd.Entry.{LogEntry, ParseError}
use blackboxd.Source.Journal.{JournalSourceConfig, collected, consume_loop, emit_records, consume}

-- A line of a record: not empty, and no newline in it.
abbrev pub IsLine : Bytes → Type 0
IsLine l = (equal l [] ≡ false) × Lacks b'\n' l

-- A record is one line at least; its text has a newline behind each.
abbrev pub IsRecord : List Bytes → Type 0
IsRecord ls = (0 < length ls) × All IsLine ls

abbrev pub record_text : List Bytes → Bytes
record_text [] = []
record_text (l ∷ ls) = l ++ (b'\n' ∷ record_text ls)

abbrev pub record_texts : List (List Bytes) → List Bytes
record_texts [] = []
record_texts (r ∷ rs) = record_text r ∷ record_texts rs

-- An export: a blank line behind each record.
abbrev pub export_text : List (List Bytes) → Bytes
export_text [] = []
export_text (r ∷ rs) = record_text r ++ (b'\n' ∷ export_text rs)

-- Its lines.
abbrev with_newlines : List Bytes → List Bytes
with_newlines [] = []
with_newlines (l ∷ ls) = (l ++ (b'\n' ∷ [])) ∷ with_newlines ls

abbrev pub export_lines : List (List Bytes) → List Bytes
export_lines [] = []
export_lines (r ∷ rs) = with_newlines r ++ ((b'\n' ∷ []) ∷ export_lines rs)

reads-line :
    (l rest : Bytes)
    → Lacks b'\n' l
    → reads (l ++ (b'\n' ∷ rest)) ≡ ((l ++ (b'\n' ∷ [])) ∷ (reads rest).0, (reads rest).1)
unfolding reads
reads-line [] rest h = refl
reads-line (c ∷ l) rest h = rw (h.0, reads-line l rest h.1) refl

onto_lines : Bytes → List Bytes × Bytes → List Bytes × Bytes
onto_lines l (ls, tail) = (l ∷ ls, tail)

reads-record :
    (r : List Bytes) (rest : Bytes)
    → All IsLine r
    → reads (record_text r ++ rest) ≡ (with_newlines r ++ (reads rest).0, (reads rest).1)
unfolding onto_lines
reads-record [] rest h = refl
reads-record (l ∷ r) rest h =
    ap reads (append_assoc l (b'\n' ∷ record_text r) rest)
    ∙ reads-line l (record_text r ++ rest) h.0.1
    ∙ ap (onto_lines (l ++ (b'\n' ∷ []))) (reads-record r rest h.1)

reads-export :
    (rs : List (List Bytes)) → All IsRecord rs → reads (export_text rs) ≡ (export_lines rs, [])
unfolding reads
reads-export [] h = refl
reads-export (r ∷ rs) h =
    reads-record r (b'\n' ∷ export_text rs) h.0.1 ∙ rw (reads-export rs h.1) refl

not_blank : (l : Bytes) → IsLine l → equal (l ++ (b'\n' ∷ [])) (b'\n' ∷ []) ≡ false
unfolding equal
not_blank [] h = absurd (ground (arith, h.0))
not_blank (c ∷ l) h = rw h.1.0 refl

collected-record : (r : List Bytes) → IsRecord r → collected (record_text r) ≡ record_text r ∷ []
collected-record [] h = absurd (omega (arith, h.0))
collected-record ([] ∷ r) h = refl
collected-record ((c ∷ l) ∷ r) h = refl

blank_line : equal (b'\n' ∷ []) (b'\n' ∷ []) ≡ true
unfolding equal
blank_line = refl

consume-lines :
    (n : ℕ) (r : List Bytes) (rs : List (List Bytes)) (buf : Bytes)
    → length (with_newlines r ++ ((b'\n' ∷ []) ∷ export_lines rs)) < n
    → All IsLine r
    → All IsRecord rs
    → consume_loop n (with_newlines r ++ ((b'\n' ∷ []) ∷ export_lines rs)) [] false buf
      ≡ (collected (buf ++ record_text r) ++ record_texts rs, true)
unfolding consume_loop
consume-lines zero r rs buf lt h k = absurd (omega arith)
consume-lines (suc zero) r rs buf lt h k =
    absurd (omega (arith, length-append (with_newlines r) ((b'\n' ∷ []) ∷ export_lines rs)))
consume-lines (suc (suc n)) [] [] buf lt h k = rw (blank_line, append-nil buf) refl
consume-lines (suc (suc n)) [] (r ∷ rs) buf lt h k =
    rw
      (
        blank_line,
        consume-lines (suc n) r rs [] (omega arith) k.0.1 k.1,
        append-nil buf,
        collected-record r k.0,
      )
      refl
consume-lines (suc (suc n)) (l ∷ r) rs buf lt h k =
    rw
      (
        not_blank l h.0,
        consume-lines (suc n) r rs (buf ++ (l ++ (b'\n' ∷ []))) (omega arith) h.1 k,
        append_assoc buf (l ++ (b'\n' ∷ [])) (record_text r),
        append_assoc l (b'\n' ∷ []) (record_text r),
      )
      refl

consume-export :
    (n : ℕ) (rs : List (List Bytes))
    → length (export_lines rs) < n
    → All IsRecord rs
    → consume_loop n (export_lines rs) [] false [] ≡ (record_texts rs, true)
unfolding consume_loop
consume-export zero rs lt h = absurd (omega arith)
consume-export (suc n) [] lt h = refl
consume-export (suc n) (r ∷ rs) lt h =
    consume-lines (suc n) r rs [] lt h.0.1 h.1 ∙ rw (collected-record r h.0) refl

module _ (parser : Bytes → Result ParseError LogEntry) (valid_string : Bytes → Bool)
    (to_valid_utf8 : Bytes → Bytes) where
  -- If a journal export is a sequence of records, each of one nonempty line at least with a
  -- newline behind each, and with a blank line behind each record, and the context is not done
  -- before its lines are read, consume emits what emitRecord makes of each record, in order, and
  -- returns nil.
  pub consume-IsRecord :
      (cfg : JournalSourceConfig) (n : ℕ) (rs : List (List Bytes))
      → All IsRecord rs
      → length (export_lines rs) < n
      → consume parser valid_string to_valid_utf8 cfg n (export_text rs) false
        ≡ (emit_records parser valid_string to_valid_utf8 cfg.name (record_texts rs), true)
  unfolding consume
  consume-IsRecord cfg n rs h lt = rw (reads-export rs h, consume-export n rs lt h) refl
