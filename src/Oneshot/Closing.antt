-- ===== src/Oneshot/Closing.antt =====
-- internal/oneshot/oneshot.go: `OpenOutput`, and the closing of what it opened.
use blackboxd.Prelude.{
  ◌≡◌, refl, sym, inl, inr, Bool, true, false, ◌||◌, List, [], ◌∷◌, ◌++◌, map, Option, none, some,
  if◌then◌else◌, Bool-cases, ap, append-nil, append_assoc, some_unique, none_or_some,
}
use blackboxd.Bytes.{Bytes, bytes, equal}

-- The closers: the gzip writer, and the file.
pub data Closer : Type 0 where
  gzip_writer output_file : Closer

-- What is written to: standard output or a file, behind a gzip writer or not; and what
-- `writerCloser` closes. The buffered writer stands in front of it all.
pub record Output : Type 0 where
  pub file : Option Bytes
  pub zipped : Bool
  pub closers : List Closer

unfoldable pub zip_output : Bool → Output → Output
zip_output true out = record out { zipped = true; closers = gzip_writer ∷ out.closers }
zip_output false out = out

-- `OpenOutput`; `opens` says which files can be opened, `none` is the error.
unfoldable pub open_output : (Bytes → Bool) → Bytes → Bool → Option Output
open_output opens path use_gzip =
    if equal path [] || equal path (bytes "-")
    then some (zip_output use_gzip (record { file = none; zipped = false; closers = [] }))
    else if opens path
    then some (
        zip_output use_gzip
          (record { file = some path; zipped = false; closers = output_file ∷ [] }))
    else none

-- The calls of `writerCloser.Close`.
pub data Call : Type 0 where
  flushing : Call
  closing : Closer → Call

unfoldable pub first_of : Option Call → Bool → Call → Option Call
first_of (some c) fails call = some c
first_of none fails call = if fails then some call else none

-- The loop over the closers, with the calls made so far and the first one that failed.
unfoldable pub close_loop :
    (Call → Bool) → List Closer → List Call → Option Call → List Call × Option Call
close_loop fails [] calls first = (calls, first)
close_loop fails (c ∷ cs) calls first =
    close_loop fails cs (calls ++ (closing c ∷ [])) (first_of first (fails (closing c)) (closing c))

-- `writerCloser.Close`: the calls that it makes, in order, and the one whose error it returns.
unfoldable pub close_output : (Call → Bool) → Output → List Call × Option Call
close_output fails out =
    close_loop fails out.closers (flushing ∷ []) (first_of none (fails flushing) flushing)

-- The first call of a list that fails.
abbrev pub first_failing : (Call → Bool) → List Call → Option Call
first_failing fails [] = none
first_failing fails (c ∷ cs) = if fails c then some c else first_failing fails cs

-- What has to happen to the bytes, from the front to the back: the buffer, the gzip writer, the file.
abbrev pub zip_calls : Bool → List Call → List Call
zip_calls true cs = closing gzip_writer ∷ cs
zip_calls false cs = cs

abbrev pub file_calls : Option Bytes → List Call
file_calls none = []
file_calls (some path) = closing output_file ∷ []

abbrev pub calls_for : Output → List Call
calls_for out = flushing ∷ zip_calls out.zipped (file_calls out.file)

abbrev or_first : Option Call → Option Call → Option Call
or_first none later = later
or_first (some c) later = some c

close_loop_lem :
    (fails : Call → Bool) (cs : List Closer) (calls : List Call) (first : Option Call)
    → close_loop fails cs calls first
      ≡ (calls ++ map closing cs, or_first first (first_failing fails (map closing cs)))
unfolding close_loop first_of
close_loop_lem fails [] calls none = rw append-nil refl
close_loop_lem fails [] calls (some c) = rw append-nil refl
close_loop_lem fails (c ∷ cs) calls (some d) =
    rw (close_loop_lem fails cs (calls ++ (closing c ∷ [])) (some d), append_assoc) refl
close_loop_lem fails (c ∷ cs) calls none = elim (Bool-cases (fails (closing c))) [
  | inl bad ↦
      rw (bad, close_loop_lem fails cs (calls ++ (closing c ∷ [])) (some (closing c)), append_assoc)
        refl
  | inr good ↦
      rw (good, close_loop_lem fails cs (calls ++ (closing c ∷ [])) none, append_assoc) refl
]

close_output_lem :
    (fails : Call → Bool) (out : Output)
    → map closing out.closers ≡ zip_calls out.zipped (file_calls out.file)
    → close_output fails out ≡ (calls_for out, first_failing fails (calls_for out))
unfolding close_output first_of
close_output_lem fails out h = elim (Bool-cases (fails flushing)) [
  | inl bad ↦ rw (bad, close_loop_lem fails out.closers (flushing ∷ []) (some flushing), h) refl
  | inr good ↦ rw (good, close_loop_lem fails out.closers (flushing ∷ []) none, h) refl
]

-- The output that is made of a target that has no gzip writer yet.
zip_output_lem :
    (fails : Call → Bool) (use_gzip : Bool) (file : Option Bytes) (closers : List Closer)
    → map closing closers ≡ file_calls file
    → let out = zip_output use_gzip (record { file = file; zipped = false; closers = closers }) in
      (out.zipped ≡ use_gzip)
      × (out.file ≡ file)
      × (close_output fails out ≡ (calls_for out, first_failing fails (calls_for out)))
unfolding zip_output
zip_output_lem fails true file closers h =
    (refl, refl, close_output_lem fails _ (ap (◌∷◌ (closing gzip_writer)) h))
zip_output_lem fails false file closers h = (refl, refl, close_output_lem fails _ h)

-- An output that OpenOutput returns writes to standard output exactly if its path is empty or a
-- dash. Its Close flushes the buffer, then closes the gzip writer if there is one, then the file
-- if there is one, all of them whichever fail, and returns the error of the first one that fails;
-- it never closes standard output.
pub close_output-open_output :
    (opens : Bytes → Bool) (path : Bytes) (use_gzip : Bool) (out : Output) (fails : Call → Bool)
    → open_output opens path use_gzip ≡ some out
    → (out.zipped ≡ use_gzip)
      × (out.file ≡ (if equal path [] || equal path (bytes "-") then none else some path))
      × (close_output fails out ≡ (calls_for out, first_failing fails (calls_for out)))
unfolding open_output
close_output-open_output opens path use_gzip out fails h =
    elim (Bool-cases (equal path [] || equal path (bytes "-"))) [
      | inl std ↦
          let same : zip_output use_gzip (record { file = none; zipped = false; closers = [] })
              ≡ out =
            some_unique (rw std refl) h in
          rw (std, sym same) (zip_output_lem fails use_gzip none [] refl)
      | inr named ↦ elim (Bool-cases (opens path)) [
        | inl there ↦
            let target : Output = record {
              file = some path;
              zipped = false;
              closers = output_file ∷ [];
            } in
            let same : zip_output use_gzip target ≡ out = some_unique (rw (named, there) refl) h in
            rw (named, sym same) (zip_output_lem fails use_gzip (some path) (output_file ∷ []) refl)
        | inr refused ↦ absurd (none_or_some (rw (named, refused) refl) h)
      ]
    ]
