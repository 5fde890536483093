-- ===== src/Pipeline/Serialize.antt =====
-- internal/pipeline/serialize.go: a batch as gzip-compressed lines of JSON. The packages encoding/json
-- and compress/gzip are arguments.
use blackboxd.Prelude.{
  ℕ, zero, suc, ◌≤◌, ◌<◌, ◌≡◌, refl, ap, sym, List, [], ◌∷◌, ◌++◌, Option, none, some, length,
  length-append, All, arith,
}
use blackboxd.Bytes.{Bytes}
use blackboxd.Entry.{LogEntry}

-- What a decoder finds in its input: `More` says that there is nothing left, `Decode` fails, or it
-- gives an entry and the input from the next value on.
pub data Decoded : Type 0 where
  no_more bad_json : Decoded
  decoded : LogEntry → Bytes → Decoded

-- What `Encode` writes of an entry, with the newline behind it; what a gzip writer has written when
-- it is closed, and what a reader gives of that; and the decoder. `none` is an error.
pub record Codec : Type 0 where
  pub encode : LogEntry → Option Bytes
  pub gzip : Bytes → Option Bytes
  pub gunzip : Bytes → Option Bytes
  pub decode : Bytes → Decoded

module _ (codec : Codec) where
  -- The loop of `SerializeBatchJSONLGzip`.
  unfoldable pub write_line : Option Bytes → Option Bytes → Option Bytes
  write_line none later = none
  write_line (some line) none = none
  write_line (some line) (some lines) = some (line ++ lines)

  unfoldable pub encode_lines : List LogEntry → Option Bytes
  encode_lines [] = some []
  encode_lines (e ∷ batch) = write_line (codec.encode e) (encode_lines batch)

  unfoldable pub compressed : Option Bytes → Option Bytes
  compressed none = none
  compressed (some text) = codec.gzip text

  -- `SerializeBatchJSONLGzip`.
  unfoldable pub serialize_batch : List LogEntry → Option Bytes
  serialize_batch batch = compressed (encode_lines batch)

  -- The loop of `DecodeBatchJSONLGzip`, on fuel.
  unfoldable pub with_entry : LogEntry → Option (List LogEntry) → Option (List LogEntry)
  with_entry e none = none
  with_entry e (some es) = some (e ∷ es)

  unfoldable pub decode_next : Decoded → (Bytes → Option (List LogEntry)) → Option (List LogEntry)
  decode_next no_more later = some []
  decode_next bad_json later = none
  decode_next (decoded e rest) later = with_entry e (later rest)

  unfoldable pub decode_lines : ℕ → Bytes → Option (List LogEntry)
  decode_lines zero text = none
  decode_lines (suc n) text = decode_next (codec.decode text) (decode_lines n)

  unfoldable pub decode_text : Option Bytes → Option (List LogEntry)
  decode_text none = none
  decode_text (some text) = decode_lines (suc (length text)) text

  -- `DecodeBatchJSONLGzip`. A value has a byte at least, so the text is as long as fuel has to be.
  unfoldable pub decode_batch : Bytes → Option (List LogEntry)
  decode_batch payload = decode_text (codec.gunzip payload)

  -- What encoding/json and compress/gzip do: decompression undoes compression; there is no value in
  -- no input; and what was encoded of an entry is not empty, and is decoded to it in front of any input.
  pub record Inverse : Type 0 where
    pub gunzips :
        {text payload : Bytes} → codec.gzip text ≡ some payload → codec.gunzip payload ≡ some text
    pub ends : codec.decode [] ≡ no_more

  abbrev pub Rereads : LogEntry → Type 0
  Rereads e =
      (line : Bytes)
      → codec.encode e ≡ some line
      → (1 ≤ length line) × ((rest : Bytes) → codec.decode (line ++ rest) ≡ decoded e rest)

  -- A line, and what the loop makes of the later ones.
  module _ (x : LogEntry) (batch : List LogEntry) (n : ℕ) (reads : Rereads x)
      (later : (text : Bytes)
        → encode_lines batch ≡ some text
        → length text < n
        → decode_lines n text ≡ some batch) where
    decode_lines-write_line :
        (o o' : Option Bytes) {text : Bytes}
        → codec.encode x ≡ o
        → encode_lines batch ≡ o'
        → write_line o o' ≡ some text
        → length text < suc n
        → decode_lines (suc n) text ≡ some (x ∷ batch)
    unfolding write_line decode_lines decode_next with_entry
    decode_lines-write_line none o' first rest h lt = absurd (cc)
    decode_lines-write_line (some line) none first rest h lt = absurd (cc)
    decode_lines-write_line (some line) (some lines) {text} first rest h lt =
        let whole : line ++ lines ≡ text = cc in
        let (one, back) = reads line first in
        let short : length lines < n = omega (arith, length-append line lines, ap length whole) in
        rw (sym whole, back lines, later lines rest short) refl

  decode_lines-encode_lines :
      (batch : List LogEntry) (n : ℕ) {text : Bytes}
      → Inverse
      → All Rereads batch
      → encode_lines batch ≡ some text
      → length text < n
      → decode_lines n text ≡ some batch
  unfolding encode_lines decode_lines decode_next
  decode_lines-encode_lines batch zero inv h e lt = absurd (omega arith)
  decode_lines-encode_lines [] (suc n) {text} inv h e lt =
      let empty : [] ≡ text = cc in rw (sym empty, inv.ends) refl
  decode_lines-encode_lines (x ∷ batch) (suc n) inv h e lt =
      decode_lines-write_line x batch n h.0
        (λ text e' lt'. decode_lines-encode_lines batch n inv h.1 e' lt') (codec.encode x)
        (encode_lines batch) refl refl e lt

  -- If decompression undoes compression, and what is encoded of each entry of a batch is not empty
  -- and is decoded to the entry in front of any input, then a payload that SerializeBatchJSONLGzip
  -- returns for the batch is decoded to it by DecodeBatchJSONLGzip.
  pub decode_batch-serialize_batch :
      (batch : List LogEntry) (payload : Bytes)
      → Inverse
      → All Rereads batch
      → serialize_batch batch ≡ some payload
      → decode_batch payload ≡ some batch
  unfolding serialize_batch compressed decode_batch decode_text
  decode_batch-serialize_batch batch payload inv h e = go (encode_lines batch) refl e
    where
      go :
          (o : Option Bytes)
          → encode_lines batch ≡ o
          → compressed o ≡ some payload
          → decode_batch payload ≡ some batch
      go none lines made = absurd (cc)
      go (some text) lines made =
          rw (inv.gunzips made)
            (decode_lines-encode_lines batch (suc (length text)) inv h lines (omega arith))
