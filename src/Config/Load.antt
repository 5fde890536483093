-- ===== src/Config/Load.antt =====
-- internal/config/load.go: `Parse`, `decodeParserOptions` and `Load`.
pub mod Loaded
pub mod Builds
use blackboxd.Prelude.{
  ◌≡◌, refl, Bool, true, false, ◌||◌, List, [], ◌∷◌, Option, none, some, Result, ok, err,
  if◌then◌else◌, ◌>>=◌, require,
}
use blackboxd.Bytes.{Bytes, bytes, equal}
use blackboxd.Bytes.Maps.{get, put, remove}
use blackboxd.Security.Modes.{check_config_mode}
use blackboxd.Config.Schema.{Config, ParserConfig}
use blackboxd.Config.Defaults.{apply_defaults}
use blackboxd.Config.Validate.{FileSystem, ConfigError, insecure, invalid, validate}

-- A key is the list of its parts. The keys under a parser's block are not unknown.
unfoldable pub is_parser_key : List Bytes → Bool
is_parser_key [] = false
is_parser_key (k ∷ []) = false
is_parser_key (k ∷ j ∷ ks) = equal k (bytes "parsers")

unfoldable pub unknown_keys : List (List Bytes) → List (List Bytes)
unknown_keys [] = []
unknown_keys (k ∷ ks) = let rest = unknown_keys ks in if is_parser_key k then rest else k ∷ rest

abbrev pub is_empty : List (List Bytes) → Bool
is_empty [] = true
is_empty (k ∷ ks) = false

-- A call that fails with a plain error.
abbrev pub or_invalid {ℓ} : {A : Type ℓ} → Option A → Result ConfigError A
or_invalid none = err invalid
or_invalid (some a) = ok a

-- What the TOML decoder gives for a text: the typed configuration with the keys that it did not
-- take, and the blocks of the parsers; and the string that a value is, if it is one.
pub record Decoder (V : Type 0) : Type 0 where
  pub decode : Bytes → Option (Config V × List (List Bytes))
  pub decode_parsers : Bytes → Option (List (Bytes × List (Bytes × V)))
  pub as_string : V → Option Bytes

module _ {V : Type 0} (toml : Decoder V) where
  abbrev string_or_empty : Option V → Bytes
  string_or_empty none = []
  string_or_empty (some v) = elim (toml.as_string v) [ none ↦ [] | some s ↦ s ]

  abbrev parser_or_zero : Option (ParserConfig V) → ParserConfig V
  parser_or_zero none = record { type = []; options = [] }
  parser_or_zero (some p) = p

  -- A round of the loop of `decodeParserOptions`, and the loop.
  unfoldable pub add_options :
      Bytes → List (Bytes × V) → List (Bytes × ParserConfig V) → List (Bytes × ParserConfig V)
  add_options name opts parsers =
      let pc = parser_or_zero (get name parsers) in
      let t = if equal pc.type [] then string_or_empty (get (bytes "type") opts) else pc.type in
      put name (record { type = t; options = remove (bytes "type") opts }) parsers

  unfoldable pub decode_parser_options :
      List (Bytes × List (Bytes × V))
      → List (Bytes × ParserConfig V)
      → List (Bytes × ParserConfig V)
  decode_parser_options [] parsers = parsers
  decode_parser_options ((name, opts) ∷ raw) parsers =
      decode_parser_options raw (add_options name opts parsers)

  -- The end of `Parse`.
  unfoldable pub finish : FileSystem → Bool → List Bytes → Config V → Result ConfigError (Config V)
  finish fs skip known c =
      let filled = apply_defaults c in validate fs skip known filled >>= λ u. ok filled

  -- `Parse`.
  unfoldable pub parse : FileSystem → Bool → List Bytes → Bytes → Result ConfigError (Config V)
  parse fs skip known text = do
    decoded ← or_invalid (toml.decode text)
    u ← require (is_empty (unknown_keys decoded.1)) invalid
    raw ← or_invalid (toml.decode_parsers text)
    let c = decoded.0
    finish fs skip known (record c { parsers = decode_parser_options raw c.parsers })

  -- `Load`, for what `os.ReadFile` returns of the path.
  unfoldable pub load :
      FileSystem
      → (Bytes → Option Bytes)
      → Bool
      → List Bytes
      → Bytes
      → Result ConfigError (Config V)
  load fs read_file skip known path = do
    u ← require (skip || check_config_mode (fs.lstat path)) insecure
    text ← or_invalid (read_file path)
    parse fs skip known text
