-- ===== src/Security/Pin.antt =====
-- internal/security/pin.go: SHA-256 pins, written in hexadecimal with or without colons.
use blackboxd.Prelude.{
  ℕ, ◌+◌, ◌-◌, ◌*◌, ◌/◌, ◌%◌, ◌<◌, ◌≡◌, refl, ap, Bool, false, ◌||◌, ◌&&◌, [], ◌∷◌, Option, none,
  some, Result, ok, err, leb, ltb, ◌==◌, if◌then◌else◌, length, All, arith,
}
use blackboxd.Bytes.{Bytes, equal}
use blackboxd.Security.Paths.{Insecure, insecure}

-- The characters that the `strings.Map` call drops.
unfoldable pub is_separator : ℕ → Bool
is_separator c = (c == b':') || (c == b' ') || (c == b'\t') || (c == b'\n') || (c == b'\r')

unfoldable pub strip_separators : Bytes → Bytes
strip_separators [] = []
strip_separators (c ∷ cs) =
    let rest = strip_separators cs in if is_separator c then rest else c ∷ rest

-- `strings.ToLower`, as far as ASCII goes: no other character becomes a hexadecimal digit.
unfoldable pub to_lower : ℕ → ℕ
to_lower c = if leb b'A' c && leb c b'Z' then c + 32 else c

unfoldable pub hex_value : ℕ → Option ℕ
hex_value c =
    if leb b'0' c && leb c b'9'
    then some (c - b'0')
    else if leb b'a' c && leb c b'f'
    then some (c - b'a' + 10)
    else none

-- `hex.DecodeString`.
unfoldable pub decode_pair : Option ℕ → Option ℕ → Option Bytes → Option Bytes
decode_pair (some h) (some l) (some bs) = some ((h * 16 + l) ∷ bs)
decode_pair _ _ _ = none

unfoldable pub decode_hex : Bytes → Option Bytes
decode_hex [] = some []
decode_hex (c ∷ []) = none
decode_hex (c ∷ d ∷ cs) =
    decode_pair (hex_value (to_lower c)) (hex_value (to_lower d)) (decode_hex cs)

abbrev pub pin_size : ℕ
pin_size = 32

-- `ParsePin`.
unfoldable pub parse_pin : Bytes → Result Insecure Bytes
parse_pin s = if equal s [] then err insecure else elim (decode_hex (strip_separators s)) [
  | none ↦ err insecure
  | some b ↦ if length b == pin_size then ok b else err insecure
]

-- The form that openssl prints: two upper-case digits for each byte, with colons between.
abbrev pub upper_digit : ℕ → ℕ
upper_digit d = if ltb d 10 then b'0' + d else b'A' + (d - 10)

abbrev pub fingerprint : Bytes → Bytes
fingerprint [] = []
fingerprint (b ∷ []) = upper_digit (b / 16) ∷ upper_digit (b % 16) ∷ []
fingerprint (b ∷ c ∷ bs) = upper_digit (b / 16) ∷ upper_digit (b % 16) ∷ b':' ∷ fingerprint (c ∷ bs)

upper_digit_value : (d : ℕ) → d < 16 → hex_value (to_lower (upper_digit d)) ≡ some d
unfolding hex_value to_lower
upper_digit_value d h = ground arith

upper_digit_kept : (d : ℕ) → d < 16 → is_separator (upper_digit d) ≡ false
unfolding is_separator
upper_digit_kept d h = ground arith

strip-fingerprint_step :
    (b : ℕ) (rest : Bytes)
    → b < 256
    → strip_separators (upper_digit (b / 16) ∷ upper_digit (b % 16) ∷ rest)
      ≡ upper_digit (b / 16) ∷ upper_digit (b % 16) ∷ strip_separators rest
unfolding strip_separators
strip-fingerprint_step b rest h =
    rw (upper_digit_kept (b / 16) (omega arith), upper_digit_kept (b % 16) (omega arith)) refl

decode_hex_step :
    (b : ℕ) (rest bs : Bytes)
    → b < 256
    → decode_hex rest ≡ some bs
    → decode_hex (upper_digit (b / 16) ∷ upper_digit (b % 16) ∷ rest) ≡ some (b ∷ bs)
unfolding decode_hex decode_pair
decode_hex_step b rest bs h e =
    rw (upper_digit_value (b / 16) (omega arith), upper_digit_value (b % 16) (omega arith), e)
      (ap (λ n. some (n ∷ bs)) (omega arith))

-- The digits that are left of a fingerprint stand for its bytes.
decode_hex-fingerprint :
    (bs : Bytes) → All (λ b. b < 256) bs → decode_hex (strip_separators (fingerprint bs)) ≡ some bs
unfolding strip_separators decode_hex is_separator
decode_hex-fingerprint [] h = refl
decode_hex-fingerprint (b ∷ []) h =
    rw (strip-fingerprint_step b [] h.0) (decode_hex_step b [] [] h.0 refl)
decode_hex-fingerprint (b ∷ c ∷ bs) h =
    rw (strip-fingerprint_step b (b':' ∷ fingerprint (c ∷ bs)) h.0)
      (decode_hex_step b _ (c ∷ bs) h.0 (decode_hex-fingerprint (c ∷ bs) h.1))

fingerprint_some : (bs : Bytes) → 0 < length bs → equal (fingerprint bs) [] ≡ false
unfolding equal
fingerprint_some [] h = absurd (omega arith)
fingerprint_some (b ∷ []) h = refl
fingerprint_some (b ∷ c ∷ bs) h = refl

-- A fingerprint of 32 bytes in upper-case hexadecimal with colons between the bytes is parsed to
-- these bytes.
pub parse_pin-fingerprint :
    (bs : Bytes) → All (λ b. b < 256) bs → length bs ≡ 32 → parse_pin (fingerprint bs) ≡ ok bs
unfolding parse_pin
parse_pin-fingerprint bs h n =
    rw (fingerprint_some bs (omega (arith, n)), decode_hex-fingerprint bs h, n) refl
