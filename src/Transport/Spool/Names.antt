-- ===== src/Transport/Spool/Names.antt =====
-- internal/transport/spool.go: the names of spool files, `%020d-%010d.jsonl.gz`, and their order.
use blackboxd.Prelude.{ℕ, zero, suc, ◌+◌, ◌/◌, ◌%◌, ◌^◌, [], ◌∷◌, ◌++◌, ltb, if◌then◌else◌}
use blackboxd.Bytes.{Bytes, bytes}

-- The last `w` decimal digits of a number.
unfoldable pub pad_digits : ℕ → ℕ → Bytes
pad_digits zero n = []
pad_digits (suc w) n = pad_digits w (n / 10) ++ ((b'0' + n % 10) ∷ [])

-- The width of a number that is printed with at least `w` digits; a `uint64` has 20 at most.
unfoldable pub width : ℕ → ℕ → ℕ → ℕ
width zero w n = w
width (suc fuel) w n = let wider = width fuel (w + 1) n in if ltb n (10 ^ w) then w else wider

-- `%0wd`.
unfoldable pub padded : ℕ → ℕ → Bytes
padded w n = pad_digits (width 20 w n) n

-- The name of a batch that is written at `now` as number `seq`.
unfoldable pub spool_name : ℕ → ℕ → Bytes
spool_name now seq = padded 20 now ++ (b'-' ∷ (padded 10 seq ++ bytes ".jsonl.gz"))
