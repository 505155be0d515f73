-- ===== src/Prelude/Uuid.antt =====
-- `str(uuid)`: 32 hexadecimal digits in groups of 8, 4, 4, 4 and 12.
use Prim.Native.Nat.{ℕ, zero, suc, ◌+◌, ◌/◌, ◌%◌, ◌^◌}
use Prim.Native.String.{String, slice, ◌++◌}

hex : ℕ → ℕ → String
hex zero n = ""
hex (suc width) n =
    let digit = n % 16 in hex width (n / 16) ++ slice "0123456789abcdef" digit (digit + 1)

unfoldable pub uuid_text : ℕ → String
unfolding hex
uuid_text n =
    hex 8 (n / 16 ^ 24)
    ++ "-"
    ++ hex 4 (n / 16 ^ 20)
    ++ "-"
    ++ hex 4 (n / 16 ^ 16)
    ++ "-"
    ++ hex 4 (n / 16 ^ 12)
    ++ "-"
    ++ hex 12 n
