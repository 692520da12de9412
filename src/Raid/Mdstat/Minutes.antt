-- ===== src/Raid/Mdstat/Minutes.antt =====
-- src/synology_mcp/raid.py: the seconds of a time that mdstat gives in minutes.
use synology_mcp.Base.{
  ℕ, zero, suc, ℤ, pos, negsuc, ◌+◌, ◌*◌, ◌/◌, ◌^◌, ltb, leb, true, false, if◌then◌else◌,
}
use synology_mcp.Json.{Float, finite, infinite, nan}
use synology_mcp.Errors.{Result, ok, err, ◌>>=◌, value_error, overflow_error}
use synology_mcp.Shares.{round_half_even}

-- how often `n` is halved, rounding down, until it is below 2 ^ 53; the first number bounds it
excess : ℕ → ℕ → ℕ
excess zero n = 0
excess (suc fuel) n = elim (ltb n (2 ^ 53)) [ true ↦ 0 | false ↦ suc (excess fuel (n / 2)) ]

-- the integer part of the float that is nearest to n / 2 ^ e
int_of_quotient : ℕ → ℕ → Result ℕ
unfolding excess
int_of_quotient n e =
    let k = excess n n in
    let rounded = round_half_even n k * 2 ^ k in
    if leb (2 ^ 1024 * 2 ^ e) rounded then err overflow_error else ok (rounded / 2 ^ e)

negated : ℕ → ℤ
negated zero = pos 0
negated (suc n) = negsuc n

-- `int(x * 60)`
unfoldable pub int_of_minutes : Float → Result ℤ
unfolding int_of_quotient negated
int_of_minutes (finite (pos m) e) = do n ← int_of_quotient (m * 60) e; ok (pos n)
int_of_minutes (finite (negsuc m) e) = do n ← int_of_quotient ((m + 1) * 60) e; ok (negated n)
int_of_minutes (infinite b) = err overflow_error
int_of_minutes nan = err value_error
