-- ===== src/Common/Dates.antt =====
-- `new Date(ms).toISOString()`, for times from 1970 to the year 9999.
use Prim.Native.Nat.{ℕ, zero, suc, ◌+◌, ◌-◌, ◌*◌, ◌/◌, ◌%◌}
use Prim.Native.String.{String}
use shareframe_board.Common.Tests.{ltb, leb, if◌then◌else◌}
use shareframe_board.Common.Text.{◌<>◌, show}

-- `String(n).padStart(width, '0')`.
unfoldable pub pad_start : ℕ → ℕ → String
pad_start zero n = ""
pad_start (suc width) n = let more = pad_start width (n / 10) in more <> show (n % 10)

-- The civil date of a day since 1970-01-01, by eras of 400 years that begin on a first of March.
pub record Civil : Type 0 where
  pub year : ℕ
  pub month : ℕ
  pub day : ℕ

unfoldable pub civil_of : ℕ → Civil
civil_of days =
    let z = days + 719468 in
    let doe = z % 146097 in
    let yoe = (doe - doe / 1460 + doe / 36524 - doe / 146096) / 365 in
    let doy = doe - (365 * yoe + yoe / 4 - yoe / 100) in
    let mp = (5 * doy + 2) / 153 in
    let month = if ltb mp 10 then mp + 3 else mp - 9 in
    record {
      year = yoe + z / 146097 * 400 + (if leb month 2 then 1 else 0);
      month = month;
      day = doy - (153 * mp + 2) / 5 + 1;
    }

unfoldable pub to_iso_string : ℕ → String
unfolding civil_of
to_iso_string ms =
    let c = civil_of (ms / 86400000) in
    let t = ms % 86400000 in
    pad_start 4 c.year
    <> "-"
    <> pad_start 2 c.month
    <> "-"
    <> pad_start 2 c.day
    <> "T"
    <> pad_start 2 (t / 3600000)
    <> ":"
    <> pad_start 2 (t / 60000 % 60)
    <> ":"
    <> pad_start 2 (t / 1000 % 60)
    <> "."
    <> pad_start 3 (t % 1000)
    <> "Z"
