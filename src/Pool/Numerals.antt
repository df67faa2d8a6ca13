-- ===== src/Pool/Numerals.antt =====
-- Whole numbers as decimal texts: `parseDecimal(String(n))` is `n` scaled.
use canton_dex_reference_imp.Prelude.{suc, ◌*◌, ◌≡◌}
use canton_dex_reference_imp.Prelude.Int.{ℤ, pos, negsuc, ◌*ℤ◌}
use canton_dex_reference_imp.Prelude.Outcome.{returns}
use canton_dex_reference_imp.Prelude.Text.{codes}
use canton_dex_reference_imp.Digits.{show, show_go}
use canton_dex_reference_imp.Decimal.{scale, parse_decimal}
use canton_dex_reference_imp.Decimal.RoundTrip.{parse_decimal-show, parse_decimal-show_neg}
use canton_dex_reference_imp.Pool.Quote.{int_text}

pub parse_decimal-int_text : (z : ℤ) → parse_decimal (int_text z) ≡ returns (z *ℤ pos scale)
unfolding int_text
parse_decimal-int_text (pos n) = parse_decimal-show n
parse_decimal-int_text (negsuc n) = parse_decimal-show_neg (suc n)

pub ten_thousand : parse_decimal (codes "10000") ≡ returns (pos (10000 * scale))
unfolding show show_go
ten_thousand = parse_decimal-show 10000
