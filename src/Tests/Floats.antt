-- ===== src/Tests/Floats.antt =====
-- The decimals are ordered as float64 is documented to be, and paise survive a round trip.
use hom_swag_reporting.Base.{arith}
use hom_swag_reporting.Money.Decimal.{decimals, less, equal, decimals-round_trip}
use hom_swag_reporting.Leaderboard.Ranking.Order.{IsOrdered}
use hom_swag_reporting.Earnings.OrderIssues.Alignment.Resolves.{PaiseRoundTrip}

pub decimals-IsOrdered : IsOrdered decimals
unfolding less equal
decimals-IsOrdered = record {
  asym = λ a b ha hb. ground arith;
  trans = λ a b c ha hb hc. ground arith;
  same = λ a b ha hb. ground arith;
  same_trans = λ a b c ha hb hc. ground arith;
  same_trans' = λ a b c ha hb hc. ground arith;
}

pub decimals-PaiseRoundTrip : PaiseRoundTrip decimals
decimals-PaiseRoundTrip a h = decimals-round_trip a
