-- ===== src/Examples/Swapping.antt =====
-- The theorems on swaps at concrete inputs.
use canton_dex_reference_imp.Prelude.{◌≡◌, refl, true, none, some, [], ◌∷◌}
use canton_dex_reference_imp.Prelude.Outcome.{returns}
use canton_dex_reference_imp.Prelude.Text.{codes, ◌===◌}
use canton_dex_reference_imp.Digits.{
  is_space, trim_start, trim_end, trim, digit_value, read_digits, read_number, prefixed, literal,
  big_int, show_go, show, pad_start, split_dot,
}
use canton_dex_reference_imp.Decimal.{
  format_decimal, pad_fraction, parse_parts, parse_trimmed, parse_decimal, mul_floor, div_floor,
  div_floor_int,
}
use canton_dex_reference_imp.Types.{same_instrument}
use canton_dex_reference_imp.Recover.{TreeReader}
use canton_dex_reference_imp.Pool.Quote.{compute_quote, quote_out, int_text}
use canton_dex_reference_imp.Pool.Liquidity.{covering_from, select_covering_prefix}
use canton_dex_reference_imp.Pool.Swap.{
  PoolSwapQuoteBinding, PoolRequestSwapInput, PoolSwapInput, SwapArgument, V2Account, quote_binding,
  swap_admins, swap_argument, zip,
}
use canton_dex_reference_imp.Pool.Acceptance.{
  IsBoundTo, swap_with, swap_argument-quote_binding, swap_argument-IsBindingOn,
}
use canton_dex_reference_imp.Examples.Pricing.{text, instrument, pool}

-- A ledger without trees.
abbrev ledger : TreeReader
ledger = record { tree_created_events = none; tree_allocation_cids = none }

abbrev request : PoolRequestSwapInput
request = record {
  pool_cid = codes "config";
  swapper = codes "alice";
  input_instrument_id = instrument "CC";
  input_amount = text 5_000_000_000;
  min_output_amount = text 10_000_000_000;
}

abbrev account : V2Account
account = record { owner = some (codes "alice"); provider = none; id = codes "main" }

abbrev binding : PoolSwapQuoteBinding
binding = record {
  expected_pool_id = codes "pool";
  pool_state_cid = codes "state";
  input_slice_cid = codes "s1";
  output_slice_cids = codes "s3" ∷ [];
  min_output_amount = text 10_000_000_000;
}

quoted : quote_binding pool request ≡ returns binding
unfolding quote_binding compute_quote quote_out int_text select_covering_prefix covering_from
    same_instrument ◌===◌ mul_floor div_floor div_floor_int format_decimal show show_go pad_start
    parse_decimal parse_trimmed parse_parts pad_fraction split_dot big_int literal trim trim_start
    trim_end is_space prefixed read_number read_digits digit_value
quoted = refl

swap_argument-quote_binding_example :
    (arg : SwapArgument) × (swap_argument ledger
        (codes "operator")
        pool
        (swap_with request account binding (codes "alloc" ∷ []))
      ≡ returns arg)
    × (arg.swapper_allocation_cids_by_admin ≡ zip (swap_admins pool true) (codes "alloc" ∷ []))
    × (arg.quote_binding ≡ binding)
unfolding same_instrument ◌===◌
swap_argument-quote_binding_example =
    swap_argument-quote_binding ledger (codes "operator") pool request account binding
      (codes "alloc" ∷ []) quoted refl refl

abbrev input : PoolSwapInput
input = swap_with request account binding (codes "alloc" ∷ [])

abbrev argument : SwapArgument
argument = record {
  expected_pool_id = codes "pool";
  pool_cid = codes "config";
  pool_state_cid = codes "state";
  swapper_account = account;
  input_instrument_id = instrument "CC";
  input_amount = text 5_000_000_000;
  min_output_amount = text 10_000_000_000;
  swapper_allocation_cids_by_admin = (codes "admin", codes "alloc") ∷ [];
  input_slice_cid = codes "s1";
  output_slice_cids = codes "s3" ∷ [];
  quote_binding = binding;
}

accepted : swap_argument ledger (codes "operator") pool input ≡ returns argument
unfolding swap_argument same_instrument ◌===◌ format_decimal show show_go pad_start parse_decimal
    parse_trimmed parse_parts pad_fraction split_dot big_int literal trim trim_start trim_end
    is_space prefixed read_number read_digits digit_value
accepted = refl

swap_argument-IsBindingOn_example : IsBoundTo pool input argument
swap_argument-IsBindingOn_example =
    swap_argument-IsBindingOn ledger (codes "operator") pool input argument accepted
