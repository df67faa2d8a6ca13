-- ===== src/Http/Validate/Routes.antt =====
-- WRITE_SPECS and validateWriteBody of services/operator-backend/src/http/validate.ts: which fields each
-- write route needs, and of what kind.
use canton_dex_reference_imp.Prelude.{Bool, Option, none, some, List, [], ◌∷◌}
use canton_dex_reference_imp.Prelude.Outcome.{Outcome}
use canton_dex_reference_imp.Prelude.Text.{Str, codes}
use canton_dex_reference_imp.Prelude.Assoc.{lookup}
use canton_dex_reference_imp.Json.{JsonValue}
use canton_dex_reference_imp.Http.Validate.{RouteSpec, validate_body}

unfoldable pub write_specs : List (Str × RouteSpec)
write_specs =
    (
      codes "POST /v1/pools/swap",
      record {
        required =
            (codes "poolCid"
              ∷ codes "inputInstrumentId"
              ∷ codes "inputAmount"
              ∷ codes "minOutputAmount"
              ∷ codes "quoteBinding"
              ∷ []);
        any_of = none;
        decimals = (codes "inputAmount" ∷ codes "minOutputAmount" ∷ []);
        parties = [];
        cids = (codes "poolCid" ∷ []);
        instrument_ids = [];
      },
    )
    ∷ (
      codes "POST /v1/pools/swap/request",
      record {
        required =
            (codes "poolCid"
              ∷ codes "swapper"
              ∷ codes "inputInstrumentId"
              ∷ codes "inputAmount"
              ∷ codes "minOutputAmount"
              ∷ []);
        any_of = none;
        decimals = (codes "inputAmount" ∷ codes "minOutputAmount" ∷ []);
        parties = (codes "swapper" ∷ []);
        cids = (codes "poolCid" ∷ []);
        instrument_ids = [];
      },
    )
    ∷ (
      codes "POST /v1/pools/add-liquidity/request",
      record {
        required =
            (codes "poolCid"
              ∷ codes "recipient"
              ∷ codes "baseAmount"
              ∷ codes "quoteAmount"
              ∷ codes "requestedAt"
              ∷ []);
        any_of = none;
        decimals = (codes "baseAmount" ∷ codes "quoteAmount" ∷ []);
        parties = (codes "recipient" ∷ []);
        cids = (codes "poolCid" ∷ []);
        instrument_ids = [];
      },
    )
    ∷ (
      codes "POST /v1/pools/add-liquidity/settle",
      record {
        required =
            (codes "poolCid"
              ∷ codes "recipient"
              ∷ codes "baseAmount"
              ∷ codes "quoteAmount"
              ∷ codes "minLpTokens"
              ∷ codes "knownTotalLpSupply"
              ∷ codes "requestedAt"
              ∷ []);
        any_of = none;
        decimals =
            (codes "baseAmount"
              ∷ codes "quoteAmount"
              ∷ codes "minLpTokens"
              ∷ codes "knownTotalLpSupply"
              ∷ []);
        parties = (codes "recipient" ∷ []);
        cids = (codes "poolCid" ∷ []);
        instrument_ids = [];
      },
    )
    ∷ (
      codes "POST /v1/pools/remove-liquidity/request",
      record {
        required =
            (codes "poolCid"
              ∷ codes "holder"
              ∷ codes "lpTokensToRedeem"
              ∷ codes "requestedAt"
              ∷ []);
        any_of = none;
        decimals = (codes "lpTokensToRedeem" ∷ []);
        parties = (codes "holder" ∷ []);
        cids = (codes "poolCid" ∷ []);
        instrument_ids = [];
      },
    )
    ∷ (
      codes "POST /v1/pools/remove-liquidity/settle",
      record {
        required =
            (codes "poolCid"
              ∷ codes "holder"
              ∷ codes "lpTokensToRedeem"
              ∷ codes "knownTotalLpSupply"
              ∷ codes "minBaseOut"
              ∷ codes "minQuoteOut"
              ∷ codes "requestedAt"
              ∷ []);
        any_of = none;
        decimals =
            (codes "lpTokensToRedeem"
              ∷ codes "knownTotalLpSupply"
              ∷ codes "minBaseOut"
              ∷ codes "minQuoteOut"
              ∷ []);
        parties = (codes "holder" ∷ []);
        cids = (codes "poolCid" ∷ []);
        instrument_ids = [];
      },
    )
    ∷ (
      codes "POST /v1/orders/bind",
      record {
        required = (codes "settlementRef" ∷ []);
        any_of = none;
        decimals = [];
        parties = [];
        cids = [];
        instrument_ids = [];
      },
    )
    ∷ (
      codes "POST /v1/orders/fund",
      record {
        required = (codes "orderCid" ∷ []);
        any_of = none;
        decimals = [];
        parties = [];
        cids = (codes "orderCid" ∷ []);
        instrument_ids = [];
      },
    )
    ∷ (
      codes "POST /v1/rfq",
      record {
        required =
            (codes "trader"
              ∷ codes "rfqId"
              ∷ codes "baseInstrumentId"
              ∷ codes "quoteInstrumentId"
              ∷ codes "side"
              ∷ codes "size"
              ∷ codes "expiresAt"
              ∷ codes "whitelist"
              ∷ codes "createdAt"
              ∷ []);
        any_of = none;
        decimals = (codes "size" ∷ []);
        parties = (codes "trader" ∷ []);
        cids = [];
        instrument_ids = (codes "baseInstrumentId" ∷ codes "quoteInstrumentId" ∷ []);
      },
    )
    ∷ (
      codes "POST /v1/rfq/accept",
      record {
        required =
            (codes "rfqCid"
              ∷ codes "acceptedQuoteCid"
              ∷ codes "consideredQuoteCids"
              ∷ codes "now"
              ∷ []);
        any_of = none;
        decimals = [];
        parties = [];
        cids = (codes "rfqCid" ∷ codes "acceptedQuoteCid" ∷ []);
        instrument_ids = [];
      },
    )
    ∷ (
      codes "POST /v1/matched-trades/request-allocations",
      record {
        required = (codes "tradeCid" ∷ []);
        any_of = none;
        decimals = [];
        parties = [];
        cids = (codes "tradeCid" ∷ []);
        instrument_ids = [];
      },
    )
    ∷ (
      codes "POST /v1/matched-trades/settle",
      record {
        required = (codes "tradeCid" ∷ []);
        any_of = none;
        decimals = [];
        parties = [];
        cids = (codes "tradeCid" ∷ []);
        instrument_ids = [];
      },
    )
    ∷ (
      codes "POST /v1/matched-trades/cancel",
      record {
        required =
            (codes "tradeCid" ∷ codes "allocationsByAdmin" ∷ codes "allocationRequestCids" ∷ []);
        any_of = none;
        decimals = [];
        parties = [];
        cids = (codes "tradeCid" ∷ []);
        instrument_ids = [];
      },
    )
    ∷ (
      codes "POST /v1/swaps/quote",
      record {
        required = (codes "inputInstrumentId" ∷ codes "inputAmount" ∷ []);
        any_of = some (codes "poolCid" ∷ codes "poolId" ∷ []);
        decimals = (codes "inputAmount" ∷ []);
        parties = [];
        cids = [];
        instrument_ids = [];
      },
    )
    ∷ []

-- `validateWriteBody`
unfoldable pub validate_write_body : Bool → Str → Option JsonValue → Outcome (Unit {0})
validate_write_body allow_bare route_key body =
    validate_body allow_bare (lookup route_key write_specs) body
