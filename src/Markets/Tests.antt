-- ===== src/Markets/Tests.antt =====
-- Market names on concrete inputs.
use hyperliquid_copytrader.Base.{◌≡◌, refl, false, [], some}
use hyperliquid_copytrader.Base.Text.{codes, text_eq, strip}
use hyperliquid_copytrader.Journal.Records.{ok, err}
use hyperliquid_copytrader.Markets.Identity.{
  MarketIdentity, parse_market, parse_stripped, market_identity, canonical, canonical_market,
  market_dex, qualify_market_symbol, is_asset_component, is_dex_component, dex_conflict,
  canonical_asset,
}
use hyperliquid_copytrader.Markets.Canonical.{
  canonical_market-again, qualify_market_symbol-market_dex,
}

every_clause : Unit {0}
unfolding parse_market parse_stripped market_identity canonical_market market_dex
    qualify_market_symbol is_asset_component is_dex_component canonical_asset text_eq strip
every_clause = tt

lower_case_asset : canonical_market (codes " btc ") ≡ ok (codes "BTC")
unfolding every_clause
lower_case_asset = refl

thousands_keep_their_case : canonical_market (codes "kPEPE") ≡ ok (codes "kPEPE")
unfolding every_clause
thousands_keep_their_case = refl

dex_keeps_its_case : canonical_market (codes "xyz:tsla") ≡ ok (codes "xyz:TSLA")
unfolding every_clause
dex_keeps_its_case = refl

another_dex : qualify_market_symbol (codes "xyz") (codes "flx:TSLA") ≡ err dex_conflict
unfolding every_clause
another_dex = refl

abbrev tesla : MarketIdentity
tesla = record { asset = codes "TSLA"; dex = some (codes "xyz") }

tesla_is_parsed : parse_market (codes " xyz:tsla") ≡ ok tesla
unfolding every_clause
tesla_is_parsed = refl

canonical_market-again_example :
    (parse_market (canonical tesla) ≡ ok tesla)
    × (canonical_market (canonical tesla) ≡ ok (canonical tesla))
canonical_market-again_example = canonical_market-again (codes " xyz:tsla") tesla tesla_is_parsed

xyz_is_named : text_eq (strip (codes " xyz")) [] ≡ false
unfolding every_clause
xyz_is_named = refl

tesla_is_qualified : qualify_market_symbol (codes " xyz") (codes "tsla") ≡ ok (codes "xyz:TSLA")
unfolding every_clause
tesla_is_qualified = refl

qualify_market_symbol-market_dex_example : market_dex (codes "xyz:TSLA") ≡ ok (strip (codes " xyz"))
qualify_market_symbol-market_dex_example =
    qualify_market_symbol-market_dex (codes " xyz") (codes "tsla") (codes "xyz:TSLA") xyz_is_named
      tesla_is_qualified
