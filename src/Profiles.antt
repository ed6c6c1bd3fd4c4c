-- ===== src/Profiles.antt =====
-- src/mss/analysis/instrument_profile_registry.py: the instruments, and the exposure of a direction.
pub mod Laws
mod Examples
use mss_package.Common.{Option, none, some, List, [], ◌∷◌, ◌++◌, String, if◌then◌else◌}
use mss_package.Common.Dict.{Dict, lookup}
use mss_package.Common.Text.{Text, codes, text_eq, normalize}

pub record InstrumentProfile : Type 0 where
  pub symbol : Text
  pub asset_class : Text
  pub base_asset : Text
  pub quote_asset : Text

pub record DirectionalExposureProfile : Type 0 where
  pub symbol : Text
  pub direction : Text
  pub asset_class : Text
  pub exposure_tags : List Text

-- An entry of `_PROFILES`, whose key is the profile's symbol.
abbrev pub entry : String → String → String → String → Text × InstrumentProfile
entry symbol asset_class base_asset quote_asset = (
  codes symbol,
  record {
    symbol = codes symbol;
    asset_class = codes asset_class;
    base_asset = codes base_asset;
    quote_asset = codes quote_asset;
  },
)

-- `_PROFILES`
unfoldable pub profiles : Dict InstrumentProfile
profiles =
    entry "EURUSD" "FOREX" "EUR" "USD"
    ∷ entry "GBPUSD" "FOREX" "GBP" "USD"
    ∷ entry "USDJPY" "FOREX" "USD" "JPY"
    ∷ entry "AUDUSD" "FOREX" "AUD" "USD"
    ∷ entry "USDCAD" "FOREX" "USD" "CAD"
    ∷ entry "USDCHF" "FOREX" "USD" "CHF"
    ∷ entry "NZDUSD" "FOREX" "NZD" "USD"
    ∷ entry "EURJPY" "FOREX" "EUR" "JPY"
    ∷ entry "GBPJPY" "FOREX" "GBP" "JPY"
    ∷ entry "EURGBP" "FOREX" "EUR" "GBP"
    ∷ entry "AUDJPY" "FOREX" "AUD" "JPY"
    ∷ entry "CADJPY" "FOREX" "CAD" "JPY"
    ∷ entry "CHFJPY" "FOREX" "CHF" "JPY"
    ∷ entry "EURAUD" "FOREX" "EUR" "AUD"
    ∷ entry "EURNZD" "FOREX" "EUR" "NZD"
    ∷ entry "EURCAD" "FOREX" "EUR" "CAD"
    ∷ entry "EURCHF" "FOREX" "EUR" "CHF"
    ∷ entry "GBPAUD" "FOREX" "GBP" "AUD"
    ∷ entry "GBPCAD" "FOREX" "GBP" "CAD"
    ∷ entry "GBPCHF" "FOREX" "GBP" "CHF"
    ∷ entry "XAUUSD" "METALS" "XAU" "USD"
    ∷ entry "XAGUSD" "METALS" "XAG" "USD"
    ∷ entry "WTI" "ENERGY" "WTI" "USD"
    ∷ entry "COPPER" "COMMODITY" "COPPER" "USD"
    ∷ entry "NAS100" "INDEX" "NAS100" "USD"
    ∷ entry "US30" "INDEX" "US30" "USD"
    ∷ entry "NETH25" "INDEX" "NETH25" "EUR"
    ∷ entry "SPN35" "INDEX" "SPN35" "EUR"
    ∷ entry "BITCOIN" "CRYPTO" "BTC" "USD"
    ∷ entry "ETHEREUM" "CRYPTO" "ETH" "USD"
    ∷ entry "BITCOIN CASH" "CRYPTO" "BCH" "USD"
    ∷ entry "SOLANA" "CRYPTO" "SOL" "USD"
    ∷ []

-- `InstrumentProfileRegistry.normalize_symbol`
abbrev pub normalize_symbol : Text → Text
normalize_symbol symbol = normalize symbol

-- `InstrumentProfileRegistry.get`
unfoldable pub get : Text → Option InstrumentProfile
get symbol = lookup (normalize_symbol symbol) profiles

abbrev pub tag : String → Text → Text
tag direction asset = codes direction ++ b':' ∷ asset

-- The tags of the two directions.
abbrev pub buy_tags : InstrumentProfile → List Text
buy_tags p = tag "LONG" p.base_asset ∷ tag "SHORT" p.quote_asset ∷ []

abbrev pub sell_tags : InstrumentProfile → List Text
sell_tags p = tag "SHORT" p.base_asset ∷ tag "LONG" p.quote_asset ∷ []

abbrev pub exposure_of : InstrumentProfile → Text → List Text → DirectionalExposureProfile
exposure_of p normalized_direction tags = record {
  symbol = p.symbol;
  direction = normalized_direction;
  asset_class = p.asset_class;
  exposure_tags = tags;
}

-- The branches on the normalised direction.
unfoldable pub expose : InstrumentProfile → Text → Option DirectionalExposureProfile
expose p direction =
    if text_eq direction (codes "BUY")
    then some (exposure_of p direction (buy_tags p))
    else if text_eq direction (codes "SELL")
    then some (exposure_of p direction (sell_tags p))
    else none

-- `InstrumentProfileRegistry.directional_exposure`
unfoldable pub directional_exposure : Text → Text → Option DirectionalExposureProfile
unfolding expose
directional_exposure symbol direction = elim (get symbol) [
  | none ↦ none
  | some p ↦ expose p (normalize direction)
]
