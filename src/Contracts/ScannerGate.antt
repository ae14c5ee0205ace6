-- ===== src/Contracts/ScannerGate.antt =====
-- contracts/python/trade_contracts/scanner_gate.py
use roboinvest.Prelude.{Bool, ◌||◌, Option, none, some, if◌then◌else◌, is_some, holds}
use roboinvest.Decimal
use roboinvest.Decimal.{Decimal, ltb, one}

pub record ScannerGateThresholds : Type 0 where
  pub max_risk_penalty : Option Decimal
  pub max_volume_surge : Option Decimal
  pub max_momentum : Option Decimal

unfoldable pub enabled : ScannerGateThresholds → Bool
enabled t = is_some t.max_risk_penalty || is_some t.max_volume_surge || is_some t.max_momentum

-- The entries of `watchlist.reasons` that the gate reads, as numbers.
pub record WatchlistReasons : Type 0 where
  pub risk_penalty : Option Decimal
  pub volume_surge : Option Decimal
  pub momentum : Option Decimal

pub data ScannerReason : Type 0 where
  missing_watchlist risk_penalty volume_surge momentum : ScannerReason

-- `_reason_decimal`
abbrev pub reason_decimal : Option Decimal → Decimal → Decimal
reason_decimal none default = default
reason_decimal (some value) default = value

unfoldable pub scanner_gate_reject_reason :
    Option WatchlistReasons → ScannerGateThresholds → Option ScannerReason
scanner_gate_reject_reason none t = some ScannerReason.missing_watchlist
scanner_gate_reject_reason (some r) t =
    if holds (λ m. ltb m (reason_decimal r.risk_penalty Decimal.zero)) t.max_risk_penalty
    then some ScannerReason.risk_penalty
    else if holds (λ m. ltb m (reason_decimal r.volume_surge one)) t.max_volume_surge
    then some ScannerReason.volume_surge
    else if holds (λ m. ltb m (reason_decimal r.momentum Decimal.zero)) t.max_momentum
    then some ScannerReason.momentum
    else none
