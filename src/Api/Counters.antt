-- ===== src/Api/Counters.antt =====
-- The counters of internal/api/metrics.go: newMetrics, recordEvent, recordFailure and the others.
use secretstash.Base.{ℕ, ◌+◌, Bytes}

-- The strings that count events and failures; `other` is any string not among them.
pub data Event : Type 0 where
  wrap unwrap revoke : Event
  other : Bytes → Event

pub data Label : Type 0 where
  consumed expired revoked auth_fail tamper unknown : Label
  unregistered : Bytes → Label

-- One counter for each of failureReasons.
pub record Failures : Type 0 where
  pub consumed : ℕ
  pub expired : ℕ
  pub revoked : ℕ
  pub auth_fail : ℕ
  pub tamper : ℕ
  pub unknown : ℕ

pub record Metrics : Type 0 where
  pub wraps : ℕ
  pub unwraps : ℕ
  pub peeks : ℕ
  pub revokes : ℕ
  pub store_full : ℕ
  pub rate_limited : ℕ
  pub failures : Failures

unfoldable pub new_metrics : Metrics
new_metrics = record {
  wraps = 0;
  unwraps = 0;
  peeks = 0;
  revokes = 0;
  store_full = 0;
  rate_limited = 0;
  failures = record {
    consumed = 0;
    expired = 0;
    revoked = 0;
    auth_fail = 0;
    tamper = 0;
    unknown = 0;
  };
}

unfoldable pub record_event : Event → Metrics → Metrics
record_event wrap m = record m { wraps = m.wraps + 1 }
record_event unwrap m = record m { unwraps = m.unwraps + 1 }
record_event revoke m = record m { revokes = m.revokes + 1 }
record_event (other s) m = m

unfoldable pub count_failure : Label → Failures → Failures
count_failure consumed f = record f { consumed = f.consumed + 1 }
count_failure expired f = record f { expired = f.expired + 1 }
count_failure revoked f = record f { revoked = f.revoked + 1 }
count_failure auth_fail f = record f { auth_fail = f.auth_fail + 1 }
count_failure tamper f = record f { tamper = f.tamper + 1 }
count_failure unknown f = record f { unknown = f.unknown + 1 }
count_failure (unregistered s) f = record f { unknown = f.unknown + 1 }

unfoldable pub record_failure : Label → Metrics → Metrics
unfolding count_failure
record_failure reason m = record m { failures = count_failure reason m.failures }

unfoldable pub record_peek : Metrics → Metrics
record_peek m = record m { peeks = m.peeks + 1 }

unfoldable pub record_store_full : Metrics → Metrics
record_store_full m = record m { store_full = m.store_full + 1 }

unfoldable pub record_rate_limited : Metrics → Metrics
record_rate_limited m = record m { rate_limited = m.rate_limited + 1 }
