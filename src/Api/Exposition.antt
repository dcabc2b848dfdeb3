-- ===== src/Api/Exposition.antt =====
-- writeProm of internal/api/metrics.go: the metrics in the text exposition format.
use secretstash.Base.{ℕ, ◌-◌, ◌/◌, [], ◌∷◌, ◌++◌, Bytes}
use secretstash.Base.Text.{ascii, line}
use secretstash.Store.{Time, stats}
use secretstash.Api.{Api}
use secretstash.Api.Counters.{Failures, Metrics}
use secretstash.Api.Labels.{quote}

-- `print` is %d.
module _ (print : ℕ → Bytes) where
  -- The last line of writeMetric, with or without a label.
  unfoldable pub sample : Bytes → ℕ → Bytes → Bytes
  sample name value [] = line (name ++ 32 ∷ print value)
  sample name value (c ∷ label) = line (name ++ b'{' ∷ ((c ∷ label) ++ b'}' ∷ 32 ∷ print value))

  unfoldable pub write_metric : Bytes → Bytes → Bytes → ℕ → Bytes → Bytes
  unfolding sample
  write_metric typ name help value label =
      line (ascii "# HELP " ++ (name ++ 32 ∷ help))
      ++ (line (ascii "# TYPE " ++ (name ++ 32 ∷ typ)) ++ sample name value label)

  unfoldable pub gauge : Bytes → Bytes → ℕ → Bytes → Bytes
  unfolding write_metric
  gauge = write_metric (ascii "gauge")

  unfoldable pub counter : Bytes → Bytes → ℕ → Bytes → Bytes
  unfolding write_metric
  counter = write_metric (ascii "counter")

  -- The four gauges.
  unfoldable pub write_gauges : ℕ → ℕ → ℕ → Bytes → Bytes
  unfolding gauge
  write_gauges live tombs uptime version =
      gauge (ascii "secretstash_build_info")
        (ascii "Build information; constant 1, version in the label.") 1
        (ascii "version=" ++ quote version)
      ++ (gauge (ascii "secretstash_uptime_seconds") (ascii "Seconds since the server started.")
            uptime []
          ++ (gauge (ascii "secretstash_live_secrets")
                (ascii "Secrets currently held in the store.") live []
              ++ gauge (ascii "secretstash_tombstones")
                  (ascii "Tamper-evident tombstones currently retained.") tombs []))

  unfoldable pub write_counters : Metrics → Bytes
  unfolding counter
  write_counters m =
      counter (ascii "secretstash_wraps_total") (ascii "Secrets wrapped.") m.wraps []
      ++ (counter (ascii "secretstash_unwraps_total") (ascii "Secrets successfully unwrapped.")
            m.unwraps []
          ++ (counter (ascii "secretstash_peeks_total") (ascii "Metadata peeks.") m.peeks []
              ++ (counter (ascii "secretstash_revokes_total")
                    (ascii "Secrets revoked before being read.") m.revokes []
                  ++ (counter (ascii "secretstash_store_full_total")
                        (ascii "Wraps rejected because the store was full.") m.store_full []
                      ++ counter (ascii "secretstash_rate_limited_total")
                          (ascii "Requests rejected by the rate limiter.") m.rate_limited []))))

  abbrev pub failures_name : Bytes
  failures_name = ascii "secretstash_unwrap_failures_total"

  unfoldable pub failure_line : Bytes → ℕ → Bytes
  failure_line reason value =
      line (failures_name ++ (ascii "{reason=" ++ (quote reason ++ (b'}' ∷ 32 ∷ print value))))

  -- The failures by reason; the six reasons in the order that sort.Strings gives them.
  unfoldable pub write_failures : Failures → Bytes
  unfolding failure_line
  write_failures f =
      line (ascii "# HELP " ++ (failures_name ++ ascii " Failed unwrap attempts by reason."))
      ++ (line (ascii "# TYPE " ++ (failures_name ++ ascii " counter"))
          ++ (failure_line (ascii "auth_fail") f.auth_fail
              ++ (failure_line (ascii "consumed") f.consumed
                  ++ (failure_line (ascii "expired") f.expired
                      ++ (failure_line (ascii "revoked") f.revoked
                          ++ (failure_line (ascii "tamper") f.tamper
                              ++ failure_line (ascii "unknown") f.unknown))))))

  unfoldable pub write_prom : Metrics → ℕ → ℕ → ℕ → Bytes → Bytes
  unfolding write_gauges write_counters write_failures
  write_prom m live tombs uptime version =
      write_gauges live tombs uptime version ++ (write_counters m ++ write_failures m.failures)

  -- The body of HandleMetrics; the uptime is in whole seconds.
  unfoldable pub metrics_body : Api → Time → Bytes → Bytes
  unfolding write_prom
  metrics_body a now version =
      let (live, tombs) = stats a.secrets in
      write_prom a.metrics live tombs ((now - a.started) / 1000000000) version
