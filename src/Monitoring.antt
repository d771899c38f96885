-- ===== src/Monitoring.antt =====
-- The monitoring_alerts table, which the depletion handler, the count events and the inbox worker
-- write (backend/app/modules/inventory/depletion/handler.py, .../inventory/services.py,
-- .../pos/worker.py).
use reorder_os.Prelude.{
  ℕ, ◌+◌, String, Bool, false, ◌&&◌, not, List, ◌∷◌, any, update_where, ◌==◌, str_eq, if◌then◌else◌,
}
use reorder_os.Prelude.Int.{ℤ}

pub data Severity : Type 0 where
  info warn critical : Severity

-- The JSON objects that the three monitors store.
pub data Payload : Type 0 where
  late_signal : (item movement recorded_at created_at gap_seconds : ℕ) → Payload
  drift : (item : ℕ) (counted predicted drift drift_pct : ℤ) → Payload
  dead_letter : (inbox_id : ℕ) (vendor_event_id error : String) → Payload

pub record Alert : Type 0 where
  pub tenant_id : ℕ
  pub monitor_name : String
  pub severity : Severity
  pub payload : Payload
  pub alert_count : ℕ
  pub last_seen_at : ℕ
  pub resolved : Bool

-- The row on which INSERT ... ON CONFLICT (tenant_id, monitor_name) WHERE resolved_at IS NULL
-- conflicts.
unfoldable pub is_active : ℕ → String → Alert → Bool
is_active tid monitor a = a.tenant_id == tid && str_eq a.monitor_name monitor && not a.resolved

-- The upsert. `set_severity` says whether DO UPDATE takes the new severity too.
unfoldable pub upsert_alert : Bool → ℕ → ℕ → String → Severity → Payload → List Alert → List Alert
upsert_alert set_severity now tid monitor sev payload alerts =
    if any (is_active tid monitor) alerts
    then update_where (is_active tid monitor)
        (λ a. record a {
          last_seen_at = now;
          alert_count = a.alert_count + 1;
          severity = if set_severity then sev else a.severity;
          payload = payload;
        })
        alerts
    else record {
      tenant_id = tid;
      monitor_name = monitor;
      severity = sev;
      payload = payload;
      alert_count = 1;
      last_seen_at = now;
      resolved = false;
    }
      ∷ alerts
