-- ===== src/App/Metrics.antt =====
-- `MetricsStore` and `HealthState` of src/app.rs.
use dirbase.Prelude.{ℕ, String, Bool, true, false, ◌-◌, Option, none, some, if◌then◌else◌, ltb}
use dirbase.App.SchemaStore.{u64_size, wrapping_add}

pub record MetricsStore : Type 0 where
  pub requests_total : ℕ
  pub responses_total : ℕ
  pub responses_error : ℕ
  pub auth_failures : ℕ
  pub events_sent : ℕ
  pub resource_cache_hits_total : ℕ
  pub resource_cache_misses_total : ℕ
  pub resource_cache_revalidations_total : ℕ
  pub resource_validation_passes_total : ℕ
  pub resource_validation_rows_total : ℕ

abbrev pub record_request : MetricsStore → MetricsStore
record_request m = record m { requests_total = wrapping_add m.requests_total 1 }

abbrev pub record_response : MetricsStore → Bool → MetricsStore
record_response m is_error =
    let counted = record m { responses_total = wrapping_add m.responses_total 1 } in
    if is_error
    then record counted { responses_error = wrapping_add m.responses_error 1 }
    else counted

abbrev pub record_auth_failure : MetricsStore → MetricsStore
record_auth_failure m = record m { auth_failures = wrapping_add m.auth_failures 1 }

abbrev pub record_event : MetricsStore → MetricsStore
record_event m = record m { events_sent = wrapping_add m.events_sent 1 }

abbrev pub record_resource_cache_hit : MetricsStore → MetricsStore
record_resource_cache_hit m = record m {
  resource_cache_hits_total = wrapping_add m.resource_cache_hits_total 1;
}

abbrev pub record_resource_cache_miss : MetricsStore → MetricsStore
record_resource_cache_miss m = record m {
  resource_cache_misses_total = wrapping_add m.resource_cache_misses_total 1;
}

abbrev pub record_resource_cache_revalidation : MetricsStore → MetricsStore
record_resource_cache_revalidation m = record m {
  resource_cache_revalidations_total = wrapping_add m.resource_cache_revalidations_total 1;
}

-- `u64::try_from(rows).unwrap_or(u64::MAX)`
abbrev u64_of_usize : ℕ → ℕ
u64_of_usize rows = if ltb rows u64_size then rows else u64_size - 1

abbrev pub record_resource_validation : MetricsStore → ℕ → MetricsStore
record_resource_validation m rows = record m {
  resource_validation_passes_total = wrapping_add m.resource_validation_passes_total 1;
  resource_validation_rows_total =
      wrapping_add m.resource_validation_rows_total (u64_of_usize rows);
}

pub record HealthState : Type 0 where
  pub ready : Bool
  pub last_error : Option String

abbrev pub mark_ready : HealthState
mark_ready = record { ready = true; last_error = none }

abbrev pub mark_not_ready : String → HealthState
mark_not_ready error = record { ready = false; last_error = some error }
