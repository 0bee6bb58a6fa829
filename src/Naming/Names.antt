-- ===== src/Naming/Names.antt =====
-- internal/naming/main.go, for ASCII texts.
use mdai_operator.Prelude.{ℕ, List, [], ◌∷◌, Option, none, some, length, ltb, if◌then◌else◌, codes}
use mdai_operator.Naming.Truncate.{Part, fixed, text, truncate, take}
use mdai_operator.Naming.Dns.{dns_name}

abbrev pub max_label : ℕ
max_label = 63

module _ (unicode_lower : ℕ → ℕ) where
  -- DNSName(Truncate(format, 63, values...))
  unfoldable pub label : List Part → List ℕ
  unfolding dns_name truncate
  label parts = dns_name unicode_lower (truncate max_label parts)

  -- `configHash[:8]` panics on a shorter hash.
  unfoldable pub config_map : (otelcol config_hash : List ℕ) → Option (List ℕ)
  unfolding label take
  config_map otelcol config_hash =
      if ltb (length config_hash) 8
      then none
      else some
          (label (text otelcol ∷ fixed (codes "-collector-") ∷ text (take 8 config_hash) ∷ []))

  unfoldable pub config_map_extra : List ℕ → List ℕ
  unfolding label
  config_map_extra name = label (fixed (codes "configmap-") ∷ text name ∷ [])

  unfoldable pub open_telemetry_collector_name : List ℕ → List ℕ
  unfolding label
  open_telemetry_collector_name otelcol = label (text otelcol ∷ [])

  unfoldable pub service : List ℕ → List ℕ
  unfolding label
  service otelcol = label (text otelcol ∷ fixed (codes "-collector") ∷ [])

  unfoldable pub headless_service : List ℕ → List ℕ
  unfolding label service
  headless_service otelcol = label (text (service otelcol) ∷ fixed (codes "-headless") ∷ [])

  unfoldable pub monitoring_service : List ℕ → List ℕ
  unfolding label service
  monitoring_service otelcol = label (text (service otelcol) ∷ fixed (codes "-monitoring") ∷ [])

  unfoldable pub extension_service : List ℕ → List ℕ
  unfolding label service
  extension_service otelcol = label (text (service otelcol) ∷ fixed (codes "-extension") ∷ [])

  unfoldable pub grpc_service : List ℕ → List ℕ
  unfolding label service
  grpc_service otelcol = label (text (service otelcol) ∷ fixed (codes "-grpc") ∷ [])

  unfoldable pub non_grpc_service : List ℕ → List ℕ
  unfolding label service
  non_grpc_service otelcol = label (text (service otelcol) ∷ fixed (codes "-non-grpc") ∷ [])

  unfoldable pub ingress : List ℕ → List ℕ
  unfolding label
  ingress otelcol = label (text otelcol ∷ fixed (codes "-ingress") ∷ [])
