-- ===== src/Naming/Services.antt =====
-- The names of internal/naming/main.go for an instance.
use mdai_operator.Prelude.{ℕ, ◌≡◌, refl, List, [], ◌∷◌, true, all, codes, arith}
use mdai_operator.Naming.Truncate.{fixed, text, is_alphanumeric}
use mdai_operator.Naming.Dns.{is_dns}
use mdai_operator.Naming.Names.{
  label, config_map_extra, service, headless_service, monitoring_service, extension_service,
  grpc_service, non_grpc_service, ingress,
}
use mdai_operator.Naming.Truncate.Kept.{is_ascii, any}
use mdai_operator.Naming.Labels.{IsLabel, is_label_char, label-IsLabel}

module _ (unicode_lower : ℕ → ℕ) where
  ascii-label_char :
      (s : List ℕ) → all (is_label_char unicode_lower) s ≡ true → all is_ascii s ≡ true
  unfolding is_dns
  ascii-label_char [] h = refl
  ascii-label_char (c ∷ s) h = ground (arith, ascii-label_char s)

  suffixed :
      (s suffix : List ℕ)
      → all is_ascii s ≡ true
      → all is_ascii suffix ≡ true
      → any is_alphanumeric suffix ≡ true
      → IsLabel unicode_lower (label unicode_lower (text s ∷ fixed suffix ∷ []))
  suffixed s suffix h k a =
      label-IsLabel unicode_lower (text s ∷ fixed suffix ∷ []) (ground arith) (ground arith)

  -- For an ASCII name of an instance, however long, the names of its services, of its ingress and of
  -- its extra config map are DNS labels.
  pub services-IsLabel :
      (otelcol : List ℕ)
      → all is_ascii otelcol ≡ true
      → IsLabel unicode_lower (service unicode_lower otelcol)
        × IsLabel unicode_lower (headless_service unicode_lower otelcol)
        × IsLabel unicode_lower (monitoring_service unicode_lower otelcol)
        × IsLabel unicode_lower (extension_service unicode_lower otelcol)
        × IsLabel unicode_lower (grpc_service unicode_lower otelcol)
        × IsLabel unicode_lower (non_grpc_service unicode_lower otelcol)
        × IsLabel unicode_lower (ingress unicode_lower otelcol)
        × IsLabel unicode_lower (config_map_extra unicode_lower otelcol)
  unfolding service headless_service monitoring_service extension_service grpc_service
      non_grpc_service ingress config_map_extra is_alphanumeric
  services-IsLabel otelcol h =
      let base = suffixed otelcol (codes "-collector") h refl refl in
      let kept = ascii-label_char (service unicode_lower otelcol) base.chars in
      (
        base,
        suffixed (service unicode_lower otelcol) (codes "-headless") kept refl refl,
        suffixed (service unicode_lower otelcol) (codes "-monitoring") kept refl refl,
        suffixed (service unicode_lower otelcol) (codes "-extension") kept refl refl,
        suffixed (service unicode_lower otelcol) (codes "-grpc") kept refl refl,
        suffixed (service unicode_lower otelcol) (codes "-non-grpc") kept refl refl,
        suffixed otelcol (codes "-ingress") h refl refl,
        label-IsLabel unicode_lower (fixed (codes "configmap-") ∷ text otelcol ∷ []) (ground arith)
            refl,
      )
