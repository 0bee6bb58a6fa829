-- ===== src/Controller/Replay/Config/Wired.antt =====
-- What an OpenTelemetry collector asks of the configuration that augmentCollectorConfigPerSpec of
-- internal/controller/mdaireplay_adapter.go makes: that the components that it names are there.
use mdai_operator.Prelude.{
  String, List, [], ◌∷◌, Option, none, some, Bool, true, false, ◌&&◌, ◌≡◌, refl, sym, ◌∙◌, subst,
  arith, all,
}
use mdai_operator.Builder.Config.{
  Value, str, texts, items, block, config_block, Items, no_items, item, ConfigBlock, empty, entry,
  get,
}
use mdai_operator.Api.{ReplaySpec, ReplayS3Configuration}
use mdai_operator.Webhook.{Parsers}
use mdai_operator.Webhook.Replay.{validate}
use mdai_operator.Controller.Replay.Config.{
  panicked, augment_failed, augmented, augment_collector_config_per_spec, replay_pipeline,
  otlp_http_exporter,
}
use mdai_operator.Controller.Replay.Config.Base.{base_replay_collector}
use mdai_operator.Controller.Replay.Config.Configured.{
  for_endpoint, for_source, accepted-configured,
}

-- The entries of a map of either type, none for another value.
unfoldable entries_of : Value → ConfigBlock
entries_of (block c) = c
entries_of (config_block c) = c
entries_of _ = empty

unfoldable section : ConfigBlock → (key : String) → ConfigBlock
unfolding get entries_of
section c key = elim (get c key) [ none ↦ empty | some v ↦ entries_of v ]

-- The texts of a []string, or of a []any that holds texts.
unfoldable texts_of_items : Items → List String
texts_of_items no_items = []
texts_of_items (item (str s) rest) = s ∷ texts_of_items rest
texts_of_items (item _ rest) = texts_of_items rest

unfoldable texts_of : Option Value → List String
unfolding texts_of_items
texts_of (some (texts ss)) = ss
texts_of (some (items xs)) = texts_of_items xs
texts_of _ = []

unfoldable has : ConfigBlock → (key : String) → Bool
unfolding get
has c key = elim (get c key) [ none ↦ false | some v ↦ true ]

unfoldable is_nonempty : List String → Bool
is_nonempty [] = false
is_nonempty (s ∷ ss) = true

-- A pipeline has receivers and exporters, and all that it names is there.
unfoldable is_pipeline : ConfigBlock → ConfigBlock → Bool
unfolding section has texts_of get is_nonempty
is_pipeline c p =
    is_nonempty (texts_of (get p "receivers"))
    && (is_nonempty (texts_of (get p "exporters"))
        && (all (has (section c "receivers")) (texts_of (get p "receivers"))
            && (all (has (section c "processors")) (texts_of (get p "processors"))
                && all (has (section c "exporters")) (texts_of (get p "exporters")))))

unfoldable are_pipelines : ConfigBlock → ConfigBlock → Bool
unfolding is_pipeline entries_of
are_pipelines c empty = true
are_pipelines c (entry name p rest) = is_pipeline c (entries_of p) && are_pipelines c rest

unfoldable pub is_wired : ConfigBlock → Bool
unfolding section are_pipelines has texts_of get
is_wired c =
    are_pipelines c (section (section c "service") "pipelines")
    && all (has (section c "extensions")) (texts_of (get (section c "service") "extensions"))

module _ (replay_id hub_name : String) (spec : ReplaySpec) where
  for_endpoint-wired :
      (s3 : ReplayS3Configuration) (endpoint : Option String)
      → is_wired (for_endpoint replay_id hub_name spec s3 endpoint) ≡ true
  unfolding is_wired replay_pipeline otlp_http_exporter get section entries_of are_pipelines
      is_pipeline texts_of texts_of_items has is_nonempty
  for_endpoint-wired s3 none = refl
  for_endpoint-wired s3 (some endpoint) = ground arith

  for_source-wired :
      (source : Option ReplayS3Configuration) (endpoint : Option String) (c : ConfigBlock)
      → for_source replay_id hub_name spec source endpoint ≡ augmented c
      → is_wired c ≡ true
  for_source-wired none endpoint c h = cc
  for_source-wired (some s3) endpoint c h =
      subst
        (λ x. elim x [
          | panicked ↦ is_wired c ≡ true
          | augment_failed e ↦ is_wired c ≡ true
          | augmented d ↦ is_wired d ≡ true
        ])
        h (for_endpoint-wired s3 endpoint)

  -- In the configuration of a replay that the webhook accepts, each pipeline has receivers and
  -- exporters, and each receiver, processor, exporter and extension that is named is defined.
  pub accepted-wired :
      (parsers : Parsers) (c : ConfigBlock)
      → (validate parsers spec).error ≡ none
      → augment_collector_config_per_spec replay_id hub_name base_replay_collector spec
        ≡ augmented c
      → is_wired c ≡ true
  accepted-wired parsers c accepted h =
      for_source-wired spec.source.s3 spec.otlp_http_endpoint c
        (sym (accepted-configured replay_id hub_name spec parsers accepted) ∙ h)
