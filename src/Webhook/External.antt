-- ===== src/Webhook/External.antt =====
-- What the webhooks call outside the repository, and what of it they read: PromQL's parser
-- (`parser.ParseExpr`), `url.ParseRequestURI` and `time.Parse`.
use mdai_operator.Prelude.{String, Option, Bool}

pub record Url : Type 0 where
  pub scheme : String
  pub host : String

pub record Parsers : Type 0 where
  -- The error of `parser.ParseExpr`, if it fails.
  pub promql_error : String → Option String
  -- `url.ParseRequestURI`, `none` on an error.
  pub request_uri : String → Option Url
  -- Whether `time.Parse(layout, value)` succeeds.
  pub time_parses : String → String → Bool
