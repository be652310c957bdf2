-- ===== src/PluginHost/Workspace.antt =====
-- src/plugin_host.rs: the typed `workspace` reads, forwarded to the app.
use hellohq_wasm_runtime.Prelude.{ℕ, ◌%◌, ◌^◌, List, [], ◌∷◌, map, Option, none, some, Result, err}
use hellohq_wasm_runtime.Str.{Text, lit}
use hellohq_wasm_runtime.StorageEvents.{Bytes, ApiError}
use hellohq_wasm_runtime.PluginHost.{
  Value, string, object, end, member, get, as_str, as_u64, as_f64, as_array, and_then, unwrap_or,
  api_err, Serde, App, M, ◌>>=◌, pure, exchange,
}

pub record PortfolioName : Type 0 where
  pub id : Text
  pub name : Text

pub record SheetInfo : Type 0 where
  pub name : Text
  pub sections : List Text

pub record SheetSummary : Type 0 where
  pub portfolio_id : Text
  pub sheets : List SheetInfo

pub record CategoryCount : Type 0 where
  pub category : Text
  pub count : ℕ

pub record AssetCount : Type 0 where
  pub portfolio_id : Text
  pub count_by_category : List CategoryCount

pub record CurrencyRate (F : Type 0) : Type 0 where
  pub id : Text
  pub name : Text
  pub symbol : Text
  pub rate : F

pub record CategoryTotal (F : Type 0) : Type 0 where
  pub category : Text
  pub total : F

pub record AggregatedSummary (F : Type 0) : Type 0 where
  pub portfolio_id : Text
  pub totals : List (CategoryTotal F)

abbrev pub u32_mod : ℕ
u32_mod = 2 ^ 32

module _ {F : Type 0} where
  -- `s`
  unfoldable pub text_at : Value F → Text → Text
  text_at v k = unwrap_or [] (and_then (get v k) as_str)

  -- `as_array().map(|arr| arr.iter().map(f).collect()).unwrap_or_default()`
  unfoldable pub collect : {A : Type 0} → (Value F → A) → Option (List (Value F)) → List A
  collect f none = []
  collect f (some vs) = map f vs

  -- `filter_map(|x| x.as_str().map(str::to_string))`
  unfoldable pub strings : List (Value F) → List Text
  strings [] = []
  strings (v ∷ vs) = elim (as_str v) [ none ↦ strings vs | some s ↦ s ∷ strings vs ]

  abbrev strings_or_empty : Option (List (Value F)) → List Text
  strings_or_empty none = []
  strings_or_empty (some vs) = strings vs

  unfoldable pub decode_portfolio_names : Value F → List PortfolioName
  unfolding text_at collect
  decode_portfolio_names v =
      collect (λ i. record { id = text_at i (lit "id"); name = text_at i (lit "name") })
        (as_array v)

  unfoldable pub decode_sheet : Value F → SheetInfo
  unfolding text_at strings
  decode_sheet sheet = record {
    name = text_at sheet (lit "name");
    sections = strings_or_empty (and_then (get sheet (lit "sections")) as_array);
  }

  unfoldable pub decode_sheet_summary : Value F → SheetSummary
  unfolding text_at collect decode_sheet
  decode_sheet_summary v = record {
    portfolio_id = text_at v (lit "portfolio_id");
    sheets = collect decode_sheet (and_then (get v (lit "sheets")) as_array);
  }

  -- `as u32` keeps the low 32 bits.
  unfoldable pub decode_count : Value F → CategoryCount
  unfolding text_at
  decode_count c = record {
    category = text_at c (lit "category");
    count = unwrap_or 0 (and_then (get c (lit "count")) as_u64) % u32_mod;
  }

  unfoldable pub decode_asset_count : Value F → AssetCount
  unfolding text_at collect decode_count
  decode_asset_count v = record {
    portfolio_id = text_at v (lit "portfolio_id");
    count_by_category = collect decode_count (and_then (get v (lit "count_by_category")) as_array);
  }

  -- `zero` is `0.0`.
  unfoldable pub decode_currency_rates : F → Value F → List (CurrencyRate F)
  unfolding text_at collect
  decode_currency_rates zero v =
      collect
        (λ r. record {
          id = text_at r (lit "id");
          name = text_at r (lit "name");
          symbol = text_at r (lit "symbol");
          rate = unwrap_or zero (and_then (get r (lit "rate")) as_f64);
        })
        (as_array v)

  unfoldable pub decode_aggregated_summary : F → Value F → AggregatedSummary F
  unfolding text_at collect
  decode_aggregated_summary zero v = record {
    portfolio_id = text_at v (lit "portfolio_id");
    totals =
        collect
          (λ t. record {
            category = text_at t (lit "category");
            total = unwrap_or zero (and_then (get t (lit "total")) as_f64);
          })
          (and_then (get v (lit "totals")) as_array);
  }

unfoldable pub transport_gone : ApiError
transport_gone =
    api_err (lit "not-found") (lit "host transport closed before the call was serviced")

-- `{"method":…,"portfolio_id":…?}`
unfoldable pub read_request : {F : Type 0} → Text → Option Text → Value F
read_request method none = object (member (lit "method") (string method) end)
read_request method (some pid) =
    object (member (lit "method") (string method) (member (lit "portfolio_id") (string pid) end))

module _ {F S : Type 0} (serde : Serde F) (app : App S) where
  unfoldable pub forward : Text → Option Text → M S (Value F)
  unfolding read_request exchange transport_gone
  forward method portfolio_id = exchange serde app transport_gone (read_request method portfolio_id)

  unfoldable pub read_portfolio_names : M S (List PortfolioName)
  unfolding forward decode_portfolio_names
  read_portfolio_names = do
    d ← forward (lit "read:portfolio_names") none
    pure (decode_portfolio_names d)

  unfoldable pub read_sheet_structure : Text → M S SheetSummary
  unfolding forward decode_sheet_summary
  read_sheet_structure portfolio_id = do
    d ← forward (lit "read:sheet_structure") (some portfolio_id)
    pure (decode_sheet_summary d)

  unfoldable pub read_asset_count : Text → M S AssetCount
  unfolding forward decode_asset_count
  read_asset_count portfolio_id = do
    d ← forward (lit "read:asset_count") (some portfolio_id)
    pure (decode_asset_count d)

  unfoldable pub read_currency_rates : F → M S (List (CurrencyRate F))
  unfolding forward decode_currency_rates
  read_currency_rates zero = do
    d ← forward (lit "read:currency_rates") none
    pure (decode_currency_rates zero d)

  unfoldable pub read_aggregated_values : F → Text → M S (AggregatedSummary F)
  unfolding forward decode_aggregated_summary
  read_aggregated_values zero portfolio_id = do
    d ← forward (lit "read:aggregated_values") (some portfolio_id)
    pure (decode_aggregated_summary zero d)

unfoldable pub write_external_file : Text → Bytes → Result (Unit {0}) ApiError
write_external_file filename content =
    err (api_err (lit "not-found") (lit "write-external-file: not wired (reserved capability)"))
