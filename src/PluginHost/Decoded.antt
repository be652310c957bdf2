-- ===== src/PluginHost/Decoded.antt =====
-- src/plugin_host.rs: the decoders against the JSON that the app writes for typed data.
use hellohq_wasm_runtime.Prelude.{
  ℕ, ◌%◌, Bool, true, List, [], ◌∷◌, map, all, Option, some, ltb, ◌↔◌, ◌≡◌, refl, sym, ap, ◌∙◌,
  arith,
}
use hellohq_wasm_runtime.Str.{Text, lit, equal}
use hellohq_wasm_runtime.PluginHost.{
  Value, string, number, array, object, end, member, items, values_of,
}
use hellohq_wasm_runtime.PluginHost.Workspace.{
  PortfolioName, SheetInfo, SheetSummary, CategoryCount, AssetCount, u32_mod, text_at, strings,
  decode_portfolio_names, decode_sheet, decode_sheet_summary, decode_count, decode_asset_count,
}

module _ {F : Type 0} where
  items-values_of : (vs : List (Value F)) → items (values_of vs) ≡ vs
  items-values_of [] = refl
  items-values_of (v ∷ vs) = ap (λ r. v ∷ r) (items-values_of vs)

  -- JSON as the app writes it.
  pub list_value : {A : Type 0} → (A → Value F) → List A → Value F
  list_value f xs = array (values_of (map f xs))

  pub name_value : PortfolioName → Value F
  name_value p = object (member (lit "id") (string p.id) (member (lit "name") (string p.name) end))

  pub sheet_value : SheetInfo → Value F
  unfolding list_value
  sheet_value s = object (
      member (lit "name") (string s.name)
        (member (lit "sections") (list_value string s.sections) end))

  pub summary_value : SheetSummary → Value F
  unfolding list_value sheet_value
  summary_value s = object (
      member (lit "portfolio_id") (string s.portfolio_id)
        (member (lit "sheets") (list_value sheet_value s.sheets) end))

  -- A count is written as a number that reads back.
  pub count_value : (ℕ → Option F) → CategoryCount → Value F
  count_value f c = object (
      member (lit "category") (string c.category)
        (member (lit "count") (number (record { as_u64 = some c.count; as_f64 = f c.count })) end))

  pub asset_count_value : (ℕ → Option F) → AssetCount → Value F
  unfolding list_value count_value
  asset_count_value f a = object (
      member (lit "portfolio_id") (string a.portfolio_id)
        (member (lit "count_by_category") (list_value (count_value f) a.count_by_category) end))

  -- A decoder of elements undoes the encoder of the list.
  map_back :
      {A B : Type 0} (decode : Value F → B) (value : A → Value F) (f : A → B)
      → ((a : A) → decode (value a) ≡ f a)
      → (xs : List A) → map decode (items (values_of (map value xs))) ≡ map f xs
  map_back decode value f back [] = refl
  map_back decode value f back (x ∷ xs) =
      ap (λ b. b ∷ map decode (items (values_of (map value xs)))) (back x)
      ∙ ap (λ bs. f x ∷ bs) (map_back decode value f back xs)

map_self : {A : Type 0} (xs : List A) → map (λ x. x) xs ≡ xs
map_self [] = refl
map_self (x ∷ xs) = ap (λ r. x ∷ r) (map_self xs)

strings_back :
    (F : Type 0) (ts : List Text) → strings {F = F} (items (values_of (map string ts))) ≡ ts
unfolding strings
strings_back F [] = refl
strings_back F (t ∷ ts) = ap (λ r. t ∷ r) (strings_back F ts)

-- What is left of a count.
abbrev wrapped : CategoryCount → CategoryCount
wrapped c = record c { count = c.count % u32_mod }

abbrev pub fits : CategoryCount → Bool
fits c = ltb c.count u32_mod

fits-wrapped : (cs : List CategoryCount) → all fits (map wrapped cs) ≡ true
fits-wrapped [] = refl
fits-wrapped (c ∷ cs) = ground (arith, fits-wrapped cs)

wrapped_of_fits : (cs : List CategoryCount) → all fits cs ≡ true → map wrapped cs ≡ cs
wrapped_of_fits [] h = refl
wrapped_of_fits (c ∷ cs) h =
    let e : c.count % u32_mod ≡ c.count = ground (arith, h) in
    ap (λ n. record c { count = n } ∷ map wrapped cs) e
    ∙ ap (λ r. c ∷ r) (wrapped_of_fits cs (ground (arith, h)))

module _ (F : Type 0) where
  -- The portfolios that the app writes are those that the plugin gets.
  pub decode_portfolio_names-list_value :
      (ps : List PortfolioName) → decode_portfolio_names {F = F} (list_value name_value ps) ≡ ps
  unfolding decode_portfolio_names list_value name_value equal
  decode_portfolio_names-list_value ps =
      map_back
        (λ (i : Value F). record { id = text_at i (lit "id"); name = text_at i (lit "name") })
        name_value (λ p. p) (λ p. refl) ps
      ∙ map_self ps

  decode_sheet-sheet_value : (s : SheetInfo) → decode_sheet {F = F} (sheet_value s) ≡ s
  unfolding decode_sheet sheet_value equal
  decode_sheet-sheet_value s =
      ap (λ ts. record { name = s.name; sections = ts }) (strings_back F s.sections)

  -- The sheets and sections that the app writes are those that the plugin gets.
  pub decode_sheet_summary-summary_value :
      (s : SheetSummary) → decode_sheet_summary {F = F} (summary_value s) ≡ s
  unfolding decode_sheet_summary summary_value equal
  decode_sheet_summary-summary_value s =
      ap (λ l. record { portfolio_id = s.portfolio_id; sheets = l })
        (map_back decode_sheet sheet_value (λ x. x) decode_sheet-sheet_value s.sheets
          ∙ map_self s.sheets)

  decode_asset_count-wrapped :
      (f : ℕ → Option F) (a : AssetCount)
      → decode_asset_count (asset_count_value f a)
        ≡ record a { count_by_category = map wrapped a.count_by_category }
  unfolding decode_asset_count asset_count_value equal
  decode_asset_count-wrapped f a =
      ap (λ l. record { portfolio_id = a.portfolio_id; count_by_category = l })
        (map_back decode_count (count_value f) wrapped (λ c. refl) a.count_by_category)

  -- The counts that the app writes are those that the plugin gets exactly if each is below 2^32: a
  -- larger one is cut to its low 32 bits.
  pub decode_asset_count_iff :
      (f : ℕ → Option F) (a : AssetCount)
      → (decode_asset_count (asset_count_value f a) ≡ a) ↔ (all fits a.count_by_category ≡ true)
  decode_asset_count_iff f a = (
    λ e.
        let same : map wrapped a.count_by_category ≡ a.count_by_category =
          ap (λ (b : AssetCount). b.count_by_category) (sym (decode_asset_count-wrapped f a) ∙ e) in
        sym (ap (all fits) same) ∙ fits-wrapped a.count_by_category,
    λ h.
        decode_asset_count-wrapped f a
        ∙ ap (λ l. record a { count_by_category = l }) (wrapped_of_fits a.count_by_category h),
  )
