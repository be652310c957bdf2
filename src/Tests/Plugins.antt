-- ===== src/Tests/Plugins.antt =====
-- An app that keeps strings under keys, and the typed hosts over it.
use hellohq_wasm_runtime.Prelude.{
  ℕ, zero, suc, ◌+◌, ◌^◌, all, true, [], ◌∷◌, ◌++◌, map, Option, none, some, Result, ok,
  if◌then◌else◌, ◌≡◌, ◌↔◌, refl, ap, ◌∙◌,
}
use hellohq_wasm_runtime.Str.{Text, lit, equal}
use hellohq_wasm_runtime.StorageEvents.{Bytes, ApiError}
use hellohq_wasm_runtime.PluginHost.{
  Value, null, bool, string, object, end, member, get, as_str, and_then, unwrap_or, Serde, App,
}
use hellohq_wasm_runtime.PluginHost.Replies.{Answers}
use hellohq_wasm_runtime.PluginHost.Granted.{
  Granted, asked_by, sets, perform, is_ok, perform-Granted,
}
use hellohq_wasm_runtime.PluginHost.Storage
use hellohq_wasm_runtime.PluginHost.Storage.{get_request, set_request, transport_closed}
use hellohq_wasm_runtime.PluginHost.Stored.{stored_value, Has, KeepsStrings, get-set_bytes}
use hellohq_wasm_runtime.PluginHost.Workspace.{AssetCount, decode_asset_count}
use hellohq_wasm_runtime.PluginHost.Decoded.{fits, asset_count_value, decode_asset_count_iff}

-- What an object says under a name.
abbrev text_of : Value ℕ → Text → Text
text_of v name = unwrap_or [] (and_then (get v name) as_str)

-- Three strings, each with an end.
pack : Text → Text → Text → Bytes
pack m k t = map suc m ++ 0 ∷ (map suc k ++ 0 ∷ (map suc t ++ 0 ∷ []))

abbrev to_vec : Value ℕ → Result Bytes Text
to_vec v = ok (pack (text_of v (lit "method")) (text_of v (lit "key")) (text_of v (lit "value")))

-- A reply: nothing, or a string behind a byte.
abbrev from_slice : Bytes → Result (Value ℕ) Text
from_slice [] = ok (object (member (lit "ok") (bool true) end))
from_slice (b ∷ t) =
    ok (object (member (lit "ok") (bool true) (member (lit "data") (string t) end)))

abbrev serde : Serde ℕ
serde = record { to_vec = to_vec; from_slice = from_slice }

-- The first string, and what is behind it.
field : Bytes → Text × Bytes
field [] = ([], [])
field (zero ∷ rest) = ([], rest)
field (suc c ∷ rest) = let (t, behind) = field rest in (c ∷ t, behind)

field-pack : (t : Text) (rest : Bytes) → field (map suc t ++ 0 ∷ rest) ≡ (t, rest)
unfolding field
field-pack [] rest = refl
field-pack (c ∷ t) rest = ap (λ (r : Text × Bytes). (c ∷ r.0, r.1)) (field-pack t rest)

abbrev Keys : Type 0
Keys = Text → Option Text

abbrev put_key : Keys → Text → Text → Keys
put_key s key t other = if equal key other then some t else s other

answer : Option Text → Bytes
answer none = []
answer (some t) = 1 ∷ t

-- A read or a write of the second string.
serve_key : Keys → Text → Text × Bytes → Keys × Option Bytes
unfolding answer field
serve_key s method (key, rest) =
    if equal method (lit "storage_get")
    then (s, some (answer (s key)))
    else (put_key s key (field rest).0, some (answer none))

abbrev app : App Keys
app s request = serve_key s (field request).0 (field (field request).1)

reply_of : Option Text → Value ℕ
reply_of none = object (member (lit "ok") (bool true) end)
reply_of (some t) = object (member (lit "ok") (bool true) (member (lit "data") (string t) end))

from_slice-answer : (o : Option Text) → from_slice (answer o) ≡ ok (reply_of o)
unfolding answer reply_of
from_slice-answer none = refl
from_slice-answer (some t) = refl

ok_reply : (o : Option Text) → get (reply_of o) (lit "ok") ≡ some (bool true)
unfolding reply_of equal
ok_reply none = refl
ok_reply (some t) = refl

data_reply : (o : Option Text) → unwrap_or null (get (reply_of o) (lit "data")) ≡ stored_value o
unfolding reply_of equal
data_reply none = refl
data_reply (some t) = refl

text_of-Has : (v : Value ℕ) (name t : Text) → Has v name t → text_of v name ≡ t
text_of-Has v name t h = ap (λ o. unwrap_or [] (and_then o as_str)) h

served : (s : Keys) (m k t : Text) → app s (pack m k t) ≡ serve_key s m (k, map suc t ++ 0 ∷ [])
unfolding pack
served s m k t =
    let rest : Bytes = map suc k ++ 0 ∷ (map suc t ++ 0 ∷ []) in
    ap (λ (r : Text × Bytes). serve_key s r.0 (field r.1)) (field-pack m rest)
    ∙ ap (serve_key s m) (field-pack k (map suc t ++ 0 ∷ []))

Answers-get :
    (s : Keys) (v : Value ℕ) (key : Text)
    → Has v (lit "method") (lit "storage_get")
    → Has v (lit "key") key
    → Answers serde app s v s (stored_value (s key))
unfolding serve_key equal
Answers-get s v key hm hk = record {
  bytes = pack (text_of v (lit "method")) (text_of v (lit "key")) (text_of v (lit "value"));
  response = answer (s key);
  reply = reply_of (s key);
  sent = refl;
  answered =
      served s _ _ _
      ∙ ap (λ m. serve_key s m (text_of v (lit "key"), map suc (text_of v (lit "value")) ++ 0 ∷ []))
          (text_of-Has v _ _ hm)
      ∙ ap (λ k. (s, some (answer (s k)))) (text_of-Has v _ _ hk);
  read = from_slice-answer (s key);
  is_ok = ok_reply (s key);
  data_is = data_reply (s key);
}

Answers-set :
    (s : Keys) (v : Value ℕ) (key t : Text)
    → Has v (lit "method") (lit "storage_set")
    → Has v (lit "key") key
    → Has v (lit "value") t
    → Answers serde app s v (put_key s key t) null
unfolding serve_key equal reply_of answer
Answers-set s v key t hm hk ht = record {
  bytes = pack (text_of v (lit "method")) (text_of v (lit "key")) (text_of v (lit "value"));
  response = answer none;
  reply = reply_of none;
  sent = refl;
  answered =
      served s _ _ _
      ∙ ap (λ m. serve_key s m (text_of v (lit "key"), map suc (text_of v (lit "value")) ++ 0 ∷ []))
          (text_of-Has v _ _ hm)
      ∙ ap (λ (r : Text × Bytes). (put_key s (text_of v (lit "key")) r.0, some (answer none)))
          (field-pack (text_of v (lit "value")) [])
      ∙ ap (λ k. (put_key s k (text_of v (lit "value")), some (answer none))) (text_of-Has v _ _ hk)
      ∙ ap (λ x. (put_key s key x, some (answer none))) (text_of-Has v _ _ ht);
  read = refl;
  is_ok = refl;
  data_is = refl;
}

abbrev keeps : KeepsStrings serde app
keeps = record {
  lookup = λ s key. s key;
  written = put_key;
  reply = λ s key t. null;
  lookup-written = λ s key t other. refl;
  sets = Answers-set;
  gets = Answers-get;
}

abbrev nothing : Keys
nothing key = none

get-set_bytes_example :
    ((Storage.set serde app (lit "a") (1 ∷ []) nothing).1 ≡ ok tt)
    × ((Storage.get serde app (lit "b") (Storage.set serde app (lit "a") (1 ∷ []) nothing).0).1 ≡ (
        if equal (lit "a") (lit "b")
        then ok (some (1 ∷ []))
        else (Storage.get serde app (lit "b") nothing).1))
get-set_bytes_example = get-set_bytes serde app keeps nothing (lit "a") (1 ∷ []) (lit "b") refl

sets-succeeds : (perform serde app (sets (lit "a") (1 ∷ [])) nothing).1 ≡ true
unfolding perform
sets-succeeds =
    ap (λ (r : Result (Unit {0}) ApiError). is_ok r)
      (get-set_bytes serde app keeps nothing (lit "a") (1 ∷ []) (lit "b") refl).0

perform-Granted_example :
    Granted serde app nothing
      (perform serde app (sets (lit "a") (1 ∷ [])) nothing).0
      (asked_by {F = ℕ} (sets (lit "a") (1 ∷ [])))
perform-Granted_example = perform-Granted serde app (sets (lit "a") (1 ∷ [])) nothing sets-succeeds

abbrev counts : AssetCount
counts = record {
  portfolio_id = lit "p1";
  count_by_category = record { category = lit "Equity"; count = 2 ^ 32 + 3 } ∷ [];
}

decode_asset_count_iff_example :
    (decode_asset_count (asset_count_value (λ n. some n) counts) ≡ counts)
    ↔ (all fits counts.count_by_category ≡ true)
decode_asset_count_iff_example = decode_asset_count_iff ℕ (λ n. some n) counts
