-- ===== src/FetchGate/Origin.antt =====
-- Which hosts an allowlist covers, and what the gate lets through.
use hellohq_wasm_runtime.Prelude.{
  true, ◌||◌, List, [], ◌∷◌, ◌++◌, ◌≡◌, ◌↔◌, inl, inr, arith, In, here, there, Bool-cases,
  Option-cases,
}
use hellohq_wasm_runtime.Str.{Text, lit, equal, to_ascii_lowercase, strip_prefix, ends_with}
use hellohq_wasm_runtime.Str.Affix.{equal_iff, ends_with_iff, strip_prefix_iff}
use hellohq_wasm_runtime.FetchGate.Gate.{entry_matches, any_entry, origin_allowed, is_localhost}

-- The allowlist entry `origin` covers the host `host`, both lower-cased: it is the host, or it is
-- `*.suffix` and the host is the suffix, or ends with a dot and the suffix.
pub data Covers (origin host : Text) : Type 0 where
  exact : origin ≡ host → Covers origin host
  apex : (suffix : Text) → origin ≡ lit "*." ++ suffix → host ≡ suffix → Covers origin host
  subdomain :
      (suffix sub : Text)
      → origin ≡ lit "*." ++ suffix
      → host ≡ sub ++ (lit "." ++ suffix)
      → Covers origin host

entry_matches-Covers :
    (host origin : Text)
    → entry_matches host origin ≡ true
    → Covers (to_ascii_lowercase origin) host
unfolding entry_matches
entry_matches-Covers host origin h = elim (Bool-cases (equal (to_ascii_lowercase origin) host)) [
  | inl e ↦ exact ((equal_iff (to_ascii_lowercase origin) host).0 e)
  | inr e ↦ elim (Option-cases (strip_prefix (to_ascii_lowercase origin) (lit "*."))) [
    | inl n ↦ cc (rw (e, n) at h)
    | inr (suffix, p) ↦
        wildcard suffix ((strip_prefix_iff (to_ascii_lowercase origin) (lit "*.") suffix).0 p)
          (rw (e, p) at h)
  ]
]
  where
    wildcard :
        (suffix : Text)
        → to_ascii_lowercase origin ≡ lit "*." ++ suffix
        → (equal host suffix || ends_with host (lit "." ++ suffix)) ≡ true
        → Covers (to_ascii_lowercase origin) host
    wildcard suffix o t = elim (Bool-cases (equal host suffix)) [
      | inl q ↦ apex suffix o ((equal_iff host suffix).0 q)
      | inr q ↦
          let (sub, x) = (ends_with_iff host (lit "." ++ suffix)).0 (rw q at t) in
          subdomain suffix sub o x
    ]

Covers-entry_matches :
    (host origin : Text)
    → Covers (to_ascii_lowercase origin) host
    → entry_matches host origin ≡ true
unfolding entry_matches
Covers-entry_matches host origin (exact e) = rw ((equal_iff (to_ascii_lowercase origin) host).1 e)
Covers-entry_matches host origin (apex suffix o e) =
    rw
      (
        (strip_prefix_iff (to_ascii_lowercase origin) (lit "*.") suffix).1 o,
        (equal_iff host suffix).1 e,
      )
      (ground arith)
Covers-entry_matches host origin (subdomain suffix sub o e) =
    rw
      (
        (strip_prefix_iff (to_ascii_lowercase origin) (lit "*.") suffix).1 o,
        (ends_with_iff host (lit "." ++ suffix)).1 (sub, e),
      )
      (ground arith)

-- Some entry of the allowlist covers the host, whatever the case of either.
pub record Allowed (host : Text) (allowlist : List Text) : Type 0 where
  pub origin : Text
  pub listed : In origin allowlist
  pub covered : Covers (to_ascii_lowercase origin) (to_ascii_lowercase host)

any_entry-In :
    (host : Text) (allowlist : List Text)
    → any_entry host allowlist ≡ true
    → (origin : Text) × In origin allowlist × (entry_matches host origin ≡ true)
unfolding any_entry
any_entry-In host [] h = cc
any_entry-In host (o ∷ rest) h = elim (Bool-cases (entry_matches host o)) [
  | inl m ↦ (o, here, m)
  | inr m ↦ let (x, i, e) = any_entry-In host rest (rw m at h) in (x, there i, e)
]

In-any_entry :
    (host : Text) {origin : Text} {allowlist : List Text}
    → In origin allowlist
    → entry_matches host origin ≡ true
    → any_entry host allowlist ≡ true
unfolding any_entry
In-any_entry host here m = rw m
In-any_entry host (there {y} i) m = ground (arith, In-any_entry host i m)

-- A host is allowed exactly if an entry of the allowlist covers it, in any case of its letters.
pub origin_allowed_iff :
    (host : Text) (allowlist : List Text)
    → (origin_allowed host allowlist ≡ true) ↔ Allowed host allowlist
unfolding origin_allowed
origin_allowed_iff host allowlist = (
  λ h.
      let (o, i, m) = any_entry-In (to_ascii_lowercase host) allowlist h in
      record { origin = o; listed = i; covered = entry_matches-Covers _ o m },
  λ a. In-any_entry (to_ascii_lowercase host) a.listed (Covers-entry_matches _ a.origin a.covered),
)

-- The local host's names.
pub data Local (host : Text) : Type 0 where
  itself : host ≡ lit "localhost" → Local host
  below : (sub : Text) → host ≡ sub ++ lit ".localhost" → Local host

pub is_localhost-Local : (host : Text) → is_localhost host ≡ true → Local host
is_localhost-Local host h = elim (Bool-cases (equal host (lit "localhost"))) [
  | inl e ↦ itself ((equal_iff host (lit "localhost")).0 e)
  | inr e ↦ let (sub, s) = (ends_with_iff host (lit ".localhost")).0 (ground arith) in below sub s
]

pub Local-is_localhost : (host : Text) → Local host → is_localhost host ≡ true
Local-is_localhost host (itself e) = rw ((equal_iff host (lit "localhost")).1 e)
Local-is_localhost host (below sub e) =
    rw ((ends_with_iff host (lit ".localhost")).1 (sub, e)) (ground arith)
