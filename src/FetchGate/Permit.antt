-- ===== src/FetchGate/Permit.antt =====
-- The gate as a whole: what it lets through, and with which denial it refuses the rest.
use hellohq_wasm_runtime.Prelude.{
  Bool, true, false, not, List, ◌≡◌, ◌↔◌, inl, inr, refl, ap, subst, some, Bool-cases, Option-cases,
  if◌then◌else◌, Result, ok, err,
}
use hellohq_wasm_runtime.Str.{Text, lit, to_ascii_lowercase, eq_ignore_ascii_case}
use hellohq_wasm_runtime.Str.Case.{eq_ignore_ascii_case_iff}
use hellohq_wasm_runtime.FetchGate.Address.{IpAddr, is_blocked_address}
use hellohq_wasm_runtime.FetchGate.Gate.{
  FetchDenial, scheme_blocked, origin_blocked, address_blocked, origin_allowed, is_localhost,
  is_blocked_literal, check_request,
}
use hellohq_wasm_runtime.FetchGate.IpText.{parse_ip}
use hellohq_wasm_runtime.FetchGate.Origin.{
  Allowed, origin_allowed_iff, Local, is_localhost-Local, Local-is_localhost,
}

-- The tests of the gate on one request, and its result by them.
abbrev decide_by : Bool → Bool → Bool → Bool → Result (Unit {0}) FetchDenial
decide_by https allowed local blocked =
    if not https
    then err scheme_blocked
    else if not allowed
    then err origin_blocked
    else if local
    then err address_blocked
    else if blocked
    then err address_blocked
    else ok tt

abbrev pub IsHttps : Text → Type 0
IsHttps scheme = to_ascii_lowercase scheme ≡ lit "https"

-- `host` is an IP literal that is blocked.
pub record BlockedLiteral (host : Text) : Type 0 where
  pub ip : IpAddr
  pub reads_as : parse_ip host ≡ some ip
  pub is_blocked : is_blocked_address ip ≡ true

is_blocked_literal_iff :
    (host : Text) → (is_blocked_literal (parse_ip host) ≡ true) ↔ BlockedLiteral host
is_blocked_literal_iff host = (to, from)
  where
    to : is_blocked_literal (parse_ip host) ≡ true → BlockedLiteral host
    to h = elim (Option-cases (parse_ip host)) [
      | inl n ↦ cc (rw n at h)
      | inr (ip, e) ↦ record { ip = ip; reads_as = e; is_blocked = rw e at h }
    ]

    from : BlockedLiteral host → is_blocked_literal (parse_ip host) ≡ true
    from b = rw b.reads_as b.is_blocked

is_localhost_iff : (host : Text) → (is_localhost host ≡ true) ↔ Local host
is_localhost_iff host = (is_localhost-Local host, Local-is_localhost host)

scheme_test : (scheme : Text) → (eq_ignore_ascii_case scheme (lit "https") ≡ true) ↔ IsHttps scheme
unfolding to_ascii_lowercase
scheme_test scheme = eq_ignore_ascii_case_iff scheme (lit "https")

-- The denial of a request, by the first of the gate's conditions that it does not meet.
pub data Denied (scheme host : Text) (allowlist : List Text) : FetchDenial → Type 0 where
  bad_scheme : ¬ IsHttps scheme → Denied scheme host allowlist scheme_blocked
  not_listed :
      IsHttps scheme → ¬ Allowed host allowlist → Denied scheme host allowlist origin_blocked
  local_host :
      IsHttps scheme
      → Allowed host allowlist
      → Local (to_ascii_lowercase host)
      → Denied scheme host allowlist address_blocked
  blocked_address :
      IsHttps scheme
      → Allowed host allowlist
      → ¬ Local (to_ascii_lowercase host)
      → BlockedLiteral host
      → Denied scheme host allowlist address_blocked

-- A request that meets all four.
pub record Permitted (scheme host : Text) (allowlist : List Text) : Type 0 where
  pub https : IsHttps scheme
  pub allowed : Allowed host allowlist
  pub not_local : ¬ Local (to_ascii_lowercase host)
  pub not_blocked : ¬ BlockedLiteral host

-- What the gate answers.
abbrev pub Verdict : Text → Text → List Text → Result (Unit {0}) FetchDenial → Type 0
Verdict scheme host allowlist (ok _) = Permitted scheme host allowlist
Verdict scheme host allowlist (err d) = Denied scheme host allowlist d

-- A test that decides a statement.
reflect_false : {P : Type 0} (b : Bool) → (b ≡ true) ↔ P → b ≡ false → ¬ P
reflect_false b i e p = cc (e, i.1 p)

refute : {P : Type 0} (b : Bool) → (b ≡ true) ↔ P → ¬ P → b ≡ false
refute b i n = elim (Bool-cases b) [ inl e ↦ absurd (n (i.0 e)) | inr e ↦ e ]

module _ (scheme host : Text) (allowlist : List Text) where
  decide_by-Verdict :
      (https listed local blocked : Bool)
      → (https ≡ true) ↔ IsHttps scheme
      → (listed ≡ true) ↔ Allowed host allowlist
      → (local ≡ true) ↔ Local (to_ascii_lowercase host)
      → (blocked ≡ true) ↔ BlockedLiteral host
      → Verdict scheme host allowlist (decide_by https listed local blocked)
  decide_by-Verdict false listed local blocked h a l b = bad_scheme (reflect_false false h refl)
  decide_by-Verdict true false local blocked h a l b =
      not_listed (h.0 refl) (reflect_false false a refl)
  decide_by-Verdict true true true blocked h a l b = local_host (h.0 refl) (a.0 refl) (l.0 refl)
  decide_by-Verdict true true false true h a l b =
      blocked_address (h.0 refl) (a.0 refl) (reflect_false false l refl) (b.0 refl)
  decide_by-Verdict true true false false h a l b = record {
    https = h.0 refl;
    allowed = a.0 refl;
    not_local = reflect_false false l refl;
    not_blocked = reflect_false false b refl;
  }

  check_request-Verdict : Verdict scheme host allowlist (check_request scheme host allowlist)
  unfolding check_request
  check_request-Verdict =
      decide_by-Verdict (eq_ignore_ascii_case scheme (lit "https")) (origin_allowed host allowlist)
        (is_localhost (to_ascii_lowercase host)) (is_blocked_literal (parse_ip host))
        (scheme_test scheme) (origin_allowed_iff host allowlist)
        (is_localhost_iff (to_ascii_lowercase host)) (is_blocked_literal_iff host)

  Denied-unique :
      (d e : FetchDenial) → Denied scheme host allowlist d → Denied scheme host allowlist e → d ≡ e
  Denied-unique _ _ (bad_scheme n) (bad_scheme m) = refl
  Denied-unique _ _ (bad_scheme n) (not_listed h m) = absurd (n h)
  Denied-unique _ _ (bad_scheme n) (local_host h a l) = absurd (n h)
  Denied-unique _ _ (bad_scheme n) (blocked_address h a l b) = absurd (n h)
  Denied-unique _ _ (not_listed h n) (bad_scheme m) = absurd (m h)
  Denied-unique _ _ (not_listed h n) (not_listed k m) = refl
  Denied-unique _ _ (not_listed h n) (local_host k a l) = absurd (n a)
  Denied-unique _ _ (not_listed h n) (blocked_address k a l b) = absurd (n a)
  Denied-unique _ _ (local_host h a l) (bad_scheme m) = absurd (m h)
  Denied-unique _ _ (local_host h a l) (not_listed k m) = absurd (m a)
  Denied-unique _ _ (local_host h a l) _ = refl
  Denied-unique _ _ (blocked_address h a l b) (bad_scheme m) = absurd (m h)
  Denied-unique _ _ (blocked_address h a l b) (not_listed k m) = absurd (m a)
  Denied-unique _ _ (blocked_address h a l b) _ = refl

  not-Permitted-Denied :
      (d : FetchDenial) → Permitted scheme host allowlist → ¬ Denied scheme host allowlist d
  not-Permitted-Denied _ p (bad_scheme n) = n p.https
  not-Permitted-Denied _ p (not_listed h n) = n p.allowed
  not-Permitted-Denied _ p (local_host h a l) = p.not_local l
  not-Permitted-Denied _ p (blocked_address h a l b) = p.not_blocked b

  Verdict-unique :
      (r q : Result (Unit {0}) FetchDenial)
      → Verdict scheme host allowlist r
      → Verdict scheme host allowlist q
      → r ≡ q
  Verdict-unique (ok _) (ok _) v w = refl
  Verdict-unique (ok _) (err d) v w = absurd (not-Permitted-Denied d v w)
  Verdict-unique (err d) (ok _) v w = absurd (not-Permitted-Denied d w v)
  Verdict-unique (err d) (err e) v w = ap err (Denied-unique d e v w)

  -- The gate permits exactly the requests whose scheme is https in any case, whose host an entry of
  -- the allowlist covers, whose host is no local name, and whose host is no blocked IP literal; and
  -- it denies every other request by the first of these conditions that fails.
  pub check_request_iff :
      (r : Result (Unit {0}) FetchDenial)
      → (check_request scheme host allowlist ≡ r) ↔ Verdict scheme host allowlist r
  check_request_iff r = (
    λ e. subst (Verdict scheme host allowlist) e check_request-Verdict,
    Verdict-unique (check_request scheme host allowlist) r check_request-Verdict,
  )
