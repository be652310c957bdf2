-- ===== src/Http/Multimap.antt =====
-- The abstract view of a `fields` resource: a map from names, up to case, to lists of values; and
-- that the host's mutating methods implement the map's updates on the one resource they name.
use hellohq_wasm_runtime.Prelude.{
  ℕ, Bool, true, false, not, List, [], ◌∷◌, ◌++◌, ◌≡◌, inl, inr, refl, sym, ap, none, some, arith,
  map, keep-append, ◌==◌, Result, ok, err, if◌then◌else◌, Bool-cases, Option-cases, append-nil,
}
use mathlib.Core.List.{map-append}
use hellohq_wasm_runtime.Str.{Text, eq_ignore_ascii_case}
use hellohq_wasm_runtime.Str.Case.{eq_ignore_ascii_case_iff}
use hellohq_wasm_runtime.Http.Table
use hellohq_wasm_runtime.Http.Table.{table_laws}
use hellohq_wasm_runtime.Http.Entries
use hellohq_wasm_runtime.Http.Entries.{FieldValue, FieldsData, others, values}
use hellohq_wasm_runtime.Http.Fields
use hellohq_wasm_runtime.Http.Fields.{HeaderError, immutable}
use hellohq_wasm_runtime.Http.Data.{Host}

abbrev pub same : Text → Text → Bool
same a b = eq_ignore_ascii_case a b

same_symm : (a b : Text) → same a b ≡ same b a
same_symm a b = ground (arith, eq_ignore_ascii_case_iff a b, eq_ignore_ascii_case_iff b a)

same_trans : (a b c : Text) → same a b ≡ true → same a c ≡ same b c
same_trans a b c h = ground (
  arith,
  eq_ignore_ascii_case_iff a b,
  eq_ignore_ascii_case_iff a c,
  eq_ignore_ascii_case_iff b c,
)

values-append :
    (n : Text) (xs ys : List (Text × FieldValue)) → values n (xs ++ ys) ≡ values n xs ++ values n ys
unfolding values
values-append n xs ys = rw keep-append (map-append (λ e. e.1) _ _)

values-others_matched :
    (n name : Text) (xs : List (Text × FieldValue))
    → same name n ≡ true
    → values n (others name xs) ≡ []
unfolding values
values-others_matched n name [] h = refl
values-others_matched n name (e ∷ xs) h =
    ground (arith, same_trans name n e.0 h, values-others_matched n name xs h)

values-others_other :
    (n name : Text) (xs : List (Text × FieldValue))
    → same name n ≡ false
    → values n (others name xs) ≡ values n xs
unfolding values
values-others_other n name [] h = refl
values-others_other n name (e ∷ xs) h = elim (Bool-cases (same name e.0)) [
  | inr d ↦ rw d (ground (arith, values-others_other n name xs h))
  | inl d ↦
      let differs : same n e.0 ≡ false = ground (
        arith,
        h,
        d,
        eq_ignore_ascii_case_iff n e.0,
        eq_ignore_ascii_case_iff name e.0,
        eq_ignore_ascii_case_iff name n,
      ) in
      rw (d, differs) (values-others_other n name xs h)
]

values-named :
    (n name : Text) (vs : List FieldValue)
    → values n (map (λ v. (name, v)) vs) ≡ (if same name n then vs else [])
unfolding values
values-named n name [] = ground arith
values-named n name (v ∷ vs) = ground (arith, same_symm n name, values-named n name vs)

-- The abstract map, and a mutating call with its update of the map and its reply.
abbrev pub Multimap : Type 0
Multimap = Text → List FieldValue

pub data Edit : Type 0 where
  set : Text → List FieldValue → Edit
  delete get_and_delete : Text → Edit
  append : Text → FieldValue → Edit

abbrev pub updated : Edit → Multimap → Multimap
updated (set name vs) m n = if same name n then vs else m n
updated (delete name) m n = if same name n then [] else m n
updated (get_and_delete name) m n = if same name n then [] else m n
updated (append name v) m n = if same name n then m n ++ v ∷ [] else m n

-- The values that the call returns; only `get_and_delete` has any.
abbrev pub reply : Edit → Multimap → List FieldValue
reply (get_and_delete name) m = m name
reply _ m = []

-- The same update of an entry.
edited : Edit → FieldsData → FieldsData
edited (set name vs) f = Entries.set f name vs
edited (delete name) f = Entries.delete f name
edited (get_and_delete name) f = (Entries.get_and_delete f name).0
edited (append name v) f = Entries.append f name v

abbrev silent : Host × Result (Unit {0}) HeaderError → Host × Result (List FieldValue) HeaderError
silent (h, ok _) = (h, ok [])
silent (h, err e) = (h, err e)

-- The host's method for the call.
unfoldable pub perform : Edit → Host → ℕ → Host × Result (List FieldValue) HeaderError
perform (set name vs) h rep = silent (Fields.set h rep name vs)
perform (delete name) h rep = silent (Fields.delete h rep name)
perform (get_and_delete name) h rep = Fields.get_and_delete h rep name
perform (append name v) h rep = silent (Fields.append h rep name v)

get-edited :
    (e : Edit) (f : FieldsData) (n : Text)
    → Entries.get (edited e f) n ≡ updated e (Entries.get f) n
unfolding edited Entries.get Entries.set Entries.delete Entries.get_and_delete Entries.append
get-edited (set name vs) f n = elim (Bool-cases (same name n)) [
  | inl s ↦
      rw values-append (rw (values-others_matched n name f.entries s, values-named n name vs, s))
  | inr s ↦
      rw values-append
        (rw (values-others_other n name f.entries s, values-named n name vs, s) (append-nil _))
]
get-edited (delete name) f n = elim (Bool-cases (same name n)) [
  | inl s ↦ rw (values-others_matched n name f.entries s, s)
  | inr s ↦ rw (values-others_other n name f.entries s, s)
]
get-edited (get_and_delete name) f n = elim (Bool-cases (same name n)) [
  | inl s ↦ rw (values-others_matched n name f.entries s, s)
  | inr s ↦ rw (values-others_other n name f.entries s, s)
]
get-edited (append name v) f n = elim (Bool-cases (same name n)) [
  | inl s ↦ rw values-append (rw (values-named n name (v ∷ []), s))
  | inr s ↦ rw values-append (rw (values-named n name (v ∷ []), s) (append-nil _))
]

module _ {ℓ} {B : Type ℓ} (h : Host) (rep : ℕ) (f : FieldsData → FieldsData × B) where
  edit-mutable :
      {d : FieldsData}
      → Table.get h.fields rep ≡ some d
      → d.immutable ≡ false
      → Fields.edit h rep f ≡ (record h { fields = Table.put h.fields rep (f d).0 }, ok (f d).1)
  unfolding Fields.edit
  edit-mutable there m = rw (Fields.edit, there, m)

  edit-immutable :
      {d : FieldsData}
      → Table.get h.fields rep ≡ some d
      → d.immutable ≡ true
      → Fields.edit h rep f ≡ (h, err immutable)
  unfolding Fields.edit
  edit-immutable there m = rw (Fields.edit, there, m)

  edit-missing : Table.get h.fields rep ≡ none → Fields.edit h rep f ≡ (h, err immutable)
  unfolding Fields.edit
  edit-missing gone = rw (Fields.edit, gone)

-- Whether `rep` names a `fields` that may be written.
unfoldable pub is_mutable : Host → ℕ → Bool
is_mutable h rep = Fields.read h rep false (λ f. not f.immutable)

module _ (h : Host) (rep : ℕ) {f : FieldsData} (there : Table.get h.fields rep ≡ some f) where
  perform-mutable :
      (e : Edit)
      → f.immutable ≡ false
      → perform e h rep
        ≡ (record h { fields = Table.put h.fields rep (edited e f) }, ok (reply e (Entries.get f)))
  unfolding perform edited Fields.set Fields.delete Fields.get_and_delete Fields.append
      Entries.get_and_delete
  perform-mutable (set name vs) m = ap silent (edit-mutable h rep _ there m)
  perform-mutable (delete name) m = ap silent (edit-mutable h rep _ there m)
  perform-mutable (get_and_delete name) m = edit-mutable h rep _ there m
  perform-mutable (append name v) m = ap silent (edit-mutable h rep _ there m)

  perform-immutable : (e : Edit) → f.immutable ≡ true → perform e h rep ≡ (h, err immutable)
  unfolding perform Fields.set Fields.delete Fields.get_and_delete Fields.append
  perform-immutable (set name vs) m = ap silent (edit-immutable h rep _ there m)
  perform-immutable (delete name) m = ap silent (edit-immutable h rep _ there m)
  perform-immutable (get_and_delete name) m = edit-immutable h rep _ there m
  perform-immutable (append name v) m = ap silent (edit-immutable h rep _ there m)

perform-missing :
    (e : Edit) (h : Host) (rep : ℕ)
    → Table.get h.fields rep ≡ none
    → perform e h rep ≡ (h, err immutable)
unfolding perform Fields.set Fields.delete Fields.get_and_delete Fields.append
perform-missing (set name vs) h rep gone = ap silent (edit-missing h rep _ gone)
perform-missing (delete name) h rep gone = ap silent (edit-missing h rep _ gone)
perform-missing (get_and_delete name) h rep gone = edit-missing h rep _ gone
perform-missing (append name v) h rep gone = ap silent (edit-missing h rep _ gone)

mutable-inv :
    (h : Host) (rep : ℕ)
    → is_mutable h rep ≡ true
    → (f : FieldsData) × (Table.get h.fields rep ≡ some f) × (f.immutable ≡ false)
unfolding is_mutable
mutable-inv h rep m = elim (Option-cases (Table.get h.fields rep)) [
  | inl gone ↦ ground (arith, gone, m)
  | inr (f, there) ↦ (f, there, ground (arith, there, m))
]

pub get-put :
    (h : Host) (rep r : ℕ) (f : FieldsData) (n : Text)
    → Fields.get (record h { fields = Table.put h.fields rep f }) r n
      ≡ (if rep == r then Entries.get f n else Fields.get h r n)
unfolding Fields.get
get-put h rep r f n =
    rw (Fields.read, Table.get-put) (elim (Bool-cases (rep == r)) [ inl s ↦ rw s | inr s ↦ rw s ])

pub get-there :
    (h : Host) (rep : ℕ) {f : FieldsData} (n : Text)
    → Table.get h.fields rep ≡ some f
    → Fields.get h rep n ≡ Entries.get f n
unfolding Fields.get
get-there h rep n there = rw (Fields.read, there)

-- On a `fields` that may be written, a mutating call updates the map of the resource it names, leaves
-- the map of every other resource as it was, and returns the reply for the map before the call.
pub perform_refines :
    (e : Edit) (h : Host) (rep r : ℕ) (n : Text)
    → is_mutable h rep ≡ true
    → (Fields.get (perform e h rep).0 r n
        ≡ (if rep == r then updated e (Fields.get h rep) n else Fields.get h r n))
      × ((perform e h rep).1 ≡ ok (reply e (Fields.get h rep)))
perform_refines e h rep r n m =
    let (f, there, may) = mutable-inv h rep m in
    let done = perform-mutable h rep there e may in
    let seen : Fields.get h rep ≡ Entries.get f = λ i k. get-there h rep k there i in
    (
      rw (done, get-put, get-edited)
          (ap (λ g. if rep == r then updated e g n else Fields.get h r n) (sym seen)),
      rw done (ap (λ g. ok (reply e g)) (sym seen)),
    )

-- On a missing or an immutable `fields`, every mutating call changes nothing and is refused.
pub perform_refused :
    (e : Edit) (h : Host) (rep : ℕ)
    → is_mutable h rep ≡ false
    → perform e h rep ≡ (h, err immutable)
unfolding is_mutable
perform_refused e h rep m = elim (Option-cases (Table.get h.fields rep)) [
  | inl gone ↦ perform-missing e h rep gone
  | inr (f, there) ↦ perform-immutable h rep there e (ground (arith, there, m))
]
