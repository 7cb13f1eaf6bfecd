-- ===== src/ChangeSets/Operations/Changes.antt =====
-- What the changes of a stored operation say of each field.
use ask_repo.ChangeSets.Operations.{
  is_update, or_null, ProposedOperation, canonical_update_key, put, canonical_changes,
  is_empty_list, keep_text_pair,
}
use Prim.Native.String.{String}
use text.Mathlib.Text.{◌==◌ as str_eq}
use text.Mathlib.TextEquality.{eq_iff}
use Prim.Native.String.{[] as empty_text, ◌∷◌ as ◌∷∷◌}
use ask_repo.Prelude.{
  ◌≡◌, refl, ap, ◌∙◌, inl, inr, Bool, true, false, Option, none, some, List, [], ◌∷◌, arith,
  if◌then◌else◌, Bool-cases,
}

-- `changes.get(key)`.
abbrev pub change_at : String → List (String × String) → Option String
change_at k [] = none
change_at k ((j, v) ∷ m) = if str_eq j k then some v else change_at k m

abbrev pub or_else {ℓ} : {A : Type ℓ} → Option A → Option A → Option A
or_else none b = b
or_else (some a) b = some a

-- Whether a key means a field: a column's name means the field that the column holds.
abbrev pub spells : String → String → Bool
spells j k =
    if str_eq j "test_name"
    then str_eq "testName" k
    else if str_eq j "expected_result"
    then str_eq "expectedResult" k
    else str_eq j k

-- The last value that is given for a field, under any of its spellings.
abbrev pub last_given : String → List (String × String) → Option String
last_given k [] = none
last_given k ((j, v) ∷ rest) = or_else (last_given k rest) (if spells j k then some v else none)

-- The text beside the changes.
abbrev pub beside : String → ProposedOperation → Option String
beside k o =
    if str_eq "feature" k
    then or_null o.feature
    else if str_eq "testName" k
    then or_null o.test_name
    else if str_eq "expectedResult" k
    then or_null o.expected_result
    else none

abbrev pub wanted_from : String → ProposedOperation → List (String × String) → Option String
wanted_from k o [] = if is_update o.op then beside k o else none
wanted_from k o (c ∷ cs) = last_given k (c ∷ cs)

-- What a proposal wants of a field.
abbrev pub wanted : String → ProposedOperation → Option String
wanted k o = wanted_from k o o.changes

push_test :
    (a b : Bool) (x y z k : String)
    → str_eq (if a then x else if b then y else z) k
      ≡ (if a then str_eq x k else if b then str_eq y k else str_eq z k)
push_test true b x y z k = refl
push_test false true x y z k = refl
push_test false false x y z k = refl

canonical-spells : (j k : String) → str_eq (canonical_update_key j) k ≡ spells j k
unfolding canonical_update_key
canonical-spells j k =
    push_test (str_eq j "test_name") (str_eq j "expected_result") "testName" "expectedResult" j k

change_at-put :
    (k key v : String) (m : List (String × String))
    → change_at k (put key v m) ≡ (if str_eq key k then some v else change_at k m)
unfolding put
change_at-put k key v [] = refl
change_at-put k key v ((j, w) ∷ m) =
    ground (arith, eq_iff key k, eq_iff j key, eq_iff j k, change_at-put k key v m)

or_else_test :
    (b : Bool) (v : String) (x y : Option String)
    → or_else x (if b then some v else y) ≡ or_else (or_else x (if b then some v else none)) y
or_else_test true v none y = refl
or_else_test false v none y = refl
or_else_test b v (some w) y = refl

pub change_at-canonical_changes :
    (k : String) (done cs : List (String × String))
    → change_at k (canonical_changes done cs) ≡ or_else (last_given k cs) (change_at k done)
unfolding canonical_changes
change_at-canonical_changes k done [] = refl
change_at-canonical_changes k done ((j, v) ∷ cs) =
    change_at-canonical_changes k (put (canonical_update_key j) v done) cs
    ∙ ap (or_else (last_given k cs)) (
        change_at-put k (canonical_update_key j) v done
        ∙ ap (λ (b : Bool). if b then some v else change_at k done) (canonical-spells j k))
    ∙ or_else_test (spells j k) v (last_given k cs) (change_at k done)

pub or_else-none : {A : Type 0} (o : Option A) → or_else o none ≡ o
or_else-none none = refl
or_else-none (some a) = refl

pub put-kept : (key v : String) (m : List (String × String)) → is_empty_list (put key v m) ≡ false
unfolding put
put-kept key v [] = refl
put-kept key v ((j, w) ∷ m) = elim (Bool-cases (str_eq j key)) [
  | inl same ↦ rw same
  | inr other ↦ rw other
]

pub canonical_changes-kept :
    (done cs : List (String × String))
    → is_empty_list done ≡ false
    → is_empty_list (canonical_changes done cs) ≡ false
unfolding canonical_changes
canonical_changes-kept done [] h = h
canonical_changes-kept done ((j, v) ∷ cs) h =
    canonical_changes-kept (put (canonical_update_key j) v done) cs
      (put-kept (canonical_update_key j) v done)

pub change_at-keep_text_pair :
    (k key text : String) (rest : List (String × String))
    → change_at k (keep_text_pair key text rest)
      ≡ (if str_eq key k then or_else (or_null text) (change_at k rest) else change_at k rest)
change_at-keep_text_pair k key empty_text rest = ground arith
change_at-keep_text_pair k key (c ∷∷ cs) rest = ground arith

pub given :
    (k : String) (cs : List (String × String))
    → change_at k (canonical_changes [] cs) ≡ last_given k cs
given k cs = change_at-canonical_changes k [] cs ∙ or_else-none (last_given k cs)
