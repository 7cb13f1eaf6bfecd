-- ===== src/ChangeSets/Operations/Stored.antt =====
-- What a stored operation keeps of the proposal.
use ask_repo.ChangeSets.Operations.Changes.{
  given, put-kept, or_else-none, canonical_changes-kept, or_else, beside, wanted_from, wanted,
  change_at-keep_text_pair, change_at,
}
use mathlib.Core.Path.{subst}
use ask_repo.ChangeSets.Operations.{
  is_update, or_null, ProposedOperation, canonical_update_key, put, canonical_changes,
  is_empty_list, keep_text_pair, proposed_changes, top_level_changes, Operation, StoredOperation,
  if_valid, is_add, or_empty, or_none, payload_of, read_item_id, read_parsed, stored_operation,
  validate, with_id, with_read,
}
use Prim.Native.String.{String}
use text.Mathlib.Text.{◌==◌ as str_eq}
use text.Mathlib.TextEquality.{eq_iff}
use ask_repo.Prelude.{
  ℕ, ◌≡◌, refl, ap, ◌∙◌, ◌⊎◌, inl, inr, Bool, true, false, ◌&&◌, Option, none, some, List, [], ◌∷◌,
  if◌then◌else◌, Bool-cases,
}
use ask_repo.Prelude.{
  ℕ, ◌≡◌, refl, ap, ◌∙◌, ◌⊎◌, inl, inr, Bool, true, false, ◌&&◌, Option, none, some, List, [], ◌∷◌,
  if◌then◌else◌, Bool-cases,
}

module _ (o : ProposedOperation) where
  beside_feature : change_at "feature" (top_level_changes o) ≡ or_null o.feature
  beside_feature =
      let k : String = "feature" in
      change_at-keep_text_pair k "feature" o.feature _
      ∙ ap (or_else (or_null o.feature)) (
          change_at-keep_text_pair k "testName" o.test_name _
          ∙ change_at-keep_text_pair k "expectedResult" o.expected_result [])
      ∙ or_else-none (or_null o.feature)

  beside_test_name : change_at "testName" (top_level_changes o) ≡ or_null o.test_name
  beside_test_name =
      let k : String = "testName" in
      change_at-keep_text_pair k "feature" o.feature _
      ∙ change_at-keep_text_pair k "testName" o.test_name _
      ∙ ap (or_else (or_null o.test_name))
          (change_at-keep_text_pair k "expectedResult" o.expected_result [])
      ∙ or_else-none (or_null o.test_name)

  beside_expected_result :
      change_at "expectedResult" (top_level_changes o) ≡ or_null o.expected_result
  beside_expected_result =
      let k : String = "expectedResult" in
      change_at-keep_text_pair k "feature" o.feature _
      ∙ change_at-keep_text_pair k "testName" o.test_name _
      ∙ change_at-keep_text_pair k "expectedResult" o.expected_result []
      ∙ or_else-none (or_null o.expected_result)

  beside_else :
      (k : String)
      → str_eq "feature" k ≡ false
      → str_eq "testName" k ≡ false
      → str_eq "expectedResult" k ≡ false
      → change_at k (top_level_changes o) ≡ none
  beside_else k a b c =
      let last = keep_text_pair "expectedResult" o.expected_result [] in
      let rest = keep_text_pair "testName" o.test_name last in
      rw (
        change_at-keep_text_pair k "feature" o.feature rest,
        a,
        change_at-keep_text_pair k "testName" o.test_name last,
        b,
        change_at-keep_text_pair k "expectedResult" o.expected_result [],
        c,
      )

  change_at-top_level_changes : (k : String) → change_at k (top_level_changes o) ≡ beside k o
  change_at-top_level_changes k = elim (Bool-cases (str_eq "feature" k)) [
    | inl e ↦
        subst (λ j. change_at j (top_level_changes o) ≡ beside j o) ((eq_iff "feature" k).0 e)
          beside_feature
    | inr a ↦ elim (Bool-cases (str_eq "testName" k)) [
      | inl e ↦
          subst (λ j. change_at j (top_level_changes o) ≡ beside j o) ((eq_iff "testName" k).0 e)
            beside_test_name
      | inr b ↦ elim (Bool-cases (str_eq "expectedResult" k)) [
        | inl e ↦
            subst (λ j. change_at j (top_level_changes o) ≡ beside j o)
              ((eq_iff "expectedResult" k).0 e) beside_expected_result
        | inr c ↦ rw (a, b, c) (beside_else k a b c)
      ]
    ]
  ]

  collected :
      (k : String) (b : Bool) (cs : List (String × String))
      → is_update o.op ≡ b
      → change_at k (
          if b && is_empty_list (canonical_changes [] cs)
          then top_level_changes o
          else canonical_changes [] cs)
        ≡ wanted_from k o cs
  unfolding canonical_changes
  collected k true [] e = rw e (change_at-top_level_changes k)
  collected k false [] e = rw e
  collected k true ((j, v) ∷ cs) e =
      let full : is_empty_list (canonical_changes (put (canonical_update_key j) v []) cs) ≡ false =
        canonical_changes-kept (put (canonical_update_key j) v []) cs
          (put-kept (canonical_update_key j) v []) in
      rw full (given k ((j, v) ∷ cs))
  collected k false (c ∷ cs) e = given k (c ∷ cs)

  change_at-proposed_changes : (k : String) → change_at k (proposed_changes o) ≡ wanted k o
  unfolding proposed_changes
  change_at-proposed_changes k = collected k (is_update o.op) o.changes refl

or_empty-or_none : {A : Type 0} (xs : List A) → or_empty (or_none xs) ≡ xs
or_empty-or_none [] = refl
or_empty-or_none (x ∷ xs) = refl

-- The item that a proposal names: an addition has none, whatever it says.
abbrev pub named_item : ProposedOperation → Option String
named_item o = if is_add o.op then none else or_null o.item_id

module _ (lower : String → String) (parse_uuid : String → Option ℕ) (new_id : ℕ)
    (citations : List ℕ) where
  -- Which operation is stored, and what a change of `k` in it says once it is read back.
  abbrev pub GivesWanted : ProposedOperation → String → Type 0
  GivesWanted o k =
      (p : StoredOperation) × (read : Operation) × (stored_operation lower parse_uuid new_id
          citations o
        ≡ some p)
      × (validate parse_uuid p ≡ some read)
      × (read.op ≡ o.op)
      × (change_at k (or_empty read.changes) ≡ wanted k o)

  abbrev pub IsDropped : ProposedOperation → Type 0
  IsDropped o =
      (t : String) × (named_item o ≡ some t)
      × (parse_uuid t ≡ none)
      × (stored_operation lower parse_uuid new_id citations o ≡ none)

  stored_read :
      (o : ProposedOperation) (k : String) (item_id : Option ℕ)
      → read_item_id parse_uuid (named_item o) ≡ some item_id
      → GivesWanted o k
  unfolding stored_operation validate payload_of
  stored_read o k item_id e =
      let p = payload_of lower new_id citations o in
      (
        p,
        with_id p item_id,
        ap (λ r. if_valid p (with_read p r)) e,
        ap (with_read p) e,
        refl,
        ap (change_at k) (or_empty-or_none (proposed_changes o)) ∙ change_at-proposed_changes o k,
      )

  parsed_cases :
      (o : ProposedOperation) (k t : String) (id : Option ℕ)
      → named_item o ≡ some t
      → parse_uuid t ≡ id
      → GivesWanted o k ⊎ IsDropped o
  unfolding stored_operation validate payload_of
  parsed_cases o k t (some j) e r =
      inl (stored_read o k (some j) (ap (read_item_id parse_uuid) e ∙ ap read_parsed r))
  parsed_cases o k t none e r =
      let p = payload_of lower new_id citations o in
      inr (
        t,
        e,
        r,
        ap (λ i. if_valid p (with_read p (read_item_id parse_uuid i))) e
            ∙ ap (λ d. if_valid p (with_read p (read_parsed d))) r,
      )

  named_cases :
      (o : ProposedOperation) (k : String) (item : Option String)
      → named_item o ≡ item
      → GivesWanted o k ⊎ IsDropped o
  named_cases o k none e = inl (stored_read o k none (ap (read_item_id parse_uuid) e))
  named_cases o k (some t) e = parsed_cases o k t (parse_uuid t) e refl

  -- A proposed operation is dropped only where it is no addition and the item that it names is not an
  -- id. Any other is stored, and the schema reads it back, as the same kind of operation. What its changes say
  -- of a key is then the last value that the proposal gave for it, under the key's own spelling or a column's
  -- name; and for an update that was proposed with no changes at all, the text beside them, unless that is
  -- empty too.
  pub stored_operation_reads_back_changes :
      (o : ProposedOperation) (k : String) → GivesWanted o k ⊎ IsDropped o
  stored_operation_reads_back_changes o k = named_cases o k (named_item o) refl
