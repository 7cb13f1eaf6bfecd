-- ===== src/ChangeSets/Operations.antt =====
-- backend/app/checklist/operations.py: a proposed operation narrowed to a stored one, with the schema
-- of backend/app/schemas/checklist.py that a stored operation is read by. `lower` is `str.lower`,
-- `parse_uuid` is pydantic's reading of an id, and `new_id` a fresh id.
pub mod Narrowing
pub mod Changes
pub mod Stored
mod Examples
use Prim.Native.Char.{Char, code}
use Prim.Native.String.{String}
use Prim.Native.String.{[] as empty_text, ◌∷◌ as ◌∷∷◌}
use text.Mathlib.Text.{◌==◌ as str_eq}
use ask_repo.Prelude.{
  ℕ, Bool, true, false, not, ◌&&◌, ◌||◌, Option, none, some, List, [], ◌∷◌, leb, if◌then◌else◌,
}

pub data OperationKind : Type 0 where
  add update remove : OperationKind

pub data ItemKind : Type 0 where
  positive negative : ItemKind

pub data Attribute : Type 0 where
  feature_attribute test_name_attribute expected_result_attribute : Attribute
  kind_attribute notes_attribute : Attribute

-- `value in set(ChecklistItemKind)`.
unfoldable pub known_kind : String → Option ItemKind
known_kind value =
    if str_eq value "positive"
    then some positive
    else if str_eq value "negative"
    then some negative
    else none

-- `UPDATABLE_FIELDS.get(key)`.
unfoldable pub updatable_field : String → Option Attribute
updatable_field key =
    if str_eq key "feature"
    then some feature_attribute
    else if str_eq key "testName"
    then some test_name_attribute
    else if str_eq key "expectedResult"
    then some expected_result_attribute
    else if str_eq key "kind"
    then some kind_attribute
    else if str_eq key "notes"
    then some notes_attribute
    else none

-- The table turned around: of its five attribute names, two differ from their keys.
unfoldable pub canonical_update_key : String → String
canonical_update_key key =
    if str_eq key "test_name"
    then "testName"
    else if str_eq key "expected_result"
    then "expectedResult"
    else key

unfoldable pub text_in : String → List String → Bool
text_in t [] = false
text_in t (w ∷ ws) = str_eq t w || text_in t ws

abbrev pub negative_words : List String
negative_words = "negative" ∷ "negatif" ∷ "failure" ∷ "error" ∷ "edge" ∷ "invalid" ∷ "sad" ∷ []

abbrev pub positive_words : List String
positive_words = "positive" ∷ "positif" ∷ "happy" ∷ "success" ∷ "valid" ∷ "nominal" ∷ []

-- The loop over the words.
unfoldable pub first_named : List String → ItemKind
unfolding text_in
first_named [] = positive
first_named (w ∷ ws) =
    let rest = first_named ws in
    if text_in w negative_words
    then negative
    else if text_in w positive_words
    then positive
    else rest

-- A letter of `[a-z]`.
abbrev pub is_letter : Char → Bool
is_letter c = leb 97 (code c) && leb (code c) 122

-- A letter goes to the front of the word that is being read.
abbrev pub onto_word : Char → List String → List String
onto_word c [] = (c ∷∷ empty_text) ∷ []
onto_word c (w ∷ ws) = (c ∷∷ w) ∷ ws

abbrev pub starts_with_separator : String → Bool
starts_with_separator empty_text = false
starts_with_separator (c ∷∷ cs) = not (is_letter c)

-- `re.split(r"[^a-z]+", text)`: a run of separators ends one word.
unfoldable pub split_words : String → List String
split_words empty_text = empty_text ∷ []
split_words (c ∷∷ cs) =
    let rest = split_words cs in
    if is_letter c
    then onto_word c rest
    else if starts_with_separator cs
    then rest
    else empty_text ∷ rest

unfoldable pub narrow_kind : (String → String) → String → ItemKind
unfolding first_named split_words
narrow_kind lower raw = first_named (split_words (lower raw))

-- `value or None`, of a text.
abbrev pub or_null : String → Option String
or_null empty_text = none
or_null (c ∷∷ cs) = some (c ∷∷ cs)

-- `value or None`, of a list or a mapping.
abbrev pub or_none {ℓ} : {A : Type ℓ} → List A → Option (List A)
or_none [] = none
or_none (x ∷ xs) = some (x ∷ xs)

abbrev pub or_empty {ℓ} : {A : Type ℓ} → Option (List A) → List A
or_empty none = []
or_empty (some xs) = xs

-- `value or default`, of an optional text.
abbrev pub or_text : Option String → String → String
or_text none default = default
or_text (some empty_text) default = default
or_text (some (c ∷∷ cs)) default = c ∷∷ cs

abbrev pub or_positive : Option ItemKind → ItemKind
or_positive none = positive
or_positive (some k) = k

-- backend/app/checklist/model_output.py: `ProposedOperation`. A citation is a number.
pub record ProposedOperation : Type 0 where
  pub op : OperationKind
  pub item_id : String
  pub kind : String
  pub feature : String
  pub test_name : String
  pub expected_result : String
  pub changes : List (String × String)
  pub rationale : String

-- The JSON that is stored.
pub record StoredOperation : Type 0 where
  pub op : OperationKind
  pub id : ℕ
  pub item_id : Option String
  pub feature : Option String
  pub test_name : Option String
  pub expected_result : Option String
  pub kind : Option ItemKind
  pub changes : Option (List (String × String))
  pub citations : Option (List ℕ)
  pub rationale : String

-- `ChangeOperationPayload`.
pub record Operation : Type 0 where
  pub op : OperationKind
  pub id : ℕ
  pub item_id : Option ℕ
  pub feature : Option String
  pub test_name : Option String
  pub expected_result : Option String
  pub kind : Option ItemKind
  pub changes : Option (List (String × String))
  pub citations : Option (List ℕ)
  pub rationale : String

abbrev pub with_id : StoredOperation → Option ℕ → Operation
with_id p item_id = record {
  op = p.op;
  id = p.id;
  item_id = item_id;
  feature = p.feature;
  test_name = p.test_name;
  expected_result = p.expected_result;
  kind = p.kind;
  changes = p.changes;
  citations = p.citations;
  rationale = p.rationale;
}

-- The reading of `itemId`, which fails on a text that is no UUID.
abbrev pub read_parsed : Option ℕ → Option (Option ℕ)
read_parsed none = none
read_parsed (some k) = some (some k)

abbrev pub read_item_id : (String → Option ℕ) → Option String → Option (Option ℕ)
read_item_id parse_uuid none = some none
read_item_id parse_uuid (some t) = read_parsed (parse_uuid t)

abbrev pub with_read : StoredOperation → Option (Option ℕ) → Option Operation
with_read p none = none
with_read p (some item_id) = some (with_id p item_id)

-- `ChangeOperationPayload.model_validate`: of what `stored_operation` writes, the item's id alone can fail.
unfoldable pub validate : (String → Option ℕ) → StoredOperation → Option Operation
validate parse_uuid p = with_read p (read_item_id parse_uuid p.item_id)

abbrev pub is_add : OperationKind → Bool
is_add add = true
is_add update = false
is_add remove = false

abbrev pub is_update : OperationKind → Bool
is_update add = false
is_update update = true
is_update remove = false

-- A mapping's item assignment: a key keeps its place.
unfoldable pub put : String → String → List (String × String) → List (String × String)
put key value [] = (key, value) ∷ []
put key value ((k, v) ∷ rest) =
    let more = put key value rest in if str_eq k key then (k, value) ∷ rest else (k, v) ∷ more

-- The comprehension over the items, onto what is collected so far.
unfoldable pub canonical_changes :
    List (String × String) → List (String × String) → List (String × String)
unfolding put
canonical_changes done [] = done
canonical_changes done ((key, value) ∷ rest) =
    canonical_changes (put (canonical_update_key key) value done) rest

abbrev pub keep_text_pair : String → String → List (String × String) → List (String × String)
keep_text_pair key empty_text rest = rest
keep_text_pair key (c ∷∷ cs) rest = (key, c ∷∷ cs) ∷ rest

-- `top_level`, without its empty texts.
abbrev pub top_level_changes : ProposedOperation → List (String × String)
top_level_changes o =
    keep_text_pair "feature" o.feature
      (keep_text_pair "testName" o.test_name (keep_text_pair "expectedResult" o.expected_result []))

abbrev pub is_empty_list {ℓ} : {A : Type ℓ} → List A → Bool
is_empty_list [] = true
is_empty_list (x ∷ xs) = false

unfoldable pub proposed_changes : ProposedOperation → List (String × String)
unfolding canonical_changes
proposed_changes o =
    if is_update o.op && is_empty_list (canonical_changes [] o.changes)
    then top_level_changes o
    else canonical_changes [] o.changes

unfoldable pub payload_of : (String → String) → ℕ → List ℕ → ProposedOperation → StoredOperation
unfolding proposed_changes narrow_kind
payload_of lower new_id citations o = record {
  op = o.op;
  id = new_id;
  item_id = if is_add o.op then none else or_null o.item_id;
  feature = or_null o.feature;
  test_name = or_null o.test_name;
  expected_result = or_null o.expected_result;
  kind = if is_add o.op then some (narrow_kind lower o.kind) else none;
  changes = or_none (proposed_changes o);
  citations = or_none citations;
  rationale = or_text (some o.rationale) "No rationale given.";
}

-- A payload that does not validate is dropped.
abbrev pub if_valid : StoredOperation → Option Operation → Option StoredOperation
if_valid p none = none
if_valid p (some read) = some p

unfoldable pub stored_operation :
    (String → String)
    → (String → Option ℕ)
    → ℕ
    → List ℕ
    → ProposedOperation
    → Option StoredOperation
unfolding payload_of validate
stored_operation lower parse_uuid new_id citations o =
    let p = payload_of lower new_id citations o in if_valid p (validate parse_uuid p)
