-- ===== src/ChangeSets/MockData/Proposals.antt =====
-- backend/app/mockdata/operations.py: a proposed record narrowed to a stored operation.
use Prim.Native.String.{String}
use ask_repo.Prelude.{
  ℕ, ◌≡◌, refl, Bool, true, false, not, ◌&&◌, Option, none, some, List, [], ◌∷◌, map, if◌then◌else◌,
}
use ask_repo.ChangeSets.Operations.{
  OperationKind, is_add, text_in, or_none, or_null, or_text, read_item_id,
}
use ask_repo.ChangeSets.MockData.{Fields}

-- backend/app/mockdata/model_output.py.
pub record ProposedMockDataOperation : Type 0 where
  pub op : OperationKind
  pub record_id : String
  pub fields : Fields
  pub changes : Fields
  pub rationale : String

-- The JSON that is stored.
pub record StoredMockDataOperation : Type 0 where
  pub op : OperationKind
  pub id : ℕ
  pub record_id : Option String
  pub fields : Option Fields
  pub changes : Option Fields
  pub rationale : String

abbrev pub keys_of : Fields → List String
keys_of fields = map (λ f. f.0) fields

-- `<=` on sets.
unfoldable pub all_in : List String → List String → Bool
unfolding text_in
all_in [] ts = true
all_in (w ∷ ws) ts = text_in w ts && all_in ws ts

-- `field_keys is not None and set(operation.fields) != set(field_keys)`.
abbrev pub keys_differ : Option (List String) → Fields → Bool
keys_differ none fields = false
keys_differ (some ks) fields = not (all_in (keys_of fields) ks && all_in ks (keys_of fields))

unfoldable pub record_payload : ℕ → ProposedMockDataOperation → StoredMockDataOperation
record_payload new_id o = record {
  op = o.op;
  id = new_id;
  record_id = if is_add o.op then none else or_null o.record_id;
  fields = or_none o.fields;
  changes = or_none o.changes;
  rationale = or_text (some o.rationale) "No rationale given.";
}

-- `model_validate`: of what is written here, the record's id alone can fail.
abbrev pub if_record_valid :
    StoredMockDataOperation → Option (Option ℕ) → Option StoredMockDataOperation
if_record_valid p none = none
if_record_valid p (some record_id) = some p

unfoldable pub stored_mock_data_operation :
    (String → Option ℕ)
    → ℕ
    → Option (List String)
    → ProposedMockDataOperation
    → Option StoredMockDataOperation
unfolding record_payload all_in
stored_mock_data_operation parse_uuid new_id field_keys o =
    if is_add o.op && keys_differ field_keys o.fields
    then none
    else (let p = record_payload new_id o in
        if_record_valid p (read_item_id parse_uuid p.record_id))

-- An addition with the key set of its batch is stored, with its fields, whatever its record id.
add_stored :
    (parse_uuid : String → Option ℕ) (new_id : ℕ) (ks : List String) (o : ProposedMockDataOperation)
    → is_add o.op ≡ true
    → all_in (keys_of o.fields) ks ≡ true
    → all_in ks (keys_of o.fields) ≡ true
    → stored_mock_data_operation parse_uuid new_id (some ks) o ≡ some (record_payload new_id o)
unfolding stored_mock_data_operation record_payload
add_stored parse_uuid new_id ks o h e f = rw h (rw e (rw f refl))
