-- ===== src/ChangeSets/Operations/Examples.antt =====
-- Proposed operations as a model writes them.
use ask_repo.ChangeSets.Operations.Stored.{
  stored_operation_reads_back_changes, IsDropped, GivesWanted,
}
use Prim.Native.String.{String}
use text.Mathlib.Text.{◌==◌ as str_eq}
use ask_repo.Prelude.{ℕ, ◌≡◌, refl, ◌⊎◌, Option, none, some, [], ◌∷◌, if◌then◌else◌}
use ask_repo.ChangeSets.Operations.{
  OperationKind, ProposedOperation, first_named, narrow_kind, positive, split_words, text_in,
  update,
}

abbrev lower : String → String
lower t = t

abbrev parse_uuid : String → Option ℕ
parse_uuid t = if str_eq t "7" then some 7 else none

abbrev proposed : OperationKind → String → ProposedOperation
proposed kind item_id = record {
  op = kind;
  item_id = item_id;
  kind = "positive: not an error case";
  feature = "Login";
  test_name = "Right password";
  expected_result = "";
  changes = ("notes", "Twice") ∷ ("test_name", "Password") ∷ [];
  rationale = "";
}

label_wins : narrow_kind lower "positive: not an error case" ≡ positive
unfolding narrow_kind first_named text_in split_words
label_wins = refl

-- The text stands beside the changes.
abbrev beside_only : ProposedOperation
beside_only = record (proposed update "7") { changes = [] }

stored_operation_reads_back_changes_example :
    GivesWanted lower parse_uuid 30 [] beside_only "testName"
    ⊎ IsDropped lower parse_uuid 30 [] beside_only
stored_operation_reads_back_changes_example =
    stored_operation_reads_back_changes lower parse_uuid 30 [] beside_only "testName"
