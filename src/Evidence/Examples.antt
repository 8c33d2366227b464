-- ===== src/Evidence/Examples.antt =====
-- Runs on concrete inputs.
use flight_safety.Evidence.Bundle.Bound
use flight_safety.Evidence.Paths.Inside
use flight_safety.Evidence.Store.WriteOnce
use flight_safety.Evidence.Store.Recorded
use flight_safety.Evidence.Store.Receipt
use flight_safety.Evidence.Run.Confined
use flight_safety.Evidence.Store.{
  Bytes, Host, Store, adopt_existing, document_hash, finalize, receipt, record_artifact, regular,
  stored, stored_part, write_bytes,
}
use flight_safety.Evidence.SelfHash.{
  Document, self_hash_field, self_hash_valid, self_hash_valid-with_self_hash, string,
  with_self_hash, without,
}
use flight_safety.Prelude.{
  List, String, [], any, false, length, none, refl, some, true, ◌∷◌, ◌≡◌, All,
}
use flight_safety.Evidence.Store.WriteOnce.{
  Operation, adopt, finish, foreign, perform, perform_all, write,
}
use flight_safety.Evidence.Paths.{
  RawPath, checked_relative, is_up, leaves_root, normalize, push_part, render,
}
use flight_safety.Evidence.Run.{
  directory, matches_rest, matches_run_id, missing, new_store, open_run,
}
use flight_safety.Prelude.Text.{insert, lookup}
use flight_safety.Evidence.Bundle.{
  Binding, Manifest, Required, content_failures, entry_failures, external_gate, file_entry_ok,
  file_gate, manifest, matches_hex, unbound, unbound_file, validate,
}

abbrev digest : Bytes → String
digest [] = "e3b0"
digest (b ∷ rest) = "9f86"

abbrev host : Host
host = record {
  sha256 = digest;
  canonical = λ d. length d ∷ [];
  pretty = λ d. 123 ∷ (length d ∷ (10 ∷ []));
  encode = λ s. 7 ∷ [];
}

abbrev log_path : RawPath
log_path = record { absolute = false; parts = "logs" ∷ ("." ∷ ("node" ∷ (".." ∷ ("a" ∷ [])))) }

abbrev climbing_path : RawPath
climbing_path = record { absolute = false; parts = "logs" ∷ (".." ∷ (".." ∷ ("a" ∷ []))) }

climbing_path_refused : checked_relative climbing_path ≡ none
unfolding checked_relative normalize push_part leaves_root
climbing_path_refused = refl

checked_relative-inside_example : (false ≡ false) × (any is_up ("a" ∷ ("logs" ∷ [])) ≡ false)
unfolding checked_relative normalize push_part leaves_root
checked_relative-inside_example = Inside.checked_relative-inside log_path ("a" ∷ ("logs" ∷ [])) refl

abbrev receipt_path : RawPath
receipt_path = record { absolute = false; parts = "receipt.json" ∷ [] }

abbrev old_document : Document
old_document = (self_hash_field, string "old") ∷ (("schema", string "v1") ∷ [])

self_hash_valid-with_self_hash_example :
    self_hash_valid (document_hash host) (with_self_hash (document_hash host) old_document) ≡ true
self_hash_valid-with_self_hash_example =
    self_hash_valid-with_self_hash (document_hash host) old_document

old_document_invalid : self_hash_valid (document_hash host) old_document ≡ false
unfolding self_hash_valid without lookup
old_document_invalid = refl

-- A first write, a refused second one, a write that fails half-way, and the receipt.
abbrev session : List Operation
session =
    write log_path "text/plain" (1 ∷ (2 ∷ [])) stored
    ∷ (write log_path "text/plain" (3 ∷ []) stored
        ∷ (write (record { absolute = false; parts = "b" ∷ [] }) "text/plain" (3 ∷ (4 ∷ []))
              (stored_part (3 ∷ []))
            ∷ (foreign "c.bag" (regular (9 ∷ []))
                ∷ (adopt (record { absolute = false; parts = "c.bag" ∷ [] }) "application/x-rosbag"
                    ∷ (finish "rule" old_document receipt_path stored ∷ [])))))

abbrev first_store : Store
first_store = (write_bytes host log_path "text/plain" (1 ∷ (2 ∷ [])) stored new_store).0

session_records : length (perform_all host session new_store).artifacts ≡ 3
unfolding perform_all perform write_bytes adopt_existing finalize record_artifact checked_relative
    normalize push_part leaves_root render lookup insert
session_records = refl

perform_all-Extends_example :
    lookup "logs/a" (perform_all host session first_store).disk ≡ some (regular (1 ∷ (2 ∷ [])))
unfolding write_bytes record_artifact checked_relative normalize push_part leaves_root render lookup
    insert
perform_all-Extends_example =
    WriteOnce.perform_all-Extends host session first_store "logs/a" (regular (1 ∷ (2 ∷ []))) refl

perform_all-AllRecorded_example : Recorded.AllRecorded host (perform_all host session new_store)
perform_all-AllRecorded_example = Recorded.perform_all-AllRecorded host session new_store tt

receipt-IsReceipt_example :
    Receipt.IsReceipt host
      (perform_all host session new_store)
      (receipt host "rule" old_document (perform_all host session new_store))
receipt-IsReceipt_example =
    Receipt.receipt-IsReceipt host "rule" old_document (perform_all host session new_store)
      (Recorded.perform_all-AllRecorded host session new_store tt)

open_run-confined_example :
    (true ≡ true)
    × ((Confined.begins_alnum "run-1.a" ≡ true)
        × ((Confined.has_code 47 "run-1.a" ≡ false) × (new_store.artifacts ≡ [])))
unfolding open_run matches_run_id matches_rest
open_run-confined_example = Confined.open_run-confined true directory "run-1.a" false new_store refl

trailing_line_feed_accepted : open_run true missing "run\n" false ≡ some new_store
unfolding open_run matches_run_id matches_rest
trailing_line_feed_accepted = refl

slash_refused : open_run true missing "a/b" false ≡ none
unfolding open_run matches_run_id matches_rest
slash_refused = refl

abbrev node_digest : String
node_digest = "0123456789abcdef0123456789abcdef0123456789abcdef0123456789abcdef"

abbrev node_binding : Binding
node_binding = record { path = some "src/node.py"; digest = some node_digest }

abbrev bundle : Manifest
bundle = record {
  schema = some "flight_safety/fcu_shadow_source_bundle/v3";
  files = some (("src/node.py", some node_digest) ∷ []);
  file_roles = some (("node", some node_binding) ∷ []);
  external_sources = some [];
}

abbrev required_files : List Required
required_files = record { label = "node"; expected = node_binding } ∷ []

validate-IsBound_example : All (Bound.IsBound bundle) required_files
unfolding validate content_failures entry_failures file_entry_ok matches_hex unbound file_gate
    external_gate lookup
validate-IsBound_example = Bound.validate-IsBound (manifest bundle) required_files [] refl

missing_role_fails :
    validate (manifest bundle) (record { label = "core"; expected = node_binding } ∷ []) []
    ≡ unbound_file "core" ∷ []
unfolding validate content_failures entry_failures file_entry_ok matches_hex unbound file_gate
    external_gate lookup
missing_role_fails = refl
