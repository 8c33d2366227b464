-- ===== src/Evidence/Bundle.antt =====
-- `validate_source_bundle_manifest`, with its failures. A JSON value that is not a text is `none`.
pub mod Bound
use Prim.Native.Char.{code}
use flight_safety.Prelude.{
  Bool, List, Option, String, [], all, false, if◌then◌else◌, is_some, leb, none, not, some, suc,
  true, zero, ℕ, ◌&&◌, ◌++◌, ◌==◌, ◌||◌, ◌∷◌,
}
use flight_safety.Prelude.Text.{lookup, str_eq}
use Prim.Native.String

-- A record of a role: `{"path": …, "sha256": …}`.
pub record Binding : Type 0 where
  pub path : Option String
  pub digest : Option String

-- The manifest; a field is `none` where it is missing or not a mapping.
pub record Manifest : Type 0 where
  pub schema : Option String
  pub files : Option (List (String × Option String))
  pub file_roles : Option (List (String × Option Binding))
  pub external_sources : Option (List (String × Option Binding))

-- What reading the manifest gives.
pub data Loaded : Type 0 where
  bad_manifest_path : Loaded
  bad_json : Loaded
  not_mapping : Loaded
  manifest : Manifest → Loaded

pub record Required : Type 0 where
  pub label : String
  pub expected : Binding

pub data Failure : Type 0 where
  path_failure : Failure
  json_failure : Failure
  schema_failure : Failure
  files_missing : Failure
  roles_missing : Failure
  external_missing : Failure
  invalid_file_entry : Failure
  invalid_role_entry : Failure
  invalid_external_entry : Failure
  unbound_file : String → Failure
  unbound_external : String → Failure

abbrev pub is_hex_code : ℕ → Bool
is_hex_code c = leb 48 c && leb c 57 || leb 97 c && leb c 102

-- `[0-9a-f]{n}$`; as in `re.match`, the `$` also stands before a final line feed.
unfoldable pub matches_hex : ℕ → String → Bool
matches_hex zero String.[] = true
matches_hex zero (String.◌∷◌ c String.[]) = code c == 10
matches_hex zero (String.◌∷◌ c (String.◌∷◌ d s)) = false
matches_hex (suc n) String.[] = false
matches_hex (suc n) (String.◌∷◌ c s) = is_hex_code (code c) && matches_hex n s

abbrev pub is_absolute : String → Bool
is_absolute String.[] = false
is_absolute (String.◌∷◌ c s) = code c == 47

-- `startswith("../")`
abbrev pub climbs : String → Bool
climbs (String.◌∷◌ a (String.◌∷◌ b (String.◌∷◌ c s))) =
    code a == 46 && (code b == 46 && code c == 47)
climbs s = false

abbrev pub is_digest : Option String → Bool
is_digest none = false
is_digest (some s) = matches_hex 64 s

abbrev pub same : Option String → Option String → Bool
same (some a) (some b) = str_eq a b
same none none = true
same a b = false

abbrev pub or_nil : {A : Type 0} → Option (List A) → List A
or_nil none = []
or_nil (some xs) = xs

abbrev pub flat : Option (Option String) → Option String
flat none = none
flat (some value) = value

abbrev pub file_digest : List (String × Option String) → Option String → Option String
file_digest files none = none
file_digest files (some path) = flat (lookup path files)

abbrev pub is_key : List (String × Option String) → Option String → Bool
is_key files none = false
is_key files (some path) = is_some (lookup path files)

unfoldable pub file_entry_ok : String × Option String → Bool
file_entry_ok entry =
    not (is_absolute entry.0)
    && (not (str_eq entry.0 "..") && (not (climbs entry.0) && is_digest entry.1))

abbrev pub role_ok : List (String × Option String) → String → Option Binding → Bool
role_ok files label none = false
role_ok files label (some r) =
    not (str_eq label "") && (is_key files r.path && same (file_digest files r.path) r.digest)

abbrev pub external_path_ok : Option String → Bool
external_path_ok none = false
external_path_ok (some path) =
    not (str_eq path "") && (not (is_absolute path) && not (str_eq path ".."))

abbrev pub external_ok : String → Option Binding → Bool
external_ok label none = false
external_ok label (some r) =
    not (str_eq label "") && (external_path_ok r.path && is_digest r.digest)

abbrev pub is_relative : Option String → Bool
is_relative none = false
is_relative (some path) = not (is_absolute path)

abbrev pub binds : Option (Option Binding) → Binding → Bool
binds (some (some r)) expected = same r.path expected.path && same r.digest expected.digest
binds _ expected = false

-- The gate of one required file.
unfoldable pub file_gate :
    List (String × Option String) → List (String × Option Binding) → Required → Bool
file_gate files roles r =
    binds (lookup r.label roles) r.expected
    && (same (file_digest files r.expected.path) r.expected.digest
        && (is_relative r.expected.path && is_digest r.expected.digest))

unfoldable pub external_gate : List (String × Option Binding) → Required → Bool
external_gate external r =
    binds (lookup r.label external) r.expected
    && (is_some r.expected.path && is_digest r.expected.digest)

abbrev pub unless : Bool → Failure → List Failure
unless test failure = if test then [] else failure ∷ []

-- The failures of the required labels, in their order.
unfoldable pub unbound : (Required → Bool) → (String → Failure) → List Required → List Failure
unbound gate failure [] = []
unbound gate failure (r ∷ rest) = unless (gate r) (failure r.label) ++ unbound gate failure rest

abbrev pub has_entries {ℓ} : {A : Type ℓ} → Option (List A) → Bool
has_entries none = false
has_entries (some []) = false
has_entries (some (x ∷ rest)) = true

abbrev pub empty_manifest : Manifest
empty_manifest = record { schema = none; files = none; file_roles = none; external_sources = none }

-- The checks of the manifest's own entries.
unfoldable pub entry_failures : Manifest → List Failure
entry_failures d =
    let files = or_nil d.files in
    unless (same d.schema (some "flight_safety/fcu_shadow_source_bundle/v3")) schema_failure
    ++ (unless (has_entries d.files) files_missing
        ++ (unless (has_entries d.file_roles) roles_missing
            ++ (unless (is_some d.external_sources) external_missing
                ++ (unless (all file_entry_ok files) invalid_file_entry
                    ++ (unless (all (λ e. role_ok files e.0 e.1) (or_nil d.file_roles))
                          invalid_role_entry
                        ++ unless (all (λ e. external_ok e.0 e.1) (or_nil d.external_sources))
                            invalid_external_entry)))))

-- These, and the required labels that are not bound.
unfoldable pub content_failures : Manifest → List Required → List Required → List Failure
content_failures d required required_external =
    entry_failures d
    ++ (unbound (file_gate (or_nil d.files) (or_nil d.file_roles)) unbound_file required
        ++ unbound (external_gate (or_nil d.external_sources)) unbound_external required_external)

-- `failures`; the status is PASS when there are none.
unfoldable pub validate : Loaded → List Required → List Required → List Failure
validate bad_manifest_path required external =
    path_failure ∷ content_failures empty_manifest required external
validate bad_json required external =
    json_failure ∷ content_failures empty_manifest required external
validate not_mapping required external = content_failures empty_manifest required external
validate (manifest d) required external = content_failures d required external
