-- ===== src/Evidence/Store.antt =====
-- `AppendOnlyRun`: the artifacts of the directory, and the receipt over them. The disk is the
-- dictionary of the run directory, which has contents and no modes; what the operating system
-- answers to a write, and the encodings and the hash, are arguments.
pub mod WriteOnce
pub mod Recorded
pub mod Receipt
use flight_safety.Evidence.SelfHash.{Artifact, Document, listing, string, with_self_hash}
use flight_safety.Prelude.{
  List, Option, String, [], if◌then◌else◌, is_some, length, none, some, ℕ, ◌++◌, ◌∷◌,
}
use flight_safety.Evidence.Paths.{RawPath, checked_relative, render}
use flight_safety.Prelude.Text.{insert, lookup, is_before}
use Prim.Native.String

abbrev pub Bytes : Type 0
Bytes = List ℕ

-- `hashlib.sha256`, the canonical and the indented JSON encoding, and UTF-8.
pub record Host : Type 0 where
  pub sha256 : Bytes → String
  pub canonical : Document → Bytes
  pub pretty : Document → Bytes
  pub encode : String → Bytes

abbrev pub document_hash : Host → Document → String
document_hash host d = host.sha256 (host.canonical d)

-- A directory entry: a regular file, or a link or a directory.
pub data Entry : Type 0 where
  regular : Bytes → Entry
  special : Entry

pub record Store : Type 0 where
  pub disk : List (String × Entry)
  pub artifacts : List Artifact

pub data Refusal : Type 0 where
  bad_path : Refusal
  already_exists : Refusal
  not_found : Refusal
  not_regular : Refusal
  cannot_open : Refusal
  write_failed : Refusal

pub data Outcome : Type 0 where
  wrote : Artifact → Outcome
  raised : Refusal → Outcome

-- The system's answer to a write: the parent cannot be made or the file cannot be opened, the
-- content is stored, or an error comes after part of it is stored.
pub data DiskAnswer : Type 0 where
  not_opened : DiskAnswer
  stored : DiskAnswer
  stored_part : Bytes → DiskAnswer

abbrev pub artifact_of : Host → String → String → Bytes → Artifact
artifact_of host path media b = record {
  path = path;
  media_type = media;
  size = length b;
  sha256 = host.sha256 b;
}

-- `_record`, on the file as it stands on the disk.
unfoldable pub record_artifact : Host → String → String → Bytes → Store → Store × Outcome
record_artifact host path media b r = (
  record r { artifacts = r.artifacts ++ artifact_of host path media b ∷ [] },
  wrote (artifact_of host path media b),
)

abbrev pub create : String → Bytes → Store → Store
create path b r = record r { disk = insert path (regular b) r.disk }

abbrev pub on_reply : Host → String → String → Bytes → DiskAnswer → Store → Store × Outcome
on_reply host path media b not_opened r = (r, raised cannot_open)
on_reply host path media b (stored_part part) r = (create path part r, raised write_failed)
on_reply host path media b stored r = record_artifact host path media b (create path b r)

abbrev pub write_at :
    Host → Option (List String) → String → Bytes → DiskAnswer → Store → Store × Outcome
write_at host none media b reply r = (r, raised bad_path)
write_at host (some parts) media b reply r =
    if is_some (lookup (render parts) r.disk)
    then (r, raised already_exists)
    else on_reply host (render parts) media b reply r

-- `write_bytes`; `O_EXCL` refuses a path that is there, whatever it is.
unfoldable pub write_bytes : Host → RawPath → String → Bytes → DiskAnswer → Store → Store × Outcome
write_bytes host raw media b reply r = write_at host (checked_relative raw) media b reply r

unfoldable pub write_text : Host → RawPath → String → String → DiskAnswer → Store → Store × Outcome
unfolding write_bytes
write_text host raw media value reply r = write_bytes host raw media (host.encode value) reply r

abbrev pub adopt_entry : Host → String → String → Option Entry → Store → Store × Outcome
adopt_entry host path media none r = (r, raised not_found)
adopt_entry host path media (some special) r = (r, raised not_regular)
adopt_entry host path media (some (regular b)) r = record_artifact host path media b r

abbrev pub adopt_at : Host → Option (List String) → String → Store → Store × Outcome
adopt_at host none media r = (r, raised bad_path)
adopt_at host (some parts) media r =
    adopt_entry host (render parts) media (lookup (render parts) r.disk) r

-- `adopt_existing`: hashes a file that another command created. Its `os.chmod`, which changes the mode
-- and not the content, is taken to succeed.
unfoldable pub adopt_existing : Host → RawPath → String → Store → Store × Outcome
adopt_existing host raw media r = adopt_at host (checked_relative raw) media r

-- `sorted(artifacts, key=path)`, stable.
unfoldable pub insert_sorted : Artifact → List Artifact → List Artifact
insert_sorted a [] = a ∷ []
insert_sorted a (b ∷ rest) =
    let later = insert_sorted a rest in if is_before a.path b.path then a ∷ b ∷ rest else b ∷ later

unfoldable pub sorted : List Artifact → List Artifact
unfolding insert_sorted is_before
sorted [] = []
sorted (a ∷ rest) = insert_sorted a (sorted rest)

-- The receipt before it is written.
unfoldable pub receipt : Host → String → Document → Store → Document
receipt host rule d r =
    with_self_hash (document_hash host)
      (insert "artifacts" (listing (sorted r.artifacts)) (insert "self_hash_rule" (string rule) d))

-- `finalize`, with the path of the receipt and the text of the hash rule.
unfoldable pub finalize : Host → String → Document → RawPath → DiskAnswer → Store → Store × Outcome
unfolding receipt write_bytes
finalize host rule d raw reply r =
    write_bytes host raw "application/json" (host.pretty (receipt host rule d r)) reply r
