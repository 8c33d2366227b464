-- ===== src/Evidence/Store/Recorded.antt =====
-- Theorems about the recorded artifacts.
use flight_safety.Prelude.{
  All, All-append, All-mono, Bool, Bool-cases, List, Option, String, [], false, inl, inr, is_some,
  length, none, refl, some, true, ◌++◌, ◌∷◌, ◌≡◌,
}
use flight_safety.Evidence.SelfHash.{Artifact}
use flight_safety.Evidence.Store.{
  Bytes, DiskAnswer, Entry, Host, Store, adopt_at, adopt_entry, adopt_existing, artifact_of,
  finalize, not_opened, on_reply, receipt, record_artifact, regular, special, stored, stored_part,
  write_at, write_bytes,
}
use flight_safety.Evidence.Store.WriteOnce.{
  Extends, Grows-Extends, Operation, adopt, finish, foreign, foreign_file, perform, perform-Grows,
  perform_all, write,
}
use flight_safety.Evidence.Paths.{checked_relative, render}
use flight_safety.Prelude.Text.{lookup-insert_self, lookup}

-- A regular file at the artifact's path has its size and its hash.
pub record IsRecorded (host : Host) (disk : List (String × Entry)) (a : Artifact) : Type 0 where
  pub content : Bytes
  pub there : lookup a.path disk ≡ some (regular content)
  pub sized : a.size ≡ length content
  pub hashed : a.sha256 ≡ host.sha256 content

-- A step either records nothing, or one artifact that matches the directory it leaves.
data Records (host : Host) (r r' : Store) : Type 0 where
  nothing : r'.artifacts ≡ r.artifacts → Records host r r'
  added :
      (a : Artifact)
      → IsRecorded host r'.disk a
      → r'.artifacts ≡ r.artifacts ++ a ∷ []
      → Records host r r'

reply-Records :
    (host : Host) (path media : String) (b : Bytes) (reply : DiskAnswer) (r : Store)
    → Records host r (on_reply host path media b reply r).0
unfolding record_artifact
reply-Records host path media b not_opened r = nothing refl
reply-Records host path media b (stored_part part) r = nothing refl
reply-Records host path media b stored r =
    added (artifact_of host path media b)
      (record {
        content = b;
        there = lookup-insert_self path (regular b) r.disk;
        sized = refl;
        hashed = refl;
      })
      refl

write_at-Records :
    (host : Host) (parts : Option (List String)) (media : String) (b : Bytes)
    → (reply : DiskAnswer) (r : Store) → Records host r (write_at host parts media b reply r).0
write_at-Records host none media b reply r = nothing refl
write_at-Records host (some parts) media b reply r =
    elim (Bool-cases (is_some (lookup (render parts) r.disk))) [
      | inl taken ↦ rw taken (nothing refl)
      | inr free ↦ rw free (reply-Records host (render parts) media b reply r)
    ]

entry-Records :
    (host : Host) (path media : String) (found : Option Entry) (r : Store)
    → lookup path r.disk ≡ found
    → Records host r (adopt_entry host path media found r).0
unfolding record_artifact
entry-Records host path media none r here = nothing refl
entry-Records host path media (some special) r here = nothing refl
entry-Records host path media (some (regular b)) r here =
    added (artifact_of host path media b)
      (record { content = b; there = here; sized = refl; hashed = refl }) refl

adopt_at-Records :
    (host : Host) (parts : Option (List String)) (media : String) (r : Store)
    → Records host r (adopt_at host parts media r).0
adopt_at-Records host none media r = nothing refl
adopt_at-Records host (some parts) media r =
    entry-Records host (render parts) media (lookup (render parts) r.disk) r refl

foreign-Records :
    (host : Host) (taken : Bool) (path : String) (e : Entry) (r : Store)
    → Records host r (foreign_file taken path e r)
foreign-Records host true path e r = nothing refl
foreign-Records host false path e r = nothing refl

perform-Records : (host : Host) (op : Operation) (r : Store) → Records host r (perform host op r)
unfolding perform write_bytes adopt_existing finalize
perform-Records host (write raw media b reply) r =
    write_at-Records host (checked_relative raw) media b reply r
perform-Records host (adopt raw media) r = adopt_at-Records host (checked_relative raw) media r
perform-Records host (finish rule d raw reply) r =
    write_at-Records host (checked_relative raw) "application/json"
      (host.pretty (receipt host rule d r)) reply r
perform-Records host (foreign path e) r =
    foreign-Records host (is_some (lookup path r.disk)) path e r

-- Every artifact of the run matches the directory.
abbrev pub AllRecorded : Host → Store → Type 0
AllRecorded host r = All (IsRecorded host r.disk) r.artifacts

IsRecorded-Extends :
    (host : Host) (r r' : Store)
    → Extends r r'
    → (a : Artifact) → IsRecorded host r.disk a
    → IsRecorded host r'.disk a
IsRecorded-Extends host r r' grows a ok = record {
  content = ok.content;
  there = grows a.path (regular ok.content) ok.there;
  sized = ok.sized;
  hashed = ok.hashed;
}

Records-AllRecorded :
    (host : Host) (r r' : Store)
    → Extends r r'
    → Records host r r'
    → AllRecorded host r
    → AllRecorded host r'
Records-AllRecorded host r r' grows (nothing same) h =
    rw same (All-mono (IsRecorded-Extends host r r' grows) r.artifacts h)
Records-AllRecorded host r r' grows (added a ok list) h = rw list (
    All-append (IsRecorded host r'.disk) r.artifacts a
      (All-mono (IsRecorded-Extends host r r' grows) r.artifacts h) ok)

-- Along any sequence of operations, the artifacts recorded so far each name a regular file of the
-- run directory with the recorded size and hash: no later operation makes a record stale.
pub perform_all-AllRecorded :
    (host : Host) (ops : List Operation) (r : Store)
    → AllRecorded host r
    → AllRecorded host (perform_all host ops r)
unfolding perform_all
perform_all-AllRecorded host [] r h = h
perform_all-AllRecorded host (op ∷ rest) r h =
    perform_all-AllRecorded host rest (perform host op r) (
      Records-AllRecorded host r (perform host op r)
        (Grows-Extends r (perform host op r) (perform-Grows host op r)) (perform-Records host op r)
        h)
