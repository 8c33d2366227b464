-- ===== src/Evidence/Store/WriteOnce.antt =====
-- Theorems about the entries of the directory.
use flight_safety.Prelude.{
  Bool, List, String, [], arith, false, is_some, some, true, ◌∷◌, ◌≡◌, Bool-cases, Option, inl, inr,
  none, refl,
}
use flight_safety.Evidence.Store.{
  Bytes, DiskAnswer, Entry, Host, Store, adopt_existing, finalize, record_artifact, write_bytes,
  adopt_at, adopt_entry, not_opened, on_reply, receipt, regular, special, stored, stored_part,
  write_at,
}
use flight_safety.Evidence.SelfHash.{Document}
use flight_safety.Evidence.Paths.{RawPath, checked_relative, render}
use flight_safety.Prelude.Text.{eq_iff, insert, lookup, lookup-insert}

-- What can happen to the directory: the methods, and another command that creates a file.
pub data Operation : Type 0 where
  write : RawPath → String → Bytes → DiskAnswer → Operation
  adopt : RawPath → String → Operation
  finish : String → Document → RawPath → DiskAnswer → Operation
  foreign : String → Entry → Operation

abbrev pub foreign_file : Bool → String → Entry → Store → Store
foreign_file true path e r = r
foreign_file false path e r = record r { disk = insert path e r.disk }

unfoldable pub perform : Host → Operation → Store → Store
perform host (write raw media b reply) r = (write_bytes host raw media b reply r).0
perform host (adopt raw media) r = (adopt_existing host raw media r).0
perform host (finish rule d raw reply) r = (finalize host rule d raw reply r).0
perform host (foreign path e) r = foreign_file (is_some (lookup path r.disk)) path e r

unfoldable pub perform_all : Host → List Operation → Store → Store
perform_all host [] r = r
perform_all host (op ∷ rest) r = perform_all host rest (perform host op r)

-- Every entry that was there is still there.
abbrev pub Extends : Store → Store → Type 0
Extends r r' =
    (path : String) (e : Entry) → lookup path r.disk ≡ some e → lookup path r'.disk ≡ some e

fresh-insert :
    (path : String) (e : Entry) (disk : List (String × Entry)) (p : String) (x : Entry)
    → is_some (lookup path disk) ≡ false
    → lookup p disk ≡ some x
    → lookup p (insert path e disk) ≡ some x
fresh-insert path e disk p x free there = ground (arith, lookup-insert path p e disk, eq_iff path p)

-- A step either leaves the directory alone or creates an entry at a free path.
pub data Grows (r r' : Store) : Type 0 where
  kept : r'.disk ≡ r.disk → Grows r r'
  created :
      (path : String) (e : Entry)
      → is_some (lookup path r.disk) ≡ false
      → r'.disk ≡ insert path e r.disk
      → Grows r r'

pub Grows-Extends : (r r' : Store) → Grows r r' → Extends r r'
Grows-Extends r r' (kept same) p x there = rw same there
Grows-Extends r r' (created path e free grown) p x there =
    rw grown (fresh-insert path e r.disk p x free there)

reply-Grows :
    (host : Host) (path media : String) (b : Bytes) (reply : DiskAnswer) (r : Store)
    → is_some (lookup path r.disk) ≡ false
    → Grows r (on_reply host path media b reply r).0
unfolding record_artifact
reply-Grows host path media b not_opened r free = kept refl
reply-Grows host path media b stored r free = created path (regular b) free refl
reply-Grows host path media b (stored_part part) r free = created path (regular part) free refl

write_at-Grows :
    (host : Host) (parts : Option (List String)) (media : String) (b : Bytes)
    → (reply : DiskAnswer) (r : Store) → Grows r (write_at host parts media b reply r).0
write_at-Grows host none media b reply r = kept refl
write_at-Grows host (some parts) media b reply r =
    elim (Bool-cases (is_some (lookup (render parts) r.disk))) [
      | inl taken ↦ rw taken (kept refl)
      | inr free ↦ rw free (reply-Grows host (render parts) media b reply r free)
    ]

entry-Grows :
    (host : Host) (path media : String) (found : Option Entry) (r : Store)
    → Grows r (adopt_entry host path media found r).0
unfolding record_artifact
entry-Grows host path media none r = kept refl
entry-Grows host path media (some special) r = kept refl
entry-Grows host path media (some (regular b)) r = kept refl

adopt_at-Grows :
    (host : Host) (parts : Option (List String)) (media : String) (r : Store)
    → Grows r (adopt_at host parts media r).0
adopt_at-Grows host none media r = kept refl
adopt_at-Grows host (some parts) media r =
    entry-Grows host (render parts) media (lookup (render parts) r.disk) r

pub perform-Grows : (host : Host) (op : Operation) (r : Store) → Grows r (perform host op r)
unfolding perform write_bytes adopt_existing finalize
perform-Grows host (write raw media b reply) r =
    write_at-Grows host (checked_relative raw) media b reply r
perform-Grows host (adopt raw media) r = adopt_at-Grows host (checked_relative raw) media r
perform-Grows host (finish rule d raw reply) r =
    write_at-Grows host (checked_relative raw) "application/json"
      (host.pretty (receipt host rule d r)) reply r
perform-Grows host (foreign path e) r = elim (Bool-cases (is_some (lookup path r.disk))) [
  | inl taken ↦ rw taken (kept refl)
  | inr free ↦ rw free (created path e free refl)
]

-- Whatever is written, adopted or finalised, with or without errors, and whatever files other
-- commands create in between, an entry of the run directory is never changed or removed.
pub perform_all-Extends :
    (host : Host) (ops : List Operation) (r : Store) (path : String) (e : Entry)
    → lookup path r.disk ≡ some e
    → lookup path (perform_all host ops r).disk ≡ some e
unfolding perform_all
perform_all-Extends host [] r path e there = there
perform_all-Extends host (op ∷ rest) r path e there =
    perform_all-Extends host rest (perform host op r) path e
      (Grows-Extends r (perform host op r) (perform-Grows host op r) path e there)
