-- ===== src/Evidence/SelfHash.antt =====
-- `with_self_hash` and `self_hash_valid`: a document carries the hash of itself without the hash.
-- `canonical` stands for the hash of the canonical JSON bytes.
use flight_safety.Prelude.{
  Bool, List, Option, String, [], arith, false, if◌then◌else◌, refl, some, true, ℕ, ◌∷◌, ◌≡◌,
}
use flight_safety.Prelude.Text.{eq_refl, insert, lookup, str_eq, eq_iff, lookup-insert_self}

-- One artifact's record in the receipt.
pub record Artifact : Type 0 where
  pub path : String
  pub media_type : String
  pub size : ℕ
  pub sha256 : String

-- A JSON value: a text, the artifact list, or any other value, which the code only carries along.
pub data Json : Type 0 where
  string : String → Json
  listing : List Artifact → Json
  other : ℕ → Json

abbrev pub Document : Type 0
Document = List (String × Json)

abbrev pub self_hash_field : String
self_hash_field = "receipt_self_sha256"

-- `result.pop(key, None)`
unfoldable pub without : String → Document → Document
without key [] = []
without key (entry ∷ rest) =
    let others = without key rest in if str_eq entry.0 key then others else entry ∷ others

unfoldable pub with_self_hash : (Document → String) → Document → Document
with_self_hash canonical d =
    let core = without self_hash_field d in insert self_hash_field (string (canonical core)) core

abbrev pub matches_hash : Option Json → String → Bool
matches_hash (some (string expected)) hash = str_eq expected hash
matches_hash _ hash = false

unfoldable pub self_hash_valid : (Document → String) → Document → Bool
self_hash_valid canonical d =
    matches_hash (lookup self_hash_field d) (canonical (without self_hash_field d))

without-without : (key : String) (d : Document) → without key (without key d) ≡ without key d
unfolding without
without-without key [] = refl
without-without key (entry ∷ rest) = ground (arith, without-without key rest)

pub without-insert :
    (key : String) (v : Json) (d : Document) → without key (insert key v d) ≡ without key d
unfolding without insert
without-insert key v [] = ground (arith, eq_refl key)
without-insert key v (entry ∷ rest) = ground (arith, eq_refl key, without-insert key v rest)

-- A document that was given its self hash, whatever hash field it had before, is found valid.
pub self_hash_valid-with_self_hash :
    (canonical : Document → String) (d : Document)
    → self_hash_valid canonical (with_self_hash canonical d) ≡ true
unfolding self_hash_valid with_self_hash
self_hash_valid-with_self_hash canonical d =
    let core = without self_hash_field d in
    let hash = canonical core in
    ground (
      arith,
      lookup-insert_self self_hash_field (string hash) core,
      without-insert self_hash_field (string hash) core,
      without-without self_hash_field d,
      eq_refl hash,
    )

-- Two documents that agree but for the hash field are both valid only if their hashes agree: a
-- valid receipt determines its own hash field.
pub valid_hash_unique :
    (canonical : Document → String) (d : Document) (a b : String)
    → self_hash_valid canonical (insert self_hash_field (string a) d) ≡ true
    → self_hash_valid canonical (insert self_hash_field (string b) d) ≡ true
    → a ≡ b
unfolding self_hash_valid
valid_hash_unique canonical d a b va vb =
    let core = without self_hash_field d in
    ground (
      arith,
      lookup-insert_self self_hash_field (string a) d,
      lookup-insert_self self_hash_field (string b) d,
      without-insert self_hash_field (string a) d,
      without-insert self_hash_field (string b) d,
      eq_iff a (canonical core),
      eq_iff b (canonical core),
    )
