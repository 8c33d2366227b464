-- ===== src/Evidence/Bundle/Bound.antt =====
-- Theorems about `validate_source_bundle_manifest`.
use flight_safety.Prelude.{
  Bool, List, String, [], all, arith, false, refl, true, ◌++◌, ◌∷◌, ◌≡◌, All, Option, ap, none,
  some, ◌&&◌,
}
use flight_safety.Evidence.Bundle.{
  Failure, Required, unbound, unless, Manifest, binds, content_failures, file_digest, file_gate,
  flat, is_digest, is_relative, matches_hex, or_nil, same, Loaded, bad_json, bad_manifest_path,
  empty_manifest, entry_failures, external_gate, manifest, not_mapping, unbound_external,
  unbound_file, validate,
}
use flight_safety.Prelude.Text.{eq_iff, lookup}

append-empty : {A : Type 0} (xs ys : List A) → xs ++ ys ≡ [] → (xs ≡ []) × (ys ≡ [])
append-empty [] ys h = (refl, h)
append-empty (x ∷ xs) ys h = absurd (ground (arith, h))

unless-empty : (test : Bool) (failure : Failure) → unless test failure ≡ [] → test ≡ true
unless-empty true failure h = refl
unless-empty false failure h = absurd (ground (arith, h))

unbound-empty :
    (gate : Required → Bool) (failure : String → Failure) (rs : List Required)
    → unbound gate failure rs ≡ []
    → all gate rs ≡ true
unfolding unbound
unbound-empty gate failure [] h = refl
unbound-empty gate failure (r ∷ rest) h =
    let parts = append-empty (unless (gate r) (failure r.label)) (unbound gate failure rest) h in
    rw (unless-empty (gate r) (failure r.label) parts.0, unbound-empty gate failure rest parts.1)
      refl

-- The label is bound: its role names the expected path and digest, and the files give the digest at
-- the path.
pub record IsBound (d : Manifest) (r : Required) : Type 0 where
  pub path : String
  pub digest : String
  pub wanted_path : r.expected.path ≡ some path
  pub wanted_digest : r.expected.digest ≡ some digest
  pub hexadecimal : matches_hex 64 digest ≡ true
  pub filed : lookup path (or_nil d.files) ≡ some (some digest)
  pub role : binds (lookup r.label (or_nil d.file_roles)) r.expected ≡ true

flat-some :
    (found : Option (Option String)) (s : String)
    → same (flat found) (some s) ≡ true
    → found ≡ some (some s)
flat-some none s h = absurd (ground (arith, h))
flat-some (some none) s h = absurd (ground (arith, h))
flat-some (some (some a)) s h = ap (λ x. some (some x)) ((eq_iff a s).0 h)

gate-parts :
    (a b c e : Bool)
    → (a && (b && (c && e))) ≡ true
    → ((a ≡ true) × (b ≡ true)) × ((c ≡ true) × (e ≡ true))
gate-parts a b c e h = ground (arith, h)

binds-IsBound :
    (d : Manifest) (label : String) (path digest : Option String)
    → binds (lookup label (or_nil d.file_roles)) (record { path = path; digest = digest }) ≡ true
    → same (file_digest (or_nil d.files) path) digest ≡ true
    → is_relative path ≡ true
    → is_digest digest ≡ true
    → IsBound d (record { label = label; expected = record { path = path; digest = digest } })
binds-IsBound d label none digest role filed relative hex = absurd (ground (arith, relative))
binds-IsBound d label (some p) none role filed relative hex = absurd (ground (arith, hex))
binds-IsBound d label (some p) (some g) role filed relative hex = record {
  path = p;
  digest = g;
  wanted_path = refl;
  wanted_digest = refl;
  hexadecimal = hex;
  filed = flat-some (lookup p (or_nil d.files)) g filed;
  role = role;
}

file_gate-IsBound :
    (d : Manifest) (r : Required)
    → file_gate (or_nil d.files) (or_nil d.file_roles) r ≡ true
    → IsBound d r
unfolding file_gate
file_gate-IsBound d r h =
    let files = or_nil d.files in
    let e = r.expected in
    let parts =
      gate-parts (binds (lookup r.label (or_nil d.file_roles)) e)
        (same (file_digest files e.path) e.digest) (is_relative e.path) (is_digest e.digest) h in
    binds-IsBound d r.label e.path e.digest parts.0.0 parts.0.1 parts.1.0 parts.1.1

all-All :
    {A : Type 0} (test : A → Bool) (P : A → Type 0)
    → ((x : A) → test x ≡ true → P x)
    → (xs : List A) → all test xs ≡ true
    → All P xs
all-All test P imp [] h = tt
all-All test P imp (x ∷ xs) h =
    (imp x (ground (arith, h)), all-All test P imp xs (ground (arith, h)))

content_failures-IsBound :
    (d : Manifest) (required external : List Required)
    → content_failures d required external ≡ []
    → All (IsBound d) required
unfolding content_failures
content_failures-IsBound d required external h =
    let gate = file_gate (or_nil d.files) (or_nil d.file_roles) in
    let files_unbound = unbound gate unbound_file required in
    let others = unbound (external_gate (or_nil d.external_sources)) unbound_external external in
    let parts = append-empty (entry_failures d) (files_unbound ++ others) h in
    let listed = append-empty files_unbound others parts.1 in
    all-All gate (IsBound d) (file_gate-IsBound d) required
      (unbound-empty gate unbound_file required listed.0)

-- The contents of what was read.
abbrev pub contents : Loaded → Manifest
contents (manifest d) = d
contents _ = empty_manifest

-- If the validation passes, every required file is bound: its role has the expected path and
-- digest, the digest is 64 hexadecimal digits (with or without a final line feed), and the
-- manifest's files have it at that path.
pub validate-IsBound :
    (loaded : Loaded) (required external : List Required)
    → validate loaded required external ≡ []
    → All (IsBound (contents loaded)) required
unfolding validate
validate-IsBound bad_manifest_path required external h = absurd (ground (arith, h))
validate-IsBound bad_json required external h = absurd (ground (arith, h))
validate-IsBound not_mapping required external h =
    content_failures-IsBound empty_manifest required external h
validate-IsBound (manifest d) required external h = content_failures-IsBound d required external h
