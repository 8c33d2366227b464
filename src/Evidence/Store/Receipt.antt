-- ===== src/Evidence/Store/Receipt.antt =====
-- Theorems about the receipt of a run.
use flight_safety.Prelude.{
  All, Bool, Bool-cases, List, [], arith, inl, inr, keep_if, length, refl, some, true, ◌∷◌, ◌≡◌,
  String, false, ◌∙◌,
}
use flight_safety.Evidence.SelfHash.{
  Artifact, Document, listing, self_hash_valid, self_hash_field, self_hash_valid-with_self_hash,
  string, with_self_hash, without,
}
use flight_safety.Evidence.Store.{
  Host, Store, document_hash, insert_sorted, is_before, sorted, receipt,
}
use flight_safety.Evidence.Store.Recorded.{IsRecorded, AllRecorded}
use flight_safety.Prelude.Text.{lookup, eq_iff, insert, lookup-insert, str_eq, lookup-insert_self}

module _ (P : Artifact → Type 0) where
  insert_sorted-All :
      (a : Artifact) (xs : List Artifact) → P a → All P xs → All P (insert_sorted a xs)
  unfolding insert_sorted
  insert_sorted-All a [] p h = (p, tt)
  insert_sorted-All a (b ∷ xs) p (q, h) = elim (Bool-cases (is_before a.path b.path)) [
    | inl before ↦ rw before (p, (q, h))
    | inr after ↦ rw after (q, insert_sorted-All a xs p h)
  ]

  pub sorted-All : (xs : List Artifact) → All P xs → All P (sorted xs)
  unfolding sorted
  sorted-All [] h = tt
  sorted-All (x ∷ xs) (p, h) = insert_sorted-All x (sorted xs) p (sorted-All xs h)

insert_sorted-count :
    (test : Artifact → Bool) (a : Artifact) (xs : List Artifact)
    → length (keep_if test (insert_sorted a xs)) ≡ length (keep_if test (a ∷ xs))
unfolding insert_sorted
insert_sorted-count test a [] = refl
insert_sorted-count test a (b ∷ xs) = ground (arith, insert_sorted-count test a xs)

sorted-count :
    (test : Artifact → Bool) (xs : List Artifact)
    → length (keep_if test (sorted xs)) ≡ length (keep_if test xs)
unfolding sorted
sorted-count test [] = refl
sorted-count test (x ∷ xs) =
    ground (arith, insert_sorted-count test x (sorted xs), sorted-count test xs)

-- What a receipt lists.
pub record IsReceipt (host : Host) (r : Store) (d : Document) : Type 0 where
  pub listed : List Artifact
  pub field : lookup "artifacts" d ≡ some (listing listed)
  pub backed : All (IsRecorded host r.disk) listed
  pub complete :
      (test : Artifact → Bool) → length (keep_if test listed) ≡ length (keep_if test r.artifacts)
  pub validates : self_hash_valid (document_hash host) d ≡ true

lookup-with_self_hash :
    (canonical : Document → String) (key : String) (d : Document)
    → str_eq self_hash_field key ≡ false
    → lookup key (with_self_hash canonical d) ≡ lookup key (without self_hash_field d)
unfolding with_self_hash
lookup-with_self_hash canonical key d apart = simp (lookup-insert, apart)

lookup-without :
    (key hidden : String) (d : Document)
    → str_eq hidden key ≡ false
    → lookup key (without hidden d) ≡ lookup key d
unfolding without lookup
lookup-without key hidden [] apart = refl
lookup-without key hidden (entry ∷ rest) apart =
    ground (arith, eq_iff entry.0 hidden, lookup-without key hidden rest apart)

-- A receipt over a run whose records match the directory is valid by its own hash, and lists
-- artifacts that match the directory: those recorded, each as often as it was recorded.
pub receipt-IsReceipt :
    (host : Host) (rule : String) (d : Document) (r : Store)
    → AllRecorded host r
    → IsReceipt host r (receipt host rule d r)
unfolding receipt
receipt-IsReceipt host rule d r h = record {
  listed = sorted r.artifacts;
  field =
      let full =
        insert "artifacts" (listing (sorted r.artifacts))
          (insert "self_hash_rule" (string rule) d) in
      lookup-with_self_hash (document_hash host) "artifacts" full refl
      ∙ lookup-without "artifacts" self_hash_field full refl
      ∙ lookup-insert_self "artifacts" (listing (sorted r.artifacts))
          (insert "self_hash_rule" (string rule) d);
  backed = sorted-All (IsRecorded host r.disk) r.artifacts h;
  complete = λ test. sorted-count test r.artifacts;
  validates =
      self_hash_valid-with_self_hash (document_hash host) (
        insert "artifacts" (listing (sorted r.artifacts))
          (insert "self_hash_rule" (string rule) d));
}
