-- ===== src/Recorder/Orphans/Requeued.antt =====
-- Theorems about `_recover_orphans`.
use flight_safety.Prelude.{
  Bool, Bool-cases, List, String, [], arith, inl, inr, keep_if, refl, some, true, ℕ, ◌||◌, ◌∙◌, ◌∷◌,
  ◌≡◌,
}
use flight_safety.Recorder.Node.{Config, Disk, exists}
use flight_safety.Prelude.Text.{
  eq_iff, insert, insert_text, lookup-insert, lookup-insert_self, sorted_texts, str_eq, str_mem,
  ◌<>◌,
}
use flight_safety.Recorder.Orphans.{is_bag, recover_orphans, requeue, requeue_all, synced_path}
use flight_safety.Recorder.Paths.{join, or_whole, stem, without_bag}
use flight_safety.Recorder.Stop.{mark_ready, ready_path}

abbrev pub base_of : Config → String → String
base_of cfg f = join cfg.bag_dir (or_whole f (without_bag f))

-- A marker for the transfer, or the transfer's own mark.
abbrev pub is_marked : String → Disk → Bool
is_marked base disk = exists (base <> ".ready") disk || exists (synced_path base) disk

exists-insert :
    (written path : String) (value : ℕ) (disk : Disk)
    → exists path disk ≡ true
    → exists path (insert written value disk) ≡ true
exists-insert written path value disk h = ground (arith, lookup-insert written path value disk)

requeue-exists :
    (allowed : Bool) (base path : String) (disk : Disk)
    → exists path disk ≡ true
    → exists path (requeue allowed base disk) ≡ true
unfolding requeue mark_ready
requeue-exists allowed base path disk h =
    ground (arith, exists-insert (ready_path (base <> ".bag")) path 0 disk)

requeue_all-exists :
    (allowed : Bool) (cfg : Config) (fs : List String) (path : String) (disk : Disk)
    → exists path disk ≡ true
    → exists path (requeue_all allowed cfg fs disk) ≡ true
unfolding requeue_all
requeue_all-exists allowed cfg [] path disk h = h
requeue_all-exists allowed cfg (f ∷ rest) path disk h =
    requeue_all-exists allowed cfg rest path (requeue allowed (base_of cfg f) disk)
      (requeue-exists allowed (base_of cfg f) path disk h)

requeue_all-is_marked :
    (allowed : Bool) (cfg : Config) (fs : List String) (base : String) (disk : Disk)
    → is_marked base disk ≡ true
    → is_marked base (requeue_all allowed cfg fs disk) ≡ true
requeue_all-is_marked allowed cfg fs base disk h = ground (
  arith,
  requeue_all-exists allowed cfg fs (base <> ".ready") disk,
  requeue_all-exists allowed cfg fs (synced_path base) disk,
)

requeue_lem :
    (base : String) (disk : Disk)
    → stem (base <> ".bag") ≡ base
    → is_marked base (requeue true base disk) ≡ true
unfolding requeue mark_ready
requeue_lem base disk regular = elim (Bool-cases (is_marked base disk)) [
  | inl marked ↦ rw marked marked
  | inr orphan ↦ rw (orphan, regular) (ground (arith, lookup-insert_self (base <> ".ready") 0 disk))
]

requeue_all_lem :
    (cfg : Config) (fs : List String) (f : String) (disk : Disk)
    → stem (base_of cfg f <> ".bag") ≡ base_of cfg f
    → str_mem f fs ≡ true
    → is_marked (base_of cfg f) (requeue_all true cfg fs disk) ≡ true
unfolding requeue_all
requeue_all_lem cfg [] f disk regular listed = absurd (ground (arith, listed))
requeue_all_lem cfg (g ∷ rest) f disk regular listed = elim (Bool-cases (str_eq g f)) [
  | inl same ↦
      let equal = (eq_iff g f).0 same in
      requeue_all-is_marked true cfg rest (base_of cfg f) (requeue true (base_of cfg g) disk)
        (rw equal (requeue_lem (base_of cfg f) disk regular))
  | inr apart ↦
      requeue_all_lem cfg rest f (requeue true (base_of cfg g) disk) regular
        (ground (arith, listed, apart))
]

insert_text-mem :
    (f x : String) (xs : List String) → str_mem f (insert_text x xs) ≡ str_mem f (x ∷ xs)
unfolding insert_text
insert_text-mem f x [] = refl
insert_text-mem f x (y ∷ rest) = ground (arith, insert_text-mem f x rest)

sorted_texts-mem : (f : String) (xs : List String) → str_mem f (sorted_texts xs) ≡ str_mem f xs
unfolding sorted_texts
sorted_texts-mem f [] = refl
sorted_texts-mem f (x ∷ rest) =
    ground (arith, insert_text-mem f x (sorted_texts rest), sorted_texts-mem f rest)

keep_if-mem :
    (test : String → Bool) (f : String) (xs : List String)
    → test f ≡ true
    → str_mem f xs ≡ true
    → str_mem f (keep_if test xs) ≡ true
keep_if-mem test f [] kept listed = listed
keep_if-mem test f (x ∷ rest) kept listed = elim (Bool-cases (str_eq x f)) [
  | inl same ↦
      let passes : test x ≡ true = rw ((eq_iff x f).0 same) kept in rw passes (ground (arith, same))
  | inr apart ↦ ground (arith, apart, listed, keep_if-mem test f rest kept)
]

-- If the markers can be written, then after the scan every listed bag has its marker or the mark of
-- the finished transfer. The bag's name must be one whose ending `splitext` takes off.
pub recover_orphans-is_marked :
    (cfg : Config) (listed : List String) (f : String) (disk : Disk)
    → str_mem f listed ≡ true
    → is_bag f ≡ true
    → stem (base_of cfg f <> ".bag") ≡ base_of cfg f
    → is_marked (base_of cfg f) (recover_orphans true cfg (some listed) disk) ≡ true
unfolding recover_orphans
recover_orphans-is_marked cfg listed f disk here bag regular =
    requeue_all_lem cfg (sorted_texts (keep_if is_bag listed)) f disk regular
      (sorted_texts-mem f (keep_if is_bag listed) ∙ keep_if-mem is_bag f listed bag here)
