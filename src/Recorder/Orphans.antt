-- ===== src/Recorder/Orphans.antt =====
-- `_recover_orphans`: the scan of the directory at start-up.
pub mod Requeued
use flight_safety.Prelude.{
  Bool, List, Option, String, [], if◌then◌else◌, is_some, keep_if, none, some, ◌||◌, ◌∷◌,
}
use flight_safety.Recorder.Node.{Config, Disk, exists}
use flight_safety.Recorder.Paths.{join, or_whole, without_bag}
use flight_safety.Recorder.Stop.{mark_ready}
use flight_safety.Prelude.Text.{sorted_texts, ◌<>◌}

abbrev pub synced_path : String → String
synced_path base = base <> ".synced"

-- One listed name that ends in `.bag`; `base` is its path without the ending.
unfoldable pub requeue : Bool → String → Disk → Disk
unfolding mark_ready
requeue allowed base disk =
    if exists (base <> ".ready") disk || exists (synced_path base) disk
    then disk
    else mark_ready allowed (base <> ".bag") disk

unfoldable pub requeue_all : Bool → Config → List String → Disk → Disk
unfolding requeue
requeue_all allowed cfg [] disk = disk
requeue_all allowed cfg (f ∷ rest) disk =
    requeue_all allowed cfg rest
      (requeue allowed (join cfg.bag_dir (or_whole f (without_bag f))) disk)

-- `[f for f in listed if f.endswith(".bag")]`
abbrev pub is_bag : String → Bool
is_bag f = is_some (without_bag f)

-- `none` is an `OSError` of `listdir`.
unfoldable pub recover_orphans : Bool → Config → Option (List String) → Disk → Disk
unfolding requeue_all without_bag sorted_texts
recover_orphans allowed cfg none disk = disk
recover_orphans allowed cfg (some listed) disk =
    requeue_all allowed cfg (sorted_texts (keep_if is_bag listed)) disk
