-- ===== src/Recorder/Ready.antt =====
-- Theorems about `_stop`.
use flight_safety.Prelude.{
  Bool, Bool-cases, Option, Option-cases, String, arith, if◌then◌else◌, inl, inr, none, refl, some,
  ℕ, ◌≡◌, ap, true, ◌∙◌,
}
use flight_safety.Recorder.Node.{Config, Disk, exists, rename, unlink, Recorder}
use flight_safety.Recorder.Stop.{
  Place, active_path, match_bag_name, matched_path, recover_active, StopAnswers, finalize,
  mark_ready, odom_history_stop, ready_path, stop, stop_process, webcam_stop,
}
use flight_safety.Prelude.Text.{lookup, lookup-insert_self, str_eq, lookup-insert}
use flight_safety.Prelude.Int.{ℤ}

-- A bag with the content `c` stands at a known path.
record Holds (c : ℕ) (p : Place) : Type 0 where
  bag : String
  path : p.0 ≡ some bag
  there : lookup bag p.1 ≡ some c

recover_active-Holds :
    (allowed : Bool) (bag : String) (disk : Disk) (c : ℕ)
    → (if exists bag disk then lookup bag disk else lookup (active_path bag) disk) ≡ some c
    → Holds c (recover_active allowed (some bag) disk)
unfolding recover_active rename
recover_active-Holds allowed bag disk c left = elim (Option-cases (lookup bag disk)) [
  | inr (d, found) ↦
      rw found (record { bag = bag; path = refl; there = ground (arith, left, found) })
  | inl missing ↦
      let active : lookup (active_path bag) disk ≡ some c = ground (arith, left, missing) in
      elim (Bool-cases allowed) [
        | inl yes_allowed ↦
            rw (missing, active, yes_allowed)
              (record {
                bag = bag;
                path = refl;
                there = lookup-insert_self bag c (unlink (active_path bag) disk);
              })
        | inr not_allowed ↦
            rw (missing, active, not_allowed)
              (record { bag = active_path bag; path = refl; there = active })
      ]
]

match_bag_name-Holds :
    (cfg : Config) (allowed : Bool) (bag : String) (mp4 : Option String) (disk : Disk) (c : ℕ)
    → lookup bag disk ≡ some c
    → Holds c (match_bag_name cfg allowed (some bag) mp4 disk)
unfolding match_bag_name rename
match_bag_name-Holds cfg allowed bag none disk c there = record {
  bag = bag;
  path = refl;
  there = there;
}
match_bag_name-Holds cfg allowed bag (some mp4) disk c there =
    let target = matched_path cfg mp4 in
    elim (Bool-cases (str_eq target bag)) [
      | inl same ↦ rw (there, same) (record { bag = bag; path = refl; there = there })
      | inr apart ↦ elim (Bool-cases allowed) [
        | inl yes_allowed ↦
            rw (there, apart, yes_allowed)
              (record {
                bag = target;
                path = refl;
                there = lookup-insert_self target c (unlink bag disk);
              })
        | inr not_allowed ↦
            rw (there, apart, not_allowed) (record { bag = bag; path = refl; there = there })
      ]
    ]

-- The bag at its last path: its marker is there, and its content is what the recording left.
pub record IsMarked (c : ℕ) (s : Recorder) : Type 0 where
  pub bag : String
  pub path : s.cur_bag ≡ some bag
  pub marker : lookup (ready_path bag) s.disk ≡ some 0
  pub content : lookup bag s.disk ≡ (if str_eq (ready_path bag) bag then some 0 else some c)
  pub stopped : s.proc ≡ none

finalize-IsMarked :
    (w : StopAnswers) (code : Option ℤ) (mp4 original : Option String) (bag : String) (disk : Disk)
    → (s : Recorder) (c : ℕ) → w.marker_allowed ≡ true
    → s.proc ≡ none
    → lookup bag disk ≡ some c
    → IsMarked c (finalize w code mp4 original (some bag, disk) s).0
unfolding finalize mark_ready
finalize-IsMarked w code mp4 original bag disk s c allowed idle there =
    rw (there, allowed)
      (record {
        bag = bag;
        path = refl;
        marker = lookup-insert_self (ready_path bag) 0 disk;
        content =
            lookup-insert (ready_path bag) bag 0 disk
            ∙ ap (λ found. if str_eq (ready_path bag) bag then some 0 else found) there;
        stopped = idle;
      })

named-IsMarked :
    (w : StopAnswers) (code : Option ℤ) (mp4 original : Option String) (p : Place) (s : Recorder)
    → (c : ℕ) → w.marker_allowed ≡ true
    → s.proc ≡ none
    → Holds c p
    → IsMarked c (finalize w code mp4 original p s).0
named-IsMarked w code mp4 original (none, disk) s c allowed idle h = absurd (ground (arith, h.path))
named-IsMarked w code mp4 original (some bag, disk) s c allowed idle h =
    finalize-IsMarked w code mp4 original bag disk s c allowed idle
      (ground (arith, h.path, h.there))

match-Holds :
    (cfg : Config) (allowed : Bool) (p : Place) (mp4 : Option String) (c : ℕ)
    → Holds c p
    → Holds c (match_bag_name cfg allowed p.0 mp4 p.1)
match-Holds cfg allowed (none, disk) mp4 c h = absurd (ground (arith, h.path))
match-Holds cfg allowed (some bag, disk) mp4 c h =
    match_bag_name-Holds cfg allowed bag mp4 disk c (ground (arith, h.path, h.there))

-- When a recording is stopped, and the recording process left the bag, or its unfinished form where
-- the bag is missing, then whatever the services answer, however the process ended, and whether or
-- not the renames succeed: the bag is there under its last path with its content, and its marker
-- too, if the system lets the marker be written.
pub stop-IsMarked :
    (cfg : Config) (w : StopAnswers) (s : Recorder) (bag : String) (c : ℕ)
    → s.cur_bag ≡ some bag
    → (if exists bag w.disk_left
        then lookup bag w.disk_left
        else lookup (active_path bag) w.disk_left)
      ≡ some c
    → w.marker_allowed ≡ true
    → IsMarked c (stop cfg w s).0
unfolding stop
stop-IsMarked cfg w s bag c current left allowed =
    let odom = odom_history_stop cfg s in
    let webcam = webcam_stop cfg w.webcam odom.0 in
    let mp4 = webcam.1.1 in
    let process = stop_process w s.proc in
    let kept = recover_active w.active_rename_allowed s.cur_bag w.disk_left in
    let held : Holds c kept =
      rw current (recover_active-Holds w.active_rename_allowed bag w.disk_left c left) in
    named-IsMarked w process.1 mp4 kept.0
      (match_bag_name cfg w.match_rename_allowed kept.0 mp4 kept.1)
      (record webcam.0 { proc = none }) c allowed refl
      (match-Holds cfg w.match_rename_allowed kept mp4 c held)
