-- ===== src/Evidence/Paths/Inside.antt =====
-- Theorems about `AppendOnlyRun._checked_relative`.
use flight_safety.Prelude.{
  Bool-cases, List, String, [], all, any, arith, false, inl, inr, not, refl, some, true, ◌||◌, ◌∷◌,
  ◌≡◌,
}
use flight_safety.Evidence.Paths.{
  RawPath, checked_relative, is_skipped, is_up, leaves_root, normalize, push_part,
}

-- Below a `..` there are only further ones.
abbrev Sunk : List String → Type 0
Sunk [] = Unit
Sunk (part ∷ outer) = (is_up part ≡ true → all is_up outer ≡ true) × Sunk outer

push_part-Sunk : (kept : List String) (part : String) → Sunk kept → Sunk (push_part kept part)
unfolding push_part
push_part-Sunk [] part h = elim (Bool-cases (is_skipped part)) [
  | inl skip ↦ rw skip tt
  | inr keep ↦ rw keep ((λ e. refl), tt)
]
push_part-Sunk (top ∷ below) part h = elim (Bool-cases (is_skipped part)) [
  | inl skip ↦ rw skip h
  | inr keep ↦ elim (Bool-cases (not (is_up part) || is_up top)) [
    | inl add ↦ rw (keep, add) ((λ e. ground (arith, h.0)), h)
    | inr pop ↦ rw (keep, pop) h.1
  ]
]

normalize-Sunk : (kept parts : List String) → Sunk kept → Sunk (normalize kept parts)
unfolding normalize
normalize-Sunk kept [] h = h
normalize-Sunk kept (part ∷ rest) h =
    normalize-Sunk (push_part kept part) rest (push_part-Sunk kept part h)

all-leaves_root :
    (part : String) (outer : List String)
    → all is_up (part ∷ outer) ≡ true
    → leaves_root (part ∷ outer) ≡ true
unfolding leaves_root
all-leaves_root part [] h = ground arith
all-leaves_root part (next ∷ rest) h = all-leaves_root next rest (ground arith)

Sunk-no_up : (kept : List String) → Sunk kept → leaves_root kept ≡ false → any is_up kept ≡ false
unfolding leaves_root
Sunk-no_up [] h out = refl
Sunk-no_up (part ∷ []) h out = ground arith
Sunk-no_up (part ∷ outer ∷ rest) h out =
    ground (arith, h.0, all-leaves_root outer rest, Sunk-no_up (outer ∷ rest) h.1 out)

-- Whatever the requested path, what the check accepts is relative and has no `..` part, so it names
-- a place inside the run directory.
pub checked_relative-inside :
    (raw : RawPath) (kept : List String)
    → checked_relative raw ≡ some kept
    → (raw.absolute ≡ false) × (any is_up kept ≡ false)
unfolding checked_relative
checked_relative-inside raw kept h =
    elim (Bool-cases (raw.absolute || leaves_root (normalize [] raw.parts))) [
      | inl refused_path ↦ absurd (ground (arith, refused_path))
      | inr accepted ↦
          ground
            (arith, accepted, Sunk-no_up (normalize [] raw.parts) (normalize-Sunk [] raw.parts tt))
    ]
