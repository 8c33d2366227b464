-- ===== src/Vio/Profile/Examples.antt =====
-- The repository's own profile is accepted, and changes of it are not.
use flight_safety.Vio.Profile.Safe
use flight_safety.Vio.Profile.Checks.{contains, texts_of}
use flight_safety.Vio.Profile.Sections.{
  evidence_checks, has_roles, hybrid_checks, identity_checks, linkage_checks, provenance_checks,
}
use flight_safety.Json.{fields_of, get, has_keys, integer, number_of}
use flight_safety.Vio.Profile.Streams.{head_checks, stream_checks, streams_checks}
use flight_safety.Prelude.{none, refl, some, ◌≡◌}
use flight_safety.Prelude.Int.{pos, ◌*ℤ◌}
use flight_safety.Vio.Profile.Preflight.{preflight}
use flight_safety.Vio.Texts.{starts_with}
use flight_safety.Vio.Profile.Whole.{validate_profile}

accepted : validate_profile preflight (some (integer (pos 30))) (some "/work/out") ≡ none
unfolding validate_profile head_checks streams_checks stream_checks identity_checks linkage_checks
    hybrid_checks provenance_checks evidence_checks get has_keys number_of contains starts_with
    has_roles texts_of ◌*ℤ◌
accepted = refl

validate_profile-IsSafe_example : Safe.IsSafe (fields_of (some preflight))
validate_profile-IsSafe_example =
    Safe.validate_profile-IsSafe preflight (some (integer (pos 30))) (some "/work/out") accepted

relative_root_refused :
    validate_profile preflight none (some "out") ≡ some "output_root must be absolute"
unfolding validate_profile head_checks get has_keys starts_with
relative_root_refused = refl
