-- ===== src/Vio/Profile/Whole.antt =====
-- The whole check, in the source's order.
use flight_safety.Vio.Profile.Checks.{Check, first_failure}
use flight_safety.Prelude.{List, Option, String, some, ◌++◌}
use flight_safety.Json.{Value, fields_of}
use flight_safety.Vio.Profile.Sections.{
  evidence_checks, hybrid_checks, identity_checks, linkage_checks, provenance_checks,
}
use flight_safety.Vio.Profile.Streams.{head_checks, streams_checks}

unfoldable pub profile_checks : Value → Option Value → Option String → List Check
profile_checks profile duration output_root =
    let d = fields_of (some profile) in
    head_checks profile duration output_root
    ++ (streams_checks d
        ++ (identity_checks d
            ++ (linkage_checks d
                ++ (hybrid_checks d ++ (provenance_checks d ++ evidence_checks d)))))

-- `none` is a return of `True`, a text the message of a `ValueError`.
unfoldable pub validate_profile : Value → Option Value → Option String → Option String
unfolding first_failure profile_checks
validate_profile profile duration output_root =
    first_failure (profile_checks profile duration output_root)
