-- ===== src/Vio/Identity.antt =====
-- `IdentityAccumulator`: the typed identity that the producer publishes with each correction.
pub mod Summary
use flight_safety.Prelude.{
  Bool, List, Option, String, [], all, false, if◌then◌else◌, is_some, none, some, suc, true, ℕ,
  ◌&&◌, ◌++◌, ◌∷◌, length, ◌==◌,
}
use flight_safety.Prelude.Text.{insert, lookup, str_eq, str_mem}
use flight_safety.Diagnosis.Geofence.{status}
use flight_safety.Vio.Texts.{has_text, strict_uint_text, valid_sha256}
use Prim.Native.String

pub record Parsed : Type 0 where
  pub session_id : String
  pub reset_counter : ℕ
  pub correction_sequence : ℕ
  pub correction_stamp : ℕ

pub record Join : Type 0 where
  pub level : ℕ
  pub well_formed : Bool
  pub duplicate_keys : List String
  pub parsed : Option Parsed
  pub stamp : ℕ
  pub arrival_wall : ℕ
  pub arrival_ros : ℕ

pub record Config : Type 0 where
  pub status_name : String
  pub status_schema : String
  pub min_samples : ℕ
  pub max_idle : ℕ
  pub max_abs_header_latency : ℕ

abbrev pub producer_identity_value_keys : List String
producer_identity_value_keys =
    "selected_candidate_overlay_sha256"
    ∷ ("fastlivo_base_config_sha256"
        ∷ ("fastlivo_camera_config_sha256"
            ∷ ("fastlivo_build_manifest_sha256"
                ∷ ("effective_params_sha256"
                    ∷ ("private_camera_params_sha256"
                        ∷ ("executable_sha256"
                            ∷ ("source_tree_sha256"
                                ∷ ("libimu_proc_sha256"
                                    ∷ ("liblaser_mapping_sha256"
                                        ∷ ("liblio_sha256"
                                            ∷ ("libpre_sha256" ∷ ("libvio_sha256" ∷ []))))))))))))

abbrev pub identity_value_keys : List String
identity_value_keys =
    "schema"
    ∷ ("session_id"
        ∷ ("reset_counter"
            ∷ ("correction_sequence" ∷ ("correction_stamp_ns" ∷ producer_identity_value_keys))))

-- What `_normalize_key_values` returns; the report sorts the repeated keys, and the gates only ask
-- whether there are any.
pub record KeyValues : Type 0 where
  pub raw : List (String × String)
  pub normalized : List (String × String)
  pub duplicates : List String
  pub well_formed : Bool

-- One item; `none` is an item that is not a key with a value.
unfoldable pub normalize_item : KeyValues → Option (String × String) → KeyValues
normalize_item kv none = record kv { well_formed = false }
normalize_item kv (some item) = record kv {
  raw = kv.raw ++ item ∷ [];
  duplicates =
      if is_some (lookup item.0 kv.normalized) then kv.duplicates ++ item.0 ∷ [] else kv.duplicates;
  normalized = insert item.0 item.1 kv.normalized;
}

unfoldable pub normalize_items : KeyValues → List (Option (String × String)) → KeyValues
normalize_items kv [] = kv
normalize_items kv (item ∷ rest) = normalize_items (normalize_item kv item) rest

-- `_normalize_key_values` on a list.
unfoldable pub normalize_key_values : List (Option (String × String)) → KeyValues
normalize_key_values items =
    normalize_items (record { raw = []; normalized = []; duplicates = []; well_formed = true })
      items

abbrev pub Dict : Type 0
Dict = List (String × String)

-- `set(d) == keys`
unfoldable pub has_exact_keys : List String → Dict → Bool
has_exact_keys keys d =
    all (λ key. is_some (lookup key d)) keys && all (λ entry. str_mem entry.0 keys) d

abbrev pub is_expected : Option String → Option String → Bool
is_expected (some value) (some expected) = valid_sha256 value && str_eq value expected
is_expected _ expected = false

-- `producer_gate`
unfoldable pub producer_gate : Dict → Dict → Bool
unfolding has_exact_keys
producer_gate expected d =
    has_exact_keys producer_identity_value_keys expected
    && all (λ key. is_expected (lookup key d) (lookup key expected)) producer_identity_value_keys

abbrev pub value_of : Option String → String
value_of none = ""
value_of (some s) = s

abbrev pub parsed_of : String → Option ℕ → Option ℕ → Option ℕ → Option Parsed
parsed_of session (some reset) (some sequence) (some (suc stamp)) = some (record {
  session_id = session;
  reset_counter = reset;
  correction_sequence = sequence;
  correction_stamp = suc stamp;
})
parsed_of session reset sequence stamp = none

abbrev pub uint_at : String → Dict → Option ℕ
uint_at key d = strict_uint_text (value_of (lookup key d))

unfoldable pub parse_identity : Config → Dict → KeyValues → Option Parsed
parse_identity cfg expected kv =
    let d = kv.normalized in
    if kv.well_formed
      && (length kv.duplicates == 0
          && (has_exact_keys identity_value_keys d
              && (str_eq (value_of (lookup "schema" d)) cfg.status_schema
                  && (has_text (value_of (lookup "session_id" d)) && producer_gate expected d))))
    then parsed_of (value_of (lookup "session_id" d)) (uint_at "reset_counter" d)
        (uint_at "correction_sequence" d) (uint_at "correction_stamp_ns" d)
    else none

-- A diagnostic status as it arrives.
pub record Status : Type 0 where
  pub name : String
  pub level : ℕ
  pub values : List (Option (String × String))
  pub stamp : ℕ
  pub arrival_wall : ℕ
  pub arrival_ros : ℕ

abbrev pub join_of : Config → Dict → Status → Join
join_of cfg expected status =
    let kv = normalize_key_values status.values in
    record {
      level = status.level;
      well_formed = kv.well_formed;
      duplicate_keys = kv.duplicates;
      parsed = parse_identity cfg expected kv;
      stamp = status.stamp;
      arrival_wall = status.arrival_wall;
      arrival_ros = status.arrival_ros;
    }

-- `observe_join`, without the raw copy.
unfoldable pub observe_join : Config → Dict → Status → List Join → List Join
observe_join cfg expected status records =
    if str_eq status.name cfg.status_name
    then records ++ join_of cfg expected status ∷ []
    else records
