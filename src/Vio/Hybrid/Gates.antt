-- ===== src/Vio/Hybrid/Gates.antt =====
-- The gates of `summarize`, by their names, and the verdict.
use flight_safety.Prelude.{
  Bool, List, Option, String, [], all, is_some, map, not, ℕ, ◌&&◌, ◌||◌, ◌∷◌,
}
use flight_safety.Vio.Hybrid.{Config, Hybrid, Publisher, Reading}
use flight_safety.Vio.Identity.{Dict}
use flight_safety.Vio.Hybrid.Ready.{
  counter_schema, diagnostic_continuous, diagnostic_fresh, diagnostic_ok, diagnostics_from,
  final_ready, first_ready, header_gate, header_latency_gate, keyvalues_unique,
  mapping_after_stable_ready, mapping_session_bound, mapping_valid, never_false, no_new_faults,
}
use flight_safety.Vio.Hybrid.Domain.{
  domain_measurement_freshness, domain_measurements, domain_runtime, domain_runtime_publisher,
  domain_schema, domain_session_reset, domain_sources, domain_values,
}

-- What `summarize` is given: the time, whether the output stream passed, the hashes of the sources,
-- and the sessions and reset counters of the identities.
pub record Context : Type 0 where
  pub now_wall : ℕ
  pub output_passed : Bool
  pub source_hashes : Dict
  pub session_ids : List String
  pub reset_counters : List ℕ

abbrev pub readings : Hybrid → List Reading
readings s = map (λ d. d.reading) s.timesync_domains

abbrev pub publishers : Hybrid → List (Option Publisher)
publishers s = map (λ d. d.publisher) s.timesync_domains

unfoldable pub domain_gate : Config → Context → Hybrid → Bool
domain_gate cfg w s =
    domain_schema cfg (readings s)
    && (domain_values cfg (readings s)
        && (domain_sources cfg w.source_hashes (readings s)
            && (domain_runtime_publisher cfg w.source_hashes (publishers s)
                && (domain_session_reset w.session_ids w.reset_counters (readings s)
                    && (domain_measurements cfg (readings s)
                        && (domain_measurement_freshness cfg (readings s)
                            && domain_runtime cfg w.now_wall (readings s)))))))

-- The diagnostics that the gates look at.
abbrev pub observed : Hybrid → List Reading
observed s = diagnostics_from (first_ready s.ready_samples) s.diagnostics

abbrev pub ready_gates : Config → Context → Hybrid → List (String × Bool)
ready_gates cfg w s =
    let first = first_ready s.ready_samples in
    let xs = observed s in
    ("hybrid_output_stream", w.output_passed)
    ∷ (("ready_true_observed", is_some first)
        ∷ ((
          "ready_session_latched_no_false",
          never_false first s.ready_samples && final_ready s.ready_samples,
        )
            ∷ ((
              "diagnostics_continuous_and_fresh",
              diagnostic_continuous cfg xs && diagnostic_fresh cfg w.now_wall xs,
            )
                ∷ (("diagnostic_header_stamps_monotonic", header_gate xs)
                    ∷ (("diagnostic_header_latency", header_latency_gate cfg.diagnostic_max_idle xs)
                        ∷ (("diagnostic_key_values_unique", keyvalues_unique xs)
                            ∷ (("diagnostics_ready_and_ok", diagnostic_ok xs)
                                ∷ ((
                                  "exact_fault_counter_schema",
                                  counter_schema cfg.required_fault_counter_keys xs,
                                )
                                    ∷ ((
                                      "zero_new_fault_counters",
                                      no_new_faults cfg.required_fault_counter_keys xs,
                                    )
                                        ∷ ((
                                          "mapping_start_value_nonempty",
                                          mapping_valid s.mapping_starts,
                                        )
                                            ∷ ((
                                              "mapping_start_session_identity_bound",
                                              mapping_session_bound s.mapping_starts w.session_ids,
                                            )
                                                ∷ ((
                                                  "mapping_start_after_stable_ready",
                                                  not cfg.require_mapping_start_after_ready
                                                      || mapping_after_stable_ready cfg
                                                          s.ready_samples xs first s.mapping_starts,
                                                )
                                                    ∷ []))))))))))))

-- A gate on the clock domain passes if no domain is required.
abbrev pub when_required : Config → Bool → Bool
when_required cfg gate = not cfg.require_timesync_domain || gate

abbrev pub domain_gates : Config → Context → Hybrid → List (String × Bool)
domain_gates cfg w s =
    ("clock_domain_key_values_unique", when_required cfg (keyvalues_unique (readings s)))
    ∷ ((
      "clock_domain_session_reset_bound",
      when_required cfg (domain_session_reset w.session_ids w.reset_counters (readings s)),
    )
        ∷ ((
          "clock_domain_actual_measurements",
          when_required cfg (domain_measurements cfg (readings s)),
        )
            ∷ ((
              "clock_domain_measurement_freshness",
              when_required cfg (domain_measurement_freshness cfg (readings s)),
            )
                ∷ ((
                  "clock_domain_publisher_and_source_identity",
                  when_required cfg (
                      domain_sources cfg w.source_hashes (readings s)
                      && domain_runtime_publisher cfg w.source_hashes (publishers s)),
                )
                    ∷ ((
                      "clock_domain_runtime_publisher_executable",
                      when_required cfg
                          (domain_runtime_publisher cfg w.source_hashes (publishers s)),
                    )
                        ∷ ((
                          "typed_d435_fcu_timesync_domain",
                          when_required cfg (domain_gate cfg w s),
                        )
                            ∷ []))))))

-- The status is PASS.
unfoldable pub passes : Config → Context → Hybrid → Bool
passes cfg w s =
    all (λ gate. gate.1) (ready_gates cfg w s) && all (λ gate. gate.1) (domain_gates cfg w s)
