-- ===== src/Pingpong/Choice.antt =====
-- Which configurations the program refuses, and what it runs of the others.
use batchudp.Prelude.{
  same_text, same_text-eq, same_text_self, ℕ, ◌≤◌, ◌<◌, ◌≡◌, ◌≢◌, ◌⊎◌, sym, ap, ◌∙◌, subst, true,
  false, Option, none, some, List, All, [], ◌∷◌, ltb, ◌==◌, if◌then◌else◌, arith, inl, inr,
  Bool-cases, Option-cases, ==→eq, ltb→lt,
}
use batchudp.Std.{Err}
use batchudp.Pingpong.{
  Config, Scenario, channel, native, loopback, name_of, all_name, scenarios, Refusal, bad_sessions,
  bad_round_trips, small_payload, unknown_mode, large_payload, find_scenario, select_scenarios,
  first_not_channel, RunEnd, refuses, scenario_fails, succeeds, run_all, run, max_udp_payload,
}

-- The scenarios that a mode names.
pub data Names (mode : List ℕ) : List Scenario → Type 0 where
  names_all : mode ≡ all_name → Names mode scenarios
  names_one : (s : Scenario) → name_of s ≡ mode → Names mode (s ∷ [])

-- A reason to refuse.
abbrev pub IsReason : Config → Refusal → Type 0
IsReason cfg bad_sessions = cfg.sessions ≡ 0
IsReason cfg bad_round_trips = cfg.round_trips ≡ 0
IsReason cfg small_payload = cfg.payload_size < 16
IsReason cfg unknown_mode = (cfg.mode ≢ all_name) × ((s : Scenario) → name_of s ≢ cfg.mode)
IsReason cfg (large_payload s) =
    (65507 < cfg.payload_size) × (s ≢ channel) × ((name_of s ≡ cfg.mode) ⊎ (cfg.mode ≡ all_name))

some_inj : {A : Type 0} {a b : A} → some a ≡ some b → a ≡ b
some_inj {A} {a} {b} e = ap (λ (o : Option A). elim o [ some x ↦ x | none ↦ a ]) e

find_scenario-name_of :
    (mode : List ℕ) (ss : List Scenario) (s : Scenario)
    → find_scenario mode ss ≡ some s
    → name_of s ≡ mode
unfolding find_scenario
find_scenario-name_of mode [] s h = absurd (ground arith)
find_scenario-name_of mode (x ∷ xs) s h = elim (Bool-cases (same_text (name_of x) mode)) [
  | inl found ↦
      ap name_of (sym (some_inj (rw (found, find_scenario) at h)))
      ∙ same_text-eq (name_of x) mode found
  | inr other ↦ find_scenario-name_of mode xs s (rw (other, find_scenario) at h)
]

not_same : (a b : List ℕ) → same_text a b ≡ false → a ≢ b
not_same a b h e =
    let same : same_text a b ≡ true = subst (λ x. same_text a x ≡ true) e (same_text_self a) in
    absurd (ground arith)

find_scenario-none :
    (mode : List ℕ) (ss : List Scenario)
    → find_scenario mode ss ≡ none
    → All (λ (s : Scenario). name_of s ≢ mode) ss
unfolding find_scenario
find_scenario-none mode [] h = tt
find_scenario-none mode (x ∷ xs) h = elim (Bool-cases (same_text (name_of x) mode)) [
  | inl found ↦ absurd (ground (arith, rw (found, find_scenario) at h))
  | inr other ↦
      (not_same (name_of x) mode other, find_scenario-none mode xs (rw (other, find_scenario) at h))
]

of_table : (P : Scenario → Type 0) → All P scenarios → (s : Scenario) → P s
of_table P h channel = h.0
of_table P h native = h.1.0
of_table P h loopback = h.1.1.0

select_scenarios-Names :
    (mode : List ℕ) (ss : List Scenario) → select_scenarios mode ≡ some ss → Names mode ss
unfolding select_scenarios
select_scenarios-Names mode ss h = elim (Bool-cases (same_text mode all_name)) [
  | inl all ↦
      subst (Names mode) (some_inj (rw (all, select_scenarios) at h))
        (names_all (same_text-eq mode all_name all))
  | inr one ↦ elim (Option-cases (find_scenario mode scenarios)) [
    | inl nothing ↦ absurd (ground (arith, rw (one, nothing, select_scenarios) at h))
    | inr (s, found) ↦
        subst (Names mode) (some_inj (rw (one, found, select_scenarios) at h))
          (names_one s (find_scenario-name_of mode scenarios s found))
  ]
]

select_scenarios-none :
    (mode : List ℕ)
    → select_scenarios mode ≡ none
    → (mode ≢ all_name) × ((s : Scenario) → name_of s ≢ mode)
unfolding select_scenarios
select_scenarios-none mode h = elim (Bool-cases (same_text mode all_name)) [
  | inl all ↦ absurd (ground (arith, rw (all, select_scenarios) at h))
  | inr one ↦ elim (Option-cases (find_scenario mode scenarios)) [
    | inl nothing ↦ (
      not_same mode all_name one,
      of_table (λ (s : Scenario). name_of s ≢ mode) (find_scenario-none mode scenarios nothing),
    )
    | inr (s, found) ↦ absurd (ground (arith, rw (one, found, select_scenarios) at h))
  ]
]

-- a selected scenario that is not "channel"
abbrev IsOther : List ℕ → Scenario → Type 0
IsOther mode s = (s ≢ channel) × ((name_of s ≡ mode) ⊎ (mode ≡ all_name))

first_not_channel-none :
    (mode : List ℕ) (ss : List Scenario)
    → Names mode ss
    → first_not_channel ss ≡ none
    → name_of channel ≡ mode
unfolding first_not_channel
first_not_channel-none mode _ (names_all e) h = absurd (ground arith)
first_not_channel-none mode _ (names_one channel e) h = e
first_not_channel-none mode _ (names_one native e) h = absurd (ground arith)
first_not_channel-none mode _ (names_one loopback e) h = absurd (ground arith)

first_not_channel-some :
    (mode : List ℕ) (ss : List Scenario) (s : Scenario)
    → Names mode ss
    → first_not_channel ss ≡ some s
    → IsOther mode s
unfolding first_not_channel
first_not_channel-some mode _ s (names_all e) h =
    subst (IsOther mode) (some_inj h) ((λ x. ground arith), inr e)
first_not_channel-some mode _ s (names_one channel e) h = absurd (ground arith)
first_not_channel-some mode _ s (names_one native e) h =
    subst (IsOther mode) (some_inj h) ((λ x. ground arith), inl e)
first_not_channel-some mode _ s (names_one loopback e) h =
    subst (IsOther mode) (some_inj h) ((λ x. ground arith), inl e)

-- What every configuration that is not refused has.
pub record IsSound (cfg : Config) : Type 0 where
  pub has_sessions : 0 < cfg.sessions
  pub has_round_trips : 0 < cfg.round_trips
  pub large : 16 ≤ cfg.payload_size
  pub small : (cfg.payload_size ≤ 65507) ⊎ (name_of channel ≡ cfg.mode)

module _ {W : Type 0} (run_scenario : Config → Scenario → W → W × Option Err) (cfg : Config) where
  -- The scenarios have been run in order, up to the first that failed.
  pub data Ran : List Scenario → W → W × RunEnd → Type 0 where
    ran_all : (w : W) → Ran [] w (w, succeeds)
    stops :
        (s : Scenario) (ss : List Scenario) (w w' : W) (e : Err)
        → run_scenario cfg s w ≡ (w', some e)
        → Ran (s ∷ ss) w (w', scenario_fails s e)
    goes_on :
        (s : Scenario) (ss : List Scenario) (w w' : W) (r : W × RunEnd)
        → run_scenario cfg s w ≡ (w', none)
        → Ran ss w' r
        → Ran (s ∷ ss) w r

  run_all-Ran : (ss : List Scenario) (w : W) → Ran ss w (run_all run_scenario cfg ss w)
  unfolding run_all
  run_all-Ran [] w = ran_all w
  run_all-Ran (s ∷ ss) w = elim (Option-cases (run_scenario cfg s w).1) [
    | inl fine ↦
        rw (fine, run_all)
          (goes_on s ss w (run_scenario cfg s w).0 _ (ap (λ x. ((run_scenario cfg s w).0, x)) fine)
            (run_all-Ran ss (run_scenario cfg s w).0))
    | inr (e, bad) ↦
        rw (bad, run_all)
          (stops s ss w (run_scenario cfg s w).0 e (ap (λ x. ((run_scenario cfg s w).0, x)) bad))
  ]

  -- How `run` decides.
  pub data Decides (w : W) : W × RunEnd → Type 0 where
    refused : (x : Refusal) → IsReason cfg x → Decides w (w, refuses x)
    accepted :
        (ss : List Scenario) (r : W × RunEnd)
        → IsSound cfg
        → Names cfg.mode ss
        → Ran ss w r
        → Decides w r

  -- a configuration that passes the test of the payload
  passed :
      (ss : List Scenario) (w : W)
      → (cfg.sessions == 0) ≡ false
      → (cfg.round_trips == 0) ≡ false
      → ltb cfg.payload_size 16 ≡ false
      → (cfg.payload_size ≤ 65507) ⊎ (name_of channel ≡ cfg.mode)
      → Names cfg.mode ss
      → Decides w (run_all run_scenario cfg ss w)
  passed ss w a b c small named =
      accepted ss (run_all run_scenario cfg ss w)
        (record {
          has_sessions = ground arith;
          has_round_trips = ground arith;
          large = ground arith;
          small = small;
        })
        named (run_all-Ran ss w)

  chosen :
      (w : W)
      → (cfg.sessions == 0) ≡ false
      → (cfg.round_trips == 0) ≡ false
      → ltb cfg.payload_size 16 ≡ false
      → Decides w (elim (select_scenarios cfg.mode) [
        | none ↦ (w, refuses unknown_mode)
        | some selected ↦
            if ltb max_udp_payload cfg.payload_size
            then elim (first_not_channel selected) [
              | some s ↦ (w, refuses (large_payload s))
              | none ↦ run_all run_scenario cfg selected w
            ]
            else run_all run_scenario cfg selected w
      ])
  chosen w a b c = elim (Option-cases (select_scenarios cfg.mode)) [
    | inl unknown ↦ rw unknown (refused unknown_mode (select_scenarios-none cfg.mode unknown))
    | inr (ss, known) ↦
        let named : Names cfg.mode ss = select_scenarios-Names cfg.mode ss known in
        elim (Bool-cases (ltb 65507 cfg.payload_size)) [
          | inr fits ↦ rw (known, fits) (passed ss w a b c (inl (ground arith)) named)
          | inl too_large ↦ elim (Option-cases (first_not_channel ss)) [
            | inl only ↦
                rw (known, too_large, only)
                  (passed ss w a b c (inr (first_not_channel-none cfg.mode ss named only)) named)
            | inr (s, other) ↦
                let reason : IsOther cfg.mode s =
                  first_not_channel-some cfg.mode ss s named other in
                rw (known, too_large, other)
                  (refused (large_payload s) (ltb→lt _ _ too_large, reason.0, reason.1))
          ]
        ]
  ]

  -- `run` refuses a configuration only for a reason that holds, and then does nothing; it runs every
  -- other one, which is then sound: exactly the scenarios that the mode names, in the order of the
  -- table, up to the first that fails.
  pub run-Decides : (w : W) → Decides w (run run_scenario cfg w)
  unfolding run
  run-Decides w = elim (Bool-cases (cfg.sessions == 0)) [
    | inl zero_sessions ↦ rw (zero_sessions, run) (refused bad_sessions (==→eq _ _ zero_sessions))
    | inr some_sessions ↦ elim (Bool-cases (cfg.round_trips == 0)) [
      | inl zero_trips ↦
          rw (some_sessions, zero_trips, run) (refused bad_round_trips (==→eq _ _ zero_trips))
      | inr some_trips ↦ elim (Bool-cases (ltb cfg.payload_size 16)) [
        | inl tiny ↦
            rw (some_sessions, some_trips, tiny, run) (refused small_payload (ltb→lt _ _ tiny))
        | inr enough ↦
            rw (some_sessions, some_trips, enough, run) (chosen w some_sessions some_trips enough)
      ]
    ]
  ]
