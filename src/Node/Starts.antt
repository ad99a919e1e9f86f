-- ===== src/Node/Starts.antt =====
-- When the services start, and what they then run: the start of a service against the list of what it needs.
use mathlib.Core.Path.{subst}
use substrate_stablecoin.Prelude.{
  ◌≡◌, refl, Bool, true, false, not, ◌&&◌, inl, inr, List, [], ◌∷◌, ◌++◌, Bool-cases, if◌then◌else◌,
}
use substrate_stablecoin.Node.{
  new_full_builder, new_light_builder, with_select_chain, with_transaction_pool,
  grandpa_block_import, light_block_import, slot_duration, import_queue,
  with_finality_proof_provider, build, author_slot_duration, start_aura, run_grandpa_voter,
  setup_disabled_grandpa, select_chain_required, no_fetcher, no_fetch_checker, Substrate,
  Configuration, GrandpaConfig, Task, aura, grandpa_voter, Startup, Start, Done, ◌>>◌, tried, when,
  idle,
}
use substrate_stablecoin.Node.Service.{
  full_import_queue, new_full_start, take_import_setup, author, vote, no_vote, grandpa_config,
  new_full, light_import_queue, new_light,
}
use substrate_stablecoin.Node.Needs.{
  Need, succeeds, present, well, Ends-then, tried-Ends, modify-Ends, call-Ends, need-Ends,
  when-Ends, Ends,
}

module _ (substrate : Substrate) where
  abbrev pub queue_needs : List Need
  queue_needs =
      present substrate.builder_selects select_chain_required
      ∷ succeeds grandpa_block_import
      ∷ succeeds slot_duration
      ∷ succeeds import_queue
      ∷ []

  full_import_queue-Ends :
      (s : Startup)
      → Ends substrate queue_needs
          (record s { import_setup = true })
          (full_import_queue substrate s)
  unfolding full_import_queue
  full_import_queue-Ends s =
      need-Ends substrate substrate.builder_selects select_chain_required _ s (
        call-Ends substrate grandpa_block_import _ s (
          call-Ends substrate slot_duration _ s (
            call-Ends substrate import_queue _ s
              (modify-Ends substrate (λ s. record s { import_setup = true }) s))))

  abbrev pub start_needs : List Need
  start_needs =
      succeeds new_full_builder
      ∷ succeeds with_select_chain
      ∷ succeeds with_transaction_pool
      ∷ queue_needs

  new_full_start-Ends :
      (s : Startup)
      → Ends substrate start_needs (record s { import_setup = true }) (new_full_start substrate s)
  unfolding new_full_start
  new_full_start-Ends s = call-Ends substrate new_full_builder _ s (
      call-Ends substrate with_select_chain _ s
        (call-Ends substrate with_transaction_pool _ s (full_import_queue-Ends s)))

  abbrev author_needs : List Need
  author_needs =
      present substrate.service_selects select_chain_required
      ∷ succeeds author_slot_duration
      ∷ succeeds start_aura
      ∷ []

  abbrev with_task : Task → Startup → Startup
  with_task task s = record s { tasks = s.tasks ++ (task ∷ []) }

  author-Ends :
      (force : Bool) (s : Startup)
      → Ends substrate author_needs (with_task (aura force) s) (author substrate force s)
  unfolding author
  author-Ends force s = need-Ends substrate substrate.service_selects select_chain_required _ s (
      call-Ends substrate author_slot_duration _ s
        (call-Ends substrate start_aura _ s (modify-Ends substrate (with_task (aura force)) s)))

  -- What a full service needs: after the start of the builder, the authoring only for an authority that
  -- is not a sentry, and one of the two ways to set up grandpa.
  abbrev pub full_needs : Configuration → List Need
  full_needs config =
      start_needs
      ++ succeeds with_finality_proof_provider
        ∷ succeeds build
        ∷ ((if config.is_authority && not config.sentry_mode then author_needs else [])
            ++ succeeds
                (if config.disable_grandpa then setup_disabled_grandpa else run_grandpa_voter)
              ∷ [])

  -- The voter of a service that authors, or not: it gossips every 333 milliseconds, justifies every 512
  -- blocks, does not only observe, and signs with the keystore only if the service authors.
  abbrev pub voter : Configuration → (authors : Bool) → GrandpaConfig
  voter config authors = record {
    gossip_millis = 333;
    justification_period = 512;
    name = config.name;
    observer_enabled = false;
    keystore = authors;
    is_authority = config.is_authority;
  }

  -- And what it then runs.
  abbrev pub full_service : Configuration → Startup
  full_service config =
      let participates = config.is_authority && not config.sentry_mode in
      let authors = if participates then aura config.force_authoring ∷ [] else [] in
      record {
        import_setup = false;
        tasks =
            if config.disable_grandpa
            then authors
            else authors ++ (grandpa_voter (voter config participates) ∷ []);
        grandpa_disabled = config.disable_grandpa;
      }

  take-Ends :
      (s : Startup)
      → s.import_setup ≡ true
      → Ends substrate [] (record s { import_setup = false }) (take_import_setup s)
  unfolding take_import_setup
  take-Ends s e = rw e (well refl refl)

  vote_or_not-Ends :
      (config : Configuration) (s : Startup)
      → let participates = config.is_authority && not config.sentry_mode in
        let voter = grandpa_voter (grandpa_config config participates) in
        Ends substrate
          (succeeds (if config.disable_grandpa then setup_disabled_grandpa else run_grandpa_voter)
            ∷ [])
          (if config.disable_grandpa
            then record s { grandpa_disabled = true }
            else with_task voter s)
          ((if not config.disable_grandpa
              then vote substrate (grandpa_config config participates)
              else no_vote substrate)
            s)
  unfolding vote no_vote
  vote_or_not-Ends config s = elim (Bool-cases config.disable_grandpa) [
    | inl disabled ↦ rw disabled (
        call-Ends substrate setup_disabled_grandpa _ s
          (modify-Ends substrate (λ s. record s { grandpa_disabled = true }) s))
    | inr enabled ↦
        rw enabled
          (call-Ends substrate run_grandpa_voter _ s (modify-Ends substrate (with_task _) s))
  ]

  -- Where the parts of a full service lead.
  abbrev after_parts : Configuration → Startup
  after_parts config =
      let participates = config.is_authority && not config.sentry_mode in
      let authored = if participates then with_task (aura config.force_authoring) idle else idle in
      let voter = grandpa_voter (grandpa_config config participates) in
      if config.disable_grandpa
      then record authored { grandpa_disabled = true }
      else with_task voter authored

  after_parts-eq : (config : Configuration) → after_parts config ≡ full_service config
  unfolding grandpa_config
  after_parts-eq config = elim (Bool-cases (config.is_authority && not config.sentry_mode)) [
    | inl p ↦ elim (Bool-cases config.disable_grandpa) [
      | inl d ↦ rw (p, d) refl
      | inr d ↦ rw (p, d) refl
    ]
    | inr p ↦ elim (Bool-cases config.disable_grandpa) [
      | inl d ↦ rw (p, d) refl
      | inr d ↦ rw (p, d) refl
    ]
  ]

  -- A full service never panics, also not where it expects its import setup. It fails with the error of
  -- the first of its needs that is not met, and starts if all are met: it then authors if and only if
  -- the node is an authority and not a sentry, votes unless grandpa is disabled, and the voter gossips
  -- every 333 milliseconds, justifies every 512 blocks, is no mere observer, and has the keystore if and
  -- only if the node authors.
  pub new_full_lem :
      (config : Configuration)
      → Ends substrate (full_needs config) (full_service config) (new_full substrate config idle)
  unfolding new_full
  new_full_lem config =
      let participates = config.is_authority && not config.sentry_mode in
      let ready = record idle { import_setup = true } in
      let authored = if participates then with_task (aura config.force_authoring) idle else idle in
      let authoring = author substrate config.force_authoring in
      let grandpa : Start Done =
        if not config.disable_grandpa
        then vote substrate (grandpa_config config participates)
        else no_vote substrate in
      let tasks = when participates authoring >> grandpa in
      let building = tried (substrate.fails_with build) >> tasks in
      let proving = tried (substrate.fails_with with_finality_proof_provider) >> building in
      subst (λ after. Ends substrate (full_needs config) after (new_full substrate config idle))
        (after_parts-eq config)
        (Ends-then substrate (new_full_start substrate idle) (take_import_setup >> proving)
          (new_full_start-Ends idle)
          (Ends-then substrate (take_import_setup ready) proving (take-Ends ready refl) (
            call-Ends substrate with_finality_proof_provider building idle (
              call-Ends substrate build tasks idle (
                Ends-then substrate (when participates authoring idle) grandpa
                  (when-Ends substrate participates (with_task (aura config.force_authoring))
                    authoring idle (author-Ends config.force_authoring idle))
                  (vote_or_not-Ends config authored))))))

  abbrev pub light_needs : List Need
  light_needs =
      succeeds new_light_builder
      ∷ succeeds with_select_chain
      ∷ present substrate.fetches no_fetcher
      ∷ succeeds with_transaction_pool
      ∷ present substrate.fetches no_fetch_checker
      ∷ succeeds light_block_import
      ∷ succeeds slot_duration
      ∷ succeeds import_queue
      ∷ succeeds with_finality_proof_provider
      ∷ succeeds build
      ∷ []

  -- A light service fails with the error of the first of its needs that is not met, or starts and runs
  -- no essential task.
  pub new_light_lem : Ends substrate light_needs idle (new_light substrate idle)
  unfolding new_light light_import_queue
  new_light_lem = call-Ends substrate new_light_builder _ idle (
      call-Ends substrate with_select_chain _ idle (
        need-Ends substrate substrate.fetches no_fetcher _ idle (
          call-Ends substrate with_transaction_pool _ idle (
            Ends-then substrate (light_import_queue substrate idle) _
              (need-Ends substrate substrate.fetches no_fetch_checker _ idle (
                call-Ends substrate light_block_import _ idle (
                  call-Ends substrate slot_duration _ idle
                    (tried-Ends substrate import_queue idle))))
              (call-Ends substrate with_finality_proof_provider _ idle
                (tried-Ends substrate build idle))))))
