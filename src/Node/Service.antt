-- ===== src/Node/Service.antt =====
-- node/src/service.rs: the full and the light service.
use substrate_stablecoin.Prelude.{Bool, true, false, not, ◌&&◌, [], ◌∷◌, ◌++◌, if◌then◌else◌}
use substrate_stablecoin.Node.{
  Step, new_full_builder, new_light_builder, with_select_chain, with_transaction_pool,
  grandpa_block_import, light_block_import, slot_duration, import_queue,
  with_finality_proof_provider, build, author_slot_duration, start_aura, run_grandpa_voter,
  setup_disabled_grandpa, select_chain_required, no_fetcher, no_fetch_checker, Substrate,
  Configuration, GrandpaConfig, Task, aura, grandpa_voter, Start, Done, ◌>>◌, modify, required,
  expected, tried, when,
}

abbrev spawn : Task → Start Done
spawn task = modify (λ s. record s { tasks = s.tasks ++ (task ∷ []) })

-- `import_setup.take().expect(…)`.
unfoldable pub take_import_setup : Start Done
take_import_setup s = expected s.import_setup (record s { import_setup = false })

unfoldable pub grandpa_config : Configuration → (participates : Bool) → GrandpaConfig
grandpa_config config participates = record {
  gossip_millis = 333;
  justification_period = 512;
  name = config.name;
  observer_enabled = false;
  keystore = participates;
  is_authority = config.is_authority;
}

module _ (substrate : Substrate) where
  abbrev call : Step → Start Done
  call step = tried (substrate.fails_with step)

  -- The closure of `with_import_queue`, which the builder runs once and whose error it answers.
  unfoldable pub full_import_queue : Start Done
  full_import_queue = do
    required substrate.builder_selects select_chain_required
    call grandpa_block_import
    call slot_duration
    call import_queue
    modify (λ s. record s { import_setup = true })

  -- `new_full_start!`.
  unfoldable pub new_full_start : Start Done
  unfolding full_import_queue
  new_full_start = do
    call new_full_builder
    call with_select_chain
    call with_transaction_pool
    full_import_queue

  unfoldable pub author : (force_authoring : Bool) → Start Done
  author force_authoring = do
    required substrate.service_selects select_chain_required
    call author_slot_duration
    call start_aura
    spawn (aura force_authoring)

  unfoldable pub vote : GrandpaConfig → Start Done
  vote config = do call run_grandpa_voter; spawn (grandpa_voter config)

  unfoldable pub no_vote : Start Done
  no_vote = do call setup_disabled_grandpa; modify (λ s. record s { grandpa_disabled = true })

  unfoldable pub new_full : Configuration → Start Done
  unfolding new_full_start take_import_setup author vote no_vote grandpa_config
  new_full config =
      let participates = config.is_authority && not config.sentry_mode in
      do
        new_full_start
        take_import_setup
        call with_finality_proof_provider
        call build
        when participates (author config.force_authoring)
        if not config.disable_grandpa then vote (grandpa_config config participates) else no_vote

  -- `new_light`: the pool's closure, and that of the import queue, want a fetcher.
  unfoldable pub light_import_queue : Start Done
  light_import_queue = do
    required substrate.fetches no_fetch_checker
    call light_block_import
    call slot_duration
    call import_queue

  unfoldable pub new_light : Start Done
  unfolding light_import_queue
  new_light = do
    call new_light_builder
    call with_select_chain
    required substrate.fetches no_fetcher
    call with_transaction_pool
    light_import_queue
    call with_finality_proof_provider
    call build
