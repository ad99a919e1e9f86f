-- ===== src/Node/Command.antt =====
-- node/src/command.rs: `run`, over sc_cli, which parses the arguments and runs what they ask for.
use substrate_stablecoin.Prelude.{
  ℕ, ◌≡◌, ◌∙◌, refl, ◌⊎◌, inl, inr, Bool, true, false, Option, none, some, [], Bytes,
}
use substrate_stablecoin.Node.{
  Step, new_full_builder, with_select_chain, with_transaction_pool, grandpa_block_import,
  slot_duration, import_queue, select_chain_required, ServiceError, external, Substrate,
  Configuration, Startup, Started, ok, failed, panicked, Start, Done, and_then, ◌>>=◌, ◌>>◌, tried,
  required, modify, idle,
}
use substrate_stablecoin.Node.Service.{full_import_queue, new_full_start, new_full, new_light}
use substrate_stablecoin.ChainSpec.{Spec}

-- What a command line names: a subcommand, or the node itself.
pub data Command : Type 0 where
  subcommand : ℕ → Command
  run_cmd : Command

-- sc_cli: `init` and `update_config` fail or not, the latter with the configuration that it makes with
-- the function that loads a specification; `run` of a subcommand is given what builds the parts of a
-- service, and `run` of the node the light and the full service.
pub record ScCli : Type 0 where
  pub init : Command → Option ℕ
  pub update_config : Command → (Bytes → Option Spec) → ℕ ⊎ Configuration
  pub run_subcommand : ℕ → Configuration → (Configuration → Start Done) → Start Done
  pub run_node : Configuration → (light full : Configuration → Start Done) → Start Done

abbrev updated : {A : Type 0} → ℕ ⊎ A → Start A
updated (inl e) s = (failed (external e), s)
updated (inr a) s = (ok a, s)

module _ (cli : ScCli) (substrate : Substrate) (load : Bytes → Option Spec) where
  unfoldable pub run : Command → Start Done
  unfolding new_full_start new_full new_light
  run (subcommand n) = do
    tried (cli.init (subcommand n))
    config ← updated (cli.update_config (subcommand n) load)
    cli.run_subcommand n config (λ config. new_full_start substrate)
  run run_cmd = do
    tried (cli.init run_cmd)
    config ← updated (cli.update_config run_cmd load)
    cli.run_node config (λ config. new_light substrate) (new_full substrate)

-- A subcommand spawns no task but what the builder that it is given spawns.
pub record CliLaws (cli : ScCli) : Type 0 where
  pub only_builds :
      (n : ℕ) (config : Configuration) (builder : Configuration → Start Done) (s : Startup)
      → ((cli.run_subcommand n config builder s).1.tasks ≡ s.tasks)
        ⊎ ((cli.run_subcommand n config builder s).1.tasks ≡ (builder config s).1.tasks)

-- A start that leaves the tasks.
abbrev IsQuiet : Start Done → Type 0
IsQuiet m = (s : Startup) → (m s).1.tasks ≡ s.tasks

tried-IsQuiet : (o : Option ℕ) → IsQuiet (tried o)
tried-IsQuiet none s = refl
tried-IsQuiet (some e) s = refl

required-IsQuiet : (b : Bool) (e : ServiceError) → IsQuiet (required b e)
required-IsQuiet true e s = refl
required-IsQuiet false e s = refl

then-IsQuiet : (m n : Start Done) → IsQuiet m → IsQuiet n → IsQuiet (m >> n)
then-IsQuiet m n p q s = on (m s) (p s)
  where
    on :
        (out : Started Done × Startup)
        → out.1.tasks ≡ s.tasks
        → (and_then out (λ _. n)).1.tasks ≡ s.tasks
    on (ok done, s') e = q s' ∙ e
    on (failed e', s') e = e
    on (panicked, s') e = e

module _ (substrate : Substrate) where
  call-IsQuiet :
      (step : Step) (n : Start Done) → IsQuiet n → IsQuiet (tried (substrate.fails_with step) >> n)
  call-IsQuiet step n q =
      then-IsQuiet (tried (substrate.fails_with step)) n (tried-IsQuiet (substrate.fails_with step))
        q

  new_full_start-IsQuiet : IsQuiet (new_full_start substrate)
  unfolding new_full_start full_import_queue
  new_full_start-IsQuiet =
      let setup : Start Done = modify (λ s. record s { import_setup = true }) in
      let queue = tried (substrate.fails_with import_queue) >> setup in
      let slot = tried (substrate.fails_with slot_duration) >> queue in
      let block = tried (substrate.fails_with grandpa_block_import) >> slot in
      let pool =
        tried (substrate.fails_with with_transaction_pool) >> full_import_queue substrate in
      let select = tried (substrate.fails_with with_select_chain) >> pool in
      call-IsQuiet new_full_builder select (
        call-IsQuiet with_select_chain pool (
          call-IsQuiet with_transaction_pool (full_import_queue substrate) (
            then-IsQuiet (required substrate.builder_selects select_chain_required) block
              (required-IsQuiet substrate.builder_selects select_chain_required)
              (call-IsQuiet grandpa_block_import slot
                (call-IsQuiet slot_duration queue (call-IsQuiet import_queue setup (λ s. refl)))))))

-- A subcommand, however it and the calls that it makes end, spawns neither an authoring nor a voting
-- task.
pub run_subcommand_lem :
    (cli : ScCli) (substrate : Substrate) (load : Bytes → Option Spec) (n : ℕ)
    → CliLaws cli
    → (run cli substrate load (subcommand n) idle).1.tasks ≡ []
unfolding run
run_subcommand_lem cli substrate load n laws =
    started (cli.init (subcommand n)) (cli.update_config (subcommand n) load)
  where
    started :
        (o : Option ℕ) (u : ℕ ⊎ Configuration)
        → (and_then (tried o idle) (λ _ s.
            and_then
              (updated u s)
              (λ config. cli.run_subcommand n config (λ config. new_full_start substrate)))).1.tasks
          ≡ []
    started none (inr config) =
        elim (laws.only_builds n config (λ config. new_full_start substrate) idle) [
          | inl e ↦ e
          | inr e ↦ e ∙ new_full_start-IsQuiet substrate idle
        ]
    started none (inl e) = refl
    started (some e) u = refl
