-- ===== src/Node.antt =====
-- node/src: how the node starts, over the calls of substrate's crates. A call that can fail is a step, whose
-- answer is a parameter; what the node builds of the answers is the model.
pub mod Service
pub mod Needs
pub mod Starts
pub mod Command
use substrate_stablecoin.Prelude.{ℕ, Bool, true, false, Option, none, some, List, [], ◌∷◌}

-- The calls that can fail, by the crate's name for them; the slot duration is read at two places.
pub data Step : Type 0 where
  new_full_builder new_light_builder : Step
  with_select_chain with_transaction_pool : Step
  grandpa_block_import light_block_import slot_duration import_queue : Step
  with_finality_proof_provider build : Step
  author_slot_duration start_aura run_grandpa_voter setup_disabled_grandpa : Step

-- `external` is what a call failed with; the others are the node's own.
pub data ServiceError : Type 0 where
  external : ℕ → ServiceError
  select_chain_required no_fetcher no_fetch_checker : ServiceError

-- What the crates answer: what a call fails with, if it does; whether the builder and the service
-- have a chain selection; and whether the light builder has a fetcher.
pub record Substrate : Type 0 where
  pub fails_with : Step → Option ℕ
  pub builder_selects : Bool
  pub service_selects : Bool
  pub fetches : Bool

-- `Configuration`, as far as the node reads it.
pub record Configuration : Type 0 where
  pub is_authority : Bool
  pub sentry_mode : Bool
  pub force_authoring : Bool
  pub disable_grandpa : Bool
  pub name : List ℕ

-- `grandpa::Config`; `keystore` is whether it has one.
pub record GrandpaConfig : Type 0 where
  pub gossip_millis : ℕ
  pub justification_period : ℕ
  pub name : List ℕ
  pub observer_enabled : Bool
  pub keystore : Bool
  pub is_authority : Bool

-- The essential tasks.
pub data Task : Type 0 where
  aura : (force_authoring : Bool) → Task
  grandpa_voter : GrandpaConfig → Task

-- What a start changes: `import_setup`, the tasks that are spawned, and whether grandpa was set up as
-- disabled.
pub record Startup : Type 0 where
  pub import_setup : Bool
  pub tasks : List Task
  pub grandpa_disabled : Bool

pub data Started (A : Type 0) : Type 0 where
  ok : A → Started A
  failed : ServiceError → Started A
  panicked : Started A

abbrev pub Start : Type 0 → Type 0
Start A = Startup → Started A × Startup

abbrev pub Done : Type 0
Done = Unit

abbrev pub and_then : {A B : Type 0} → Started A × Startup → (A → Start B) → Started B × Startup
and_then (ok a, s) f = f a s
and_then (failed e, s) f = (failed e, s)
and_then (panicked, s) f = (panicked, s)

infixl 5 ◌>>=◌ ◌>>◌
abbrev pub ◌>>=◌ : {A B : Type 0} → Start A → (A → Start B) → Start B
◌>>=◌ m f s = and_then (m s) f

abbrev pub ◌>>◌ : {A B : Type 0} → Start A → Start B → Start B
m >> k = m >>= λ _. k

abbrev pub modify : (Startup → Startup) → Start Done
modify f s = (ok tt, f s)

-- `ok_or(e)?` on an option of which only its presence matters, and `expect`.
abbrev pub required : Bool → ServiceError → Start Done
required true e s = (ok tt, s)
required false e s = (failed e, s)

abbrev pub expected : Bool → Start Done
expected true s = (ok tt, s)
expected false s = (panicked, s)

-- `?` on a call.
abbrev pub tried : Option ℕ → Start Done
tried none s = (ok tt, s)
tried (some e) s = (failed (external e), s)

abbrev pub when : Bool → Start Done → Start Done
when true m s = m s
when false m s = (ok tt, s)

abbrev pub idle : Startup
idle = record { import_setup = false; tasks = []; grandpa_disabled = false }
