-- ===== src/Examples/Nodes.antt =====
-- The node at concrete inputs: an authority that cannot author, and a sentry with the same answers.
use substrate_stablecoin.Prelude.{ℕ, ◌≡◌, refl, true, false, Option, none, some, ascii}
use substrate_stablecoin.Node.{
  Step, start_aura, external, Substrate, Configuration, ok, failed, idle,
}
use substrate_stablecoin.Node.Service.{new_full, new_light}
use substrate_stablecoin.Node.Needs.{Ends}
use substrate_stablecoin.Node.Starts.{
  full_needs, full_service, new_full_lem, light_needs, new_light_lem,
}

-- Authoring cannot start, all else can.
abbrev authoring_fails : Step → Option ℕ
authoring_fails start_aura = some 7
authoring_fails _ = none

abbrev substrate : Substrate
substrate = record {
  fails_with = authoring_fails;
  builder_selects = true;
  service_selects = true;
  fetches = true;
}

abbrev authority : Configuration
authority = record {
  is_authority = true;
  sentry_mode = false;
  force_authoring = true;
  disable_grandpa = false;
  name = ascii "alice";
}

new_full_lem_example :
    Ends substrate
      (full_needs substrate authority)
      (full_service substrate authority)
      (new_full substrate authority idle)
new_full_lem_example = new_full_lem substrate authority

new_light_lem_example : Ends substrate (light_needs substrate) idle (new_light substrate idle)
new_light_lem_example = new_light_lem substrate

-- The authority does not start, and a sentry does.
authority_refused : (new_full substrate authority idle).0 ≡ failed (external 7)
unfolding new_full
authority_refused = refl

sentry_starts : (new_full substrate (record authority { sentry_mode = true }) idle).0 ≡ ok tt
unfolding new_full
sentry_starts = refl
