-- ===== src/Node/Needs.antt =====
-- What a start needs of the crates' calls, and when it ends well.
use substrate_stablecoin.Prelude.{
  ℕ, ◌≡◌, ◌∙◌, ap, sym, refl, Bool, true, false, Option, none, some, List, [], ◌∷◌, ◌++◌,
  if◌then◌else◌,
}
use substrate_stablecoin.Node.{
  Step, ServiceError, external, Substrate, Startup, Started, ok, failed, panicked, Start, Done,
  and_then, required, tried, modify, when,
}

-- What a start needs: that a call succeeds, or that something is there.
pub data Need : Type 0 where
  succeeds : Step → Need
  present : Bool → ServiceError → Need

-- The first of two errors.
abbrev pub or_else : Option ServiceError → Option ServiceError → Option ServiceError
or_else none rest = rest
or_else (some e) rest = some e

or_else_assoc : (a b c : Option ServiceError) → or_else (or_else a b) c ≡ or_else a (or_else b c)
or_else_assoc none b c = refl
or_else_assoc (some e) b c = refl

abbrev pub of_call : Option ℕ → Option ServiceError
of_call none = none
of_call (some e) = some (external e)

module _ (substrate : Substrate) where
  abbrev pub refused : Need → Option ServiceError
  refused (succeeds step) = of_call (substrate.fails_with step)
  refused (present true e) = none
  refused (present false e) = some e

  -- The error of the first need that is not met.
  abbrev pub first_refused : List Need → Option ServiceError
  first_refused [] = none
  first_refused (need ∷ needs) = or_else (refused need) (first_refused needs)

  -- A start that meets its needs ends well and does `f`; one that does not fails with the first error.
  pub data Ends (needs : List Need) (after : Startup) (out : Started Done × Startup) : Type 0 where
    well : first_refused needs ≡ none → out ≡ (ok tt, after) → Ends needs after out
    badly :
        (e : ServiceError) → first_refused needs ≡ some e → out.0 ≡ failed e → Ends needs after out

  first_refused-append :
      (needs more : List Need)
      → first_refused (needs ++ more) ≡ or_else (first_refused needs) (first_refused more)
  first_refused-append [] more = refl
  first_refused-append (need ∷ needs) more =
      ap (or_else (refused need)) (first_refused-append needs more)
      ∙ sym (or_else_assoc (refused need) (first_refused needs) (first_refused more))

  -- One start after another.
  pub Ends-then :
      {needs more : List Need} {after last : Startup} (out : Started Done × Startup)
      (n : Start Done)
      → Ends needs after out
      → Ends more last (n after)
      → Ends (needs ++ more) last (and_then out (λ _. n))
  Ends-then {needs} {more} out n (well none_refused e) (well none_refused' e') =
      well (first_refused-append needs more ∙ rw (none_refused, none_refused') refl)
        (ap (λ o. and_then o (λ _. n)) e ∙ e')
  Ends-then {needs} {more} out n (well none_refused e) (badly e₁ r e') =
      badly e₁ (first_refused-append needs more ∙ rw (none_refused, r) refl)
        (ap (λ o. (and_then o (λ _. n)).0) e ∙ e')
  Ends-then {needs} {more} (ok done, s) n (badly e r e') q = absurd (cc e')
  Ends-then {needs} {more} (failed e₁, s) n (badly e r e') q =
      badly e (first_refused-append needs more ∙ rw r refl) (cc e')
  Ends-then {needs} {more} (panicked, s) n (badly e r e') q = absurd (cc e')

  pub tried-Ends :
      (step : Step) (s : Startup)
      → Ends (succeeds step ∷ []) s (tried (substrate.fails_with step) s)
  tried-Ends step s = on (substrate.fails_with step) refl
    where
      on : (o : Option ℕ) → substrate.fails_with step ≡ o → Ends (succeeds step ∷ []) s (tried o s)
      on none e = well (ap (λ o. or_else (of_call o) none) e) refl
      on (some e₁) e = badly (external e₁) (ap (λ o. or_else (of_call o) none) e) refl

  required-Ends :
      (b : Bool) (e : ServiceError) (s : Startup) → Ends (present b e ∷ []) s (required b e s)
  required-Ends true e s = well refl refl
  required-Ends false e s = badly e refl refl

  pub modify-Ends : (f : Startup → Startup) (s : Startup) → Ends [] (f s) (modify f s)
  modify-Ends f s = well refl refl

  pub call-Ends :
      (step : Step) {more : List Need} {last : Startup} (n : Start Done) (s : Startup)
      → Ends more last (n s)
      → Ends (succeeds step ∷ more) last (and_then (tried (substrate.fails_with step) s) (λ _. n))
  call-Ends step n s q = Ends-then (tried (substrate.fails_with step) s) n (tried-Ends step s) q

  pub need-Ends :
      (b : Bool) (e : ServiceError) {more : List Need} {last : Startup} (n : Start Done)
      (s : Startup)
      → Ends more last (n s)
      → Ends (present b e ∷ more) last (and_then (required b e s) (λ _. n))
  need-Ends b e n s q = Ends-then (required b e s) n (required-Ends b e s) q

  pub when-Ends :
      (b : Bool) {needs : List Need} (f : Startup → Startup) (m : Start Done) (s : Startup)
      → Ends needs (f s) (m s)
      → Ends (if b then needs else []) (if b then f s else s) (when b m s)
  when-Ends true f m s q = q
  when-Ends false f m s q = well refl refl
