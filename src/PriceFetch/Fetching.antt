-- ===== src/PriceFetch/Fetching.antt =====
-- The first task of the offchain worker: one source that fails does not stop the others.
use substrate_stablecoin.Prelude.{
  ℕ, ◌%◌, ◌≡◌, ◌≢◌, refl, Bool, true, false, ◌&&◌, inl, inr, List, [], ◌∷◌, All, map, Bool-cases,
  ltb, ◌==◌, if◌then◌else◌, Bytes,
}
use substrate_stablecoin.PriceFetch.{converts}
use substrate_stablecoin.PriceFetch.Offchain.{
  Host, Fetched, fetched, failed, panicked, fetched_cryptos, fetch_price, fetch_all, fetch_task,
}

-- The calls of those that succeeded.
abbrev pub successes : {A : Type 0} → List (Fetched A) → List A
successes [] = []
successes (fetched a ∷ results) = a ∷ successes results
successes (failed e ∷ results) = successes results
successes (panicked ∷ results) = successes results

abbrev pub IsText : Bool → Bytes × Bytes × Bytes → Type 0
IsText logs (sym, remote_src, remote_url) =
    (converts logs sym ≡ true) × (converts logs remote_src ≡ true)

pub fetched_cryptos-IsText : (logs : Bool) → All (IsText logs) fetched_cryptos
unfolding converts
fetched_cryptos-IsText true = (
  (refl, refl),
  ((refl, refl), ((refl, refl), ((refl, refl), ((refl, refl), ((refl, refl), tt))))),
)
fetched_cryptos-IsText false = (
  (refl, refl),
  ((refl, refl), ((refl, refl), ((refl, refl), ((refl, refl), ((refl, refl), tt))))),
)

module _ (host : Host) (logs : Bool) where
  -- One entry of the loop, by how its fetch ends.
  fetch_all-entry :
      (crypto : Bytes × Bytes × Bytes) (cryptos : List (Bytes × Bytes × Bytes))
      (r : Fetched (Bytes × Bytes × Bytes × ℕ))
      → IsText logs crypto
      → fetch_price host logs crypto ≡ r
      → r ≢ panicked
      → fetch_all host logs cryptos ≡ (successes (map (fetch_price host logs) cryptos), true)
      → fetch_all host logs (crypto ∷ cryptos)
        ≡ (successes (map (fetch_price host logs) (crypto ∷ cryptos)), true)
  unfolding fetch_all
  fetch_all-entry (sym, remote_src, remote_url) cryptos (fetched call) t e h rest =
      rw (e, fetch_all) (rw rest refl)
  fetch_all-entry (sym, remote_src, remote_url) cryptos (failed error) t e h rest =
      rw (e, fetch_all) (rw (t.0, t.1, rest) refl)
  fetch_all-entry crypto cryptos panicked t e h rest = absurd (h refl)

  fetch_all_lem :
      (cryptos : List (Bytes × Bytes × Bytes))
      → All (IsText logs) cryptos
      → All (λ crypto. fetch_price host logs crypto ≢ panicked) cryptos
      → fetch_all host logs cryptos ≡ (successes (map (fetch_price host logs) cryptos), true)
  unfolding fetch_all
  fetch_all_lem [] t h = refl
  fetch_all_lem (crypto ∷ cryptos) t h =
      fetch_all-entry crypto cryptos (fetch_price host logs crypto) t.0 refl h.0
        (fetch_all_lem cryptos t.1 h.1)

  -- In a block that is due, if no source's answer makes the worker panic, its first task comes to its
  -- end and submits exactly the calls of the entries that were fetched, in their order, however the
  -- others failed; in any other block, and with a duration of zero, it submits nothing.
  pub fetch_task_lem :
      (duration block : ℕ)
      → All (λ crypto. fetch_price host logs crypto ≢ panicked) fetched_cryptos
      → fetch_task host logs duration block ≡ (
        if ltb 0 duration && block % duration == 0
            then successes (map (fetch_price host logs) fetched_cryptos)
            else [],
        true,
      )
  unfolding fetch_task
  fetch_task_lem duration block h = elim (Bool-cases (ltb 0 duration && block % duration == 0)) [
    | inl due ↦ rw due (fetch_all_lem fetched_cryptos (fetched_cryptos-IsText logs) h)
    | inr not_due ↦ rw not_due refl
  ]
