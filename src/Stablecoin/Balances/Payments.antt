-- ===== src/Stablecoin/Balances/Payments.antt =====
-- Payments to accounts, as a list of accounts and coins.
use substrate_stablecoin.Prelude.{ℕ, List, ◌==◌, sum_by, if◌then◌else◌}

-- What a list of payments gives to one account.
abbrev pub paid_to : ℕ → List (ℕ × ℕ) → ℕ
paid_to t = sum_by (λ payment. if t == payment.0 then payment.1 else 0)
