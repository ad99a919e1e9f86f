-- ===== src/Stablecoin/HandOut/Each.antt =====
-- An even split when no account has two places among the shareholders: what one account gets.
use substrate_stablecoin.Prelude.{
  ℕ, suc, ◌+◌, ◌≤◌, ◌≡◌, ◌≢◌, ◌/◌, ◌%◌, refl, false, List, [], ◌∷◌, map, length, All, Distinct,
  arith, ltb, ◌==◌, if◌then◌else◌,
}
use substrate_stablecoin.Stablecoin.Balances.Payments.{paid_to}
use substrate_stablecoin.Stablecoin.HandOut.Split.{split, even_split}

-- Each coin count or one more.
abbrev pub AboutEach : (each coins : ℕ) → Type 0
AboutEach each coins = (each ≤ coins) × (coins ≤ each + 1)

abbrev pub accounts_of : List (ℕ × ℕ) → List ℕ
accounts_of = map (λ share. share.0)

split-outside :
    (t each more i : ℕ) (shares : List (ℕ × ℕ))
    → All (λ account. t ≢ account) (accounts_of shares)
    → paid_to t (split each more i shares) ≡ 0
split-outside t each more i [] h = refl
split-outside t each more i ((account, n) ∷ shares) h =
    ground (arith, h.0, split-outside t each more (suc i) shares h.1)

-- A first payment to another account does not count.
past_first :
    (account each more i first : ℕ) (accounts : List ℕ) (shares : List (ℕ × ℕ))
    → All (λ other. account ≢ other) accounts
    → All (λ t. AboutEach each (paid_to t (split each more i shares))) accounts
    → All
        (λ t.
          AboutEach each
            ((if t == account then first else 0) + paid_to t (split each more i shares)))
        accounts
past_first account each more i first [] shares others h = tt
past_first account each more i first (t ∷ accounts) shares others h =
    let not_first : (t == account) ≡ false = ground (arith, others.0) in
    (
      rw not_first (omega (arith, h.0)),
      past_first account each more i first accounts shares others.1 h.1,
    )

split-each :
    (each more i : ℕ) (shares : List (ℕ × ℕ))
    → Distinct (accounts_of shares)
    → All (λ t. AboutEach each (paid_to t (split each more i shares))) (accounts_of shares)
split-each each more i [] d = tt
split-each each more i ((account, n) ∷ shares) d =
    let rest = split-each each more (suc i) shares d.1 in
    let none_later = split-outside account each more (suc i) shares d.0 in
    let extra : ℕ = if ltb i more then 1 else 0 in
    (
      ground (arith, none_later),
      past_first account each more (suc i) (each + extra) (accounts_of shares) shares d.0 rest,
    )

-- If no account has two places, each shareholder gets the amount divided by their number or one coin more,
-- and any other account nothing.
pub even_split-each :
    (amount : ℕ) (shares : List (ℕ × ℕ))
    → Distinct (accounts_of shares)
    → All
        (λ t. AboutEach (amount / length shares) (paid_to t (even_split amount shares)))
        (accounts_of shares)
      × ((t : ℕ)
          → All (λ account. t ≢ account) (accounts_of shares)
          → paid_to t (even_split amount shares) ≡ 0)
even_split-each amount shares d =
    let each = amount / length shares in
    let more = amount % length shares in
    (split-each each more 0 shares d, λ t. split-outside t each more 0 shares)
