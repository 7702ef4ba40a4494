-- ===== src/App/ReceivableLaws.antt =====
-- The receivable amounts of accounts, added up for `balance` of client/src/balance.rs.
use camonanowallet.Base.{
  ℕ, ◌≡◌, ◌∙◌, sym, refl, ap, inl, inr, arith, All, Bool-cases, List, [], ◌∷◌, ◌<◌, eqb, length,
  select, if◌then◌else◌,
}
use camonanowallet.Base.Word.{wrapping_add, u128_mod}
use camonanowallet.Nano.{Nano, Receivable}
use camonanowallet.App.Commands.Balance.{sum_receivables, filter_receivable}

module _ (n : Nano) (one_nano : ℕ) where
  -- how often an account is among the accounts
  abbrev pub occurrences : n.Account → List n.Account → ℕ
  occurrences account accounts = length (select (λ a. eqb n.account_dec account a) accounts)

  -- the receivable amounts of the accounts, added up
  unfoldable pub sum_accounts : List (Receivable n) → List n.Account → ℕ
  unfolding wrapping_add filter_receivable
  sum_accounts receivables [] = 0
  sum_accounts receivables (a ∷ rest) =
      wrapping_add (filter_receivable n one_nano receivables a) (sum_accounts receivables rest)

  sum_accounts-bound :
      (rs : List (Receivable n)) (accounts : List n.Account) → sum_accounts rs accounts < u128_mod
  unfolding sum_accounts wrapping_add
  sum_accounts-bound rs [] = omega arith
  sum_accounts-bound rs (a ∷ rest) = omega arith

  sum_accounts-none : (accounts : List n.Account) → sum_accounts [] accounts ≡ 0
  unfolding sum_accounts wrapping_add filter_receivable sum_receivables
  sum_accounts-none [] = refl
  sum_accounts-none (a ∷ rest) = rw (sum_accounts-none rest) refl

  filter_receivable-cons :
      (r : Receivable n) (rs : List (Receivable n)) (a : n.Account)
      → filter_receivable n one_nano (r ∷ rs) a ≡ (
          if eqb n.account_dec r.recipient a
          then wrapping_add r.amount (filter_receivable n one_nano rs a)
          else filter_receivable n one_nano rs a)
  unfolding filter_receivable sum_receivables
  filter_receivable-cons r rs a = elim (Bool-cases (eqb n.account_dec r.recipient a)) [
    | inl e ↦ rw e refl
    | inr e ↦ rw e refl
  ]

  sum_accounts-absent :
      (r : Receivable n) (rs : List (Receivable n)) (accounts : List n.Account)
      → occurrences r.recipient accounts ≡ 0
      → sum_accounts (r ∷ rs) accounts ≡ sum_accounts rs accounts
  unfolding sum_accounts
  sum_accounts-absent r rs [] h = refl
  sum_accounts-absent r rs (a ∷ rest) h =
      ground (arith, filter_receivable-cons r rs a, sum_accounts-absent r rs rest)

  sum_accounts-cons :
      (r : Receivable n) (rs : List (Receivable n)) (accounts : List n.Account)
      → occurrences r.recipient accounts ≡ 1
      → sum_accounts (r ∷ rs) accounts ≡ wrapping_add r.amount (sum_accounts rs accounts)
  unfolding sum_accounts wrapping_add
  sum_accounts-cons r rs [] h = ground arith
  sum_accounts-cons r rs (a ∷ rest) h = ground (
    arith,
    filter_receivable-cons r rs a,
    sum_accounts-cons r rs rest,
    sum_accounts-absent r rs rest,
  )

  -- where the recipient of each is among the accounts exactly once
  pub sum_receivables-sum_accounts :
      (accounts : List n.Account) (receivables : List (Receivable n))
      → All (λ r. occurrences r.recipient accounts ≡ 1) receivables
      → sum_receivables n one_nano receivables ≡ sum_accounts receivables accounts
  unfolding sum_receivables
  sum_receivables-sum_accounts accounts [] h = sym (sum_accounts-none accounts)
  sum_receivables-sum_accounts accounts (r ∷ rs) h =
      ap (wrapping_add r.amount) (sum_receivables-sum_accounts accounts rs h.1)
      ∙ sym (sum_accounts-cons r rs accounts h.0)
