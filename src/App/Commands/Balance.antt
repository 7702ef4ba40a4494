-- ===== src/App/Commands/Balance.antt =====
-- The command `balance` of client/src/balance.rs: the lines that it prints, as data. The words around
-- the accounts and the amounts are left out; an amount is the text that `Amount::fmt` gives.
use camonanowallet.Base.{
  ℕ, ◌≡◌, Bool, Option, none, some, List, [], ◌∷◌, ◌++◌, map, eqb, ltb, length, select,
  if◌then◌else◌,
}
use camonanowallet.Base.Word.{wrapping_add}
use camonanowallet.Base.Sort.{sort_by_key, IsSorted, sort_by_key-IsSorted, n_of-sort_by_key}
use camonanowallet.Nano.{Nano, Receivable}
use camonanowallet.Frontiers.Query.{account_balance}
use camonanowallet.Wallet.Db.{GenericInfo}
use camonanowallet.Client.State.{CoreClient, wallet_balance, get_derived_accounts_from_master}
use camonanowallet.Amount.Text.{Text, fmt}
use camonanowallet.App.State.{Client}

-- A line has the balance, and what is receivable beside it where that is not 0. The line of a camo
-- account stands above those of its main account and of its derived accounts.
pub data Line (n : Nano) : Type 0 where
  total_line : Text → Option Text → Line n
  account_line : n.Account → ℕ → Text → Option Text → Line n
  camo_account_line : n.CamoAccount → ℕ → Line n
  main_line : n.Account → Text → Option Text → Line n
  derived_line : n.Account → Text → Option Text → Line n

module _ (n : Nano) (one_nano : ℕ) where
  abbrev pub balance_or_zero : Option ℕ → ℕ
  balance_or_zero none = 0
  balance_or_zero (some balance) = balance

  unfoldable pub get_display_balance : CoreClient n → n.Account → Text
  unfolding fmt account_balance
  get_display_balance client account =
      fmt one_nano (balance_or_zero (account_balance n client.frontiers_db account))

  unfoldable pub get_normal_accounts : CoreClient n → List (GenericInfo n.Account)
  unfolding sort_by_key
  get_normal_accounts client = sort_by_key (λ info. info.index) client.wallet_db.account_db.info

  unfoldable pub get_camo_accounts : CoreClient n → List (GenericInfo n.CamoAccount)
  unfolding sort_by_key
  get_camo_accounts client = sort_by_key (λ info. info.index) client.wallet_db.camo_account_db.info

  -- `iter().map(|receivable| receivable.amount).sum::<u128>()`
  unfoldable pub sum_receivables : List (Receivable n) → ℕ
  unfolding wrapping_add
  sum_receivables [] = 0
  sum_receivables (r ∷ rs) = wrapping_add r.amount (sum_receivables rs)

  unfoldable pub filter_receivable : List (Receivable n) → n.Account → ℕ
  unfolding sum_receivables
  filter_receivable receivables account =
      sum_receivables (select (λ r. eqb n.account_dec r.recipient account) receivables)

  -- `print_balance`: what is receivable is shown where it is not 0
  abbrev pub shown : ℕ → Option Text
  shown receivable = if ltb 0 receivable then some (fmt one_nano receivable) else none

  module _ (client : CoreClient n) (receivables : List (Receivable n)) where
    abbrev pub print_account : GenericInfo n.Account → Line n
    print_account info =
        Line.account_line info.account info.index (get_display_balance client info.account)
          (shown (filter_receivable receivables info.account))

    abbrev pub print_main : n.Account → Line n
    print_main account =
        Line.main_line account (get_display_balance client account)
          (shown (filter_receivable receivables account))

    abbrev pub print_derived : n.Account → Line n
    print_derived account =
        Line.derived_line account (get_display_balance client account)
          (shown (filter_receivable receivables account))

    unfoldable pub print_camo_accounts : List (GenericInfo n.CamoAccount) → List (Line n)
    unfolding fmt get_display_balance filter_receivable get_derived_accounts_from_master
    print_camo_accounts [] = []
    print_camo_accounts (info ∷ rest) =
        Line.camo_account_line info.account info.index
          ∷ print_main (n.signer_account info.account)
          ∷ map print_derived (get_derived_accounts_from_master n client info.account)
        ++ print_camo_accounts rest

  -- `balance::execute`
  unfoldable pub balance : Client n → List (Line n)
  unfolding fmt get_display_balance filter_receivable sum_receivables get_normal_accounts
      get_camo_accounts print_camo_accounts wallet_balance
  balance client =
      let receivables = map (λ entry. entry.1) client.receivable in
      Line.total_line (fmt one_nano (wallet_balance n client.core))
          (shown (sum_receivables receivables))
        ∷ map (print_account client.core receivables) (get_normal_accounts client.core)
      ++ print_camo_accounts client.core receivables (get_camo_accounts client.core)

  -- The accounts are listed in the order of their indices, and each as often as it is tracked.
  pub get_normal_accounts-IsSorted :
      (client : CoreClient n)
      → IsSorted (λ info. info.index) (get_normal_accounts client)
        × ((p : GenericInfo n.Account → Bool)
            → length (select p (get_normal_accounts client))
              ≡ length (select p client.wallet_db.account_db.info))
  unfolding get_normal_accounts
  get_normal_accounts-IsSorted client = (
    sort_by_key-IsSorted (λ info. info.index) client.wallet_db.account_db.info,
    λ p. n_of-sort_by_key (λ info. info.index) p client.wallet_db.account_db.info,
  )

  pub get_camo_accounts-IsSorted :
      (client : CoreClient n)
      → IsSorted (λ info. info.index) (get_camo_accounts client)
        × ((p : GenericInfo n.CamoAccount → Bool)
            → length (select p (get_camo_accounts client))
              ≡ length (select p client.wallet_db.camo_account_db.info))
  unfolding get_camo_accounts
  get_camo_accounts-IsSorted client = (
    sort_by_key-IsSorted (λ info. info.index) client.wallet_db.camo_account_db.info,
    λ p. n_of-sort_by_key (λ info. info.index) p client.wallet_db.camo_account_db.info,
  )
