-- ===== src/Client/BalanceLaws.antt =====
-- Which accounts the client offers for a payment.
use camonanowallet.Base.{
  ℕ, ◌≤◌, ◌≡◌, ◌∙◌, sym, ap, Bool, true, false, not, arith, Option-cases, some, List, [], ◌∷◌, All,
  inl, inr, eqb→eq, find-holds, leb, leb→le, select,
}
use camonanowallet.Base.Sort.{
  IsSorted, sort_by_key-IsSorted, All-sort_by_key, All-select, select-All,
}
use camonanowallet.Nano.{Nano}
use camonanowallet.Frontiers.Info.{FrontierInfo}
use camonanowallet.Frontiers.Db.{FrontiersDb, is_of, account_frontier}
use camonanowallet.Frontiers.Search.{account_frontier-find}
use camonanowallet.Wallet.Keys.{all_nano_accounts}
use camonanowallet.Client.State.{CoreClient, contains, filter_map_frontier, accounts_with_balance}

module _ (n : Nano) where
  account_frontier-account :
      (db : FrontiersDb n) (a : n.Account) (info : FrontierInfo n)
      → account_frontier n db a ≡ some info
      → info.block.account ≡ a
  account_frontier-account db a info e =
      eqb→eq n.account_dec _ _
        (find-holds (is_of n a) db.frontiers info (sym (account_frontier-find n db a) ∙ e))

  -- a frontier that can pay the amount, of an account that is not excluded
  abbrev pub CanPay : FrontiersDb n → ℕ → List n.Account → FrontierInfo n → Type 0
  CanPay db amount exclude info =
      (amount ≤ info.block.balance)
      × (contains n exclude info.block.account ≡ false)
      × (account_frontier n db info.block.account ≡ some info)

  abbrev IsOffered : FrontiersDb n → List n.Account → FrontierInfo n → Type 0
  IsOffered db exclude info =
      (contains n exclude info.block.account ≡ false)
      × (account_frontier n db info.block.account ≡ some info)

  not-true : (b : Bool) → not b ≡ true → b ≡ false
  not-true b h = ground arith

  filter_map_frontier-IsOffered :
      (db : FrontiersDb n) (exclude accounts : List n.Account)
      → All (λ a. not (contains n exclude a) ≡ true) accounts
      → All (IsOffered db exclude) (filter_map_frontier n db accounts)
  unfolding filter_map_frontier
  filter_map_frontier-IsOffered db exclude [] all = tt
  filter_map_frontier-IsOffered db exclude (a ∷ rest) all =
      elim (Option-cases (account_frontier n db a)) [
        | inl e ↦ rw (filter_map_frontier, e) (filter_map_frontier-IsOffered db exclude rest all.1)
        | inr (info, e) ↦
            let same = account_frontier-account db a info e in
            rw (filter_map_frontier, e)
              (
                (
                  ap (contains n exclude) same ∙ not-true (contains n exclude a) all.0,
                  ap (account_frontier n db) same ∙ e,
                ),
                filter_map_frontier-IsOffered db exclude rest all.1,
              )
      ]

  All-both :
      (P Q R : FrontierInfo n → Type 0) (xs : List (FrontierInfo n))
      → ((x : FrontierInfo n) → P x → Q x → R x)
      → All P xs
      → All Q xs
      → All R xs
  All-both P Q R [] f p q = tt
  All-both P Q R (x ∷ xs) f p q = (f x p.0 q.0, All-both P Q R xs f p.1 q.1)

  -- The frontiers that `accounts_with_balance` gives are sorted by their balances, from the
  -- smallest; each has at least the amount, is the frontier of its account in the database, and its
  -- account is not an excluded one.
  pub accounts_with_balance-CanPay :
      (client : CoreClient n) (amount : ℕ) (exclude : List n.Account)
      → IsSorted (λ info. info.block.balance) (accounts_with_balance n client amount exclude)
        × All
            (CanPay client.frontiers_db amount exclude)
            (accounts_with_balance n client amount exclude)
  unfolding accounts_with_balance
  accounts_with_balance-CanPay client amount exclude =
      let accounts =
        select (λ a. not (contains n exclude a)) (all_nano_accounts n client.wallet_db) in
      let known = filter_map_frontier n client.frontiers_db accounts in
      let enough = λ (info : FrontierInfo n). leb amount info.block.balance in
      let offered =
        filter_map_frontier-IsOffered client.frontiers_db exclude accounts
          (select-All (λ a. not (contains n exclude a)) (all_nano_accounts n client.wallet_db)) in
      (
        sort_by_key-IsSorted (λ info. info.block.balance) (select enough known),
        All-sort_by_key (λ info. info.block.balance) (CanPay client.frontiers_db amount exclude)
            (select enough known)
            (All-both (IsOffered client.frontiers_db exclude) (λ info. enough info ≡ true)
              (CanPay client.frontiers_db amount exclude) (select enough known)
              (λ info h e. (leb→le _ _ e, h.0, h.1))
              (All-select (λ info. info.block.balance) (IsOffered client.frontiers_db exclude)
                enough known offered)
              (select-All enough known)),
      )
