-- ===== src/App/BalanceLines.antt =====
-- What `balance` of client/src/balance.rs prints: which accounts, and which amounts.
use camonanowallet.Base.{
  ℕ, ◌+◌, ◌≡◌, ◌∙◌, ap, refl, inl, inr, arith, Bool, Bool-cases, leb, List, [], ◌∷◌, ◌++◌, map,
}
use camonanowallet.Base.Sort.{insert_by_key, sort_by_key}
use camonanowallet.Nano.{Nano}
use camonanowallet.Wallet.Db.{GenericInfo}
use camonanowallet.Client.State.{CoreClient, get_derived_accounts_from_master}
use camonanowallet.Client.RemovalCounts.{count}
use camonanowallet.App.Commands.Balance.{Line, balance}

module _ (n : Nano) where
  -- the accounts that the lines name, in order
  abbrev pub named : List (Line n) → List n.Account
  named [] = []
  named (Line.total_line balance receivable ∷ lines) = named lines
  named (Line.account_line account index balance receivable ∷ lines) = account ∷ named lines
  named (Line.camo_account_line account index ∷ lines) = named lines
  named (Line.main_line account balance receivable ∷ lines) = account ∷ named lines
  named (Line.derived_line account balance receivable ∷ lines) = account ∷ named lines

  -- the notification account and the derived accounts of each camo account
  abbrev pub camo_accounts : CoreClient n → List (GenericInfo n.CamoAccount) → List n.Account
  camo_accounts client [] = []
  camo_accounts client (info ∷ rest) =
      n.signer_account info.account ∷ get_derived_accounts_from_master n client info.account
      ++ camo_accounts client rest

  -- the accounts of the wallet, those of a camo account with it
  abbrev pub wallet_accounts : CoreClient n → List n.Account
  wallet_accounts client =
      map (λ info. info.account) client.wallet_db.account_db.info
      ++ camo_accounts client client.wallet_db.camo_account_db.info

  pub named-append : (xs ys : List (Line n)) → named (xs ++ ys) ≡ named xs ++ named ys
  named-append [] ys = refl
  named-append (Line.total_line b r ∷ xs) ys = named-append xs ys
  named-append (Line.account_line a i b r ∷ xs) ys = ap (λ rest. a ∷ rest) (named-append xs ys)
  named-append (Line.camo_account_line c i ∷ xs) ys = named-append xs ys
  named-append (Line.main_line a b r ∷ xs) ys = ap (λ rest. a ∷ rest) (named-append xs ys)
  named-append (Line.derived_line a b r ∷ xs) ys = ap (λ rest. a ∷ rest) (named-append xs ys)

  module _ (p : n.Account → Bool) where
    pub count-append : (xs ys : List n.Account) → count p (xs ++ ys) ≡ count p xs + count p ys
    count-append [] ys = omega arith
    count-append (x ∷ xs) ys = ground (arith, count-append xs ys)

    pub count-map :
        (infos : List (GenericInfo n.Account))
        → count p (map (λ info. info.account) infos) ≡ count (λ info. p info.account) infos
    count-map [] = refl
    count-map (info ∷ infos) = ground (arith, count-map infos)

    module _ (client : CoreClient n) where
      of_camo : GenericInfo n.CamoAccount → ℕ
      of_camo info =
          count p
            (n.signer_account info.account ∷ get_derived_accounts_from_master n client info.account)

      camo_accounts-cons :
          (info : GenericInfo n.CamoAccount) (rest : List (GenericInfo n.CamoAccount))
          → count p (camo_accounts client (info ∷ rest))
            ≡ of_camo info + count p (camo_accounts client rest)
      unfolding of_camo
      camo_accounts-cons info rest =
          count-append
            (n.signer_account info.account ∷ get_derived_accounts_from_master n client info.account)
            (camo_accounts client rest)

      camo_accounts-insert_by_key :
          (key : GenericInfo n.CamoAccount → ℕ) (x : GenericInfo n.CamoAccount)
          (xs : List (GenericInfo n.CamoAccount))
          → count p (camo_accounts client (insert_by_key key x xs))
            ≡ of_camo x + count p (camo_accounts client xs)
      unfolding insert_by_key
      camo_accounts-insert_by_key key x [] = camo_accounts-cons x []
      camo_accounts-insert_by_key key x (y ∷ ys) = elim (Bool-cases (leb (key x) (key y))) [
        | inl e ↦ rw (insert_by_key, e) (camo_accounts-cons x (y ∷ ys))
        | inr e ↦
            rw (insert_by_key, e)
              (camo_accounts-cons y (insert_by_key key x ys)
                ∙ omega (arith, camo_accounts-insert_by_key key x ys, camo_accounts-cons y ys))
      ]

      pub camo_accounts-sort_by_key :
          (key : GenericInfo n.CamoAccount → ℕ) (xs : List (GenericInfo n.CamoAccount))
          → count p (camo_accounts client (sort_by_key key xs)) ≡ count p (camo_accounts client xs)
      unfolding sort_by_key
      camo_accounts-sort_by_key key [] = refl
      camo_accounts-sort_by_key key (x ∷ xs) =
          camo_accounts-insert_by_key key x (sort_by_key key xs)
          ∙ omega (arith, camo_accounts-sort_by_key key xs, camo_accounts-cons x xs)
