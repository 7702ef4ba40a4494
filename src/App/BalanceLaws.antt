-- ===== src/App/BalanceLaws.antt =====
-- What `balance` of client/src/balance.rs prints for a client.
use camonanowallet.Base.{
  ℕ, ◌≡◌, ◌∙◌, ap, refl, arith, All, Bool, Option, List, [], ◌∷◌, ◌++◌, map, eqb,
}
use camonanowallet.Base.Sort.{sort_by_key, n_of-sort_by_key}
use camonanowallet.Nano.{Nano, Receivable}
use camonanowallet.Frontiers.Query.{account_balance}
use camonanowallet.Wallet.Db.{GenericInfo}
use camonanowallet.Client.State.{wallet_balance, get_derived_accounts_from_master}
use camonanowallet.Client.RemovalCounts.{count}
use camonanowallet.Amount.Text.{Text, fmt}
use camonanowallet.App.State.{Client}
use camonanowallet.App.Commands.Balance.{
  Line, balance_or_zero, get_display_balance, get_normal_accounts, get_camo_accounts,
  sum_receivables, filter_receivable, shown, print_account, print_derived, print_camo_accounts,
  balance,
}
use camonanowallet.App.BalanceLines.{
  named, camo_accounts, wallet_accounts, named-append, count-append, count-map,
  camo_accounts-sort_by_key,
}
use camonanowallet.App.ReceivableLaws.{occurrences, sum_accounts, sum_receivables-sum_accounts}

module _ (n : Nano) (one_nano : ℕ) where
  abbrev pub amounts : Client n → List (Receivable n)
  amounts client = map (λ entry. entry.1) client.receivable

  module _ (client : Client n) where
    -- the amounts of a line are those of the account that it names
    abbrev pub AreOf : n.Account → Text → Option Text → Type 0
    AreOf account balance receivable =
        (balance
          ≡ fmt one_nano
              (balance_or_zero n one_nano (account_balance n client.core.frontiers_db account)))
        × (receivable ≡ shown n one_nano (filter_receivable n one_nano (amounts client) account))

    abbrev pub IsRight : Line n → Type 0
    IsRight (Line.total_line balance receivable) = ⊥
    IsRight (Line.account_line account index balance receivable) = AreOf account balance receivable
    IsRight (Line.camo_account_line account index) = Unit
    IsRight (Line.main_line account balance receivable) = AreOf account balance receivable
    IsRight (Line.derived_line account balance receivable) = AreOf account balance receivable

    -- The lines after the total have each account of the wallet as often as the wallet has it.
    pub record Printed (lines : List (Line n)) : Type 0 where
      pub rest : List (Line n)
      pub total :
          lines
          ≡ Line.total_line
              (fmt one_nano (wallet_balance n client.core))
              (shown n one_nano (sum_receivables n one_nano (amounts client)))
            ∷ rest
      pub right : All IsRight rest
      pub accounts :
          (p : n.Account → Bool) → count p (named n rest) ≡ count p (wallet_accounts n client.core)

    All-append :
        {A : Type 0} (P : A → Type 0) (xs ys : List A) → All P xs → All P ys → All P (xs ++ ys)
    All-append P [] ys h k = k
    All-append P (x ∷ xs) ys h k = (h.0, All-append P xs ys h.1 k)

    All-map :
        {A B : Type 0} (P : B → Type 0) (f : A → B) (xs : List A)
        → ((x : A) → P (f x))
        → All P (map f xs)
    All-map P f [] h = tt
    All-map P f (x ∷ xs) h = (h x, All-map P f xs h)

    accounts-IsRight :
        (infos : List (GenericInfo n.Account))
        → All IsRight (map (print_account n one_nano client.core (amounts client)) infos)
    unfolding get_display_balance
    accounts-IsRight infos = All-map IsRight _ infos (λ info. (refl, refl))

    camo_accounts-IsRight :
        (infos : List (GenericInfo n.CamoAccount))
        → All IsRight (print_camo_accounts n one_nano client.core (amounts client) infos)
    unfolding print_camo_accounts get_display_balance
    camo_accounts-IsRight [] = tt
    camo_accounts-IsRight (info ∷ rest) = (
      tt,
      (
        (refl, refl),
        All-append IsRight
            (map (print_derived n one_nano client.core (amounts client))
              (get_derived_accounts_from_master n client.core info.account))
            _ (All-map IsRight _ _ (λ a. (refl, refl))) (camo_accounts-IsRight rest),
      ),
    )

    named-print_account :
        (infos : List (GenericInfo n.Account))
        → named n (map (print_account n one_nano client.core (amounts client)) infos)
          ≡ map (λ info. info.account) infos
    named-print_account [] = refl
    named-print_account (info ∷ infos) =
        ap (λ rest. info.account ∷ rest) (named-print_account infos)

    named-print_derived :
        (accounts : List n.Account)
        → named n (map (print_derived n one_nano client.core (amounts client)) accounts) ≡ accounts
    named-print_derived [] = refl
    named-print_derived (a ∷ accounts) = ap (λ rest. a ∷ rest) (named-print_derived accounts)

    named-print_camo_accounts :
        (infos : List (GenericInfo n.CamoAccount))
        → named n (print_camo_accounts n one_nano client.core (amounts client) infos)
          ≡ camo_accounts n client.core infos
    unfolding print_camo_accounts
    named-print_camo_accounts [] = refl
    named-print_camo_accounts (info ∷ rest) =
        let derived = get_derived_accounts_from_master n client.core info.account in
        ap (λ accounts. n.signer_account info.account ∷ accounts)
          (named-append n (map (print_derived n one_nano client.core (amounts client)) derived)
              (print_camo_accounts n one_nano client.core (amounts client) rest)
            ∙ ap
                (λ accounts.
                  accounts
                  ++ named n (print_camo_accounts n one_nano client.core (amounts client) rest))
                (named-print_derived derived)
            ∙ ap (λ accounts. derived ++ accounts) (named-print_camo_accounts rest))

    abbrev lines : List (Line n)
    lines =
        map (print_account n one_nano client.core (amounts client))
          (get_normal_accounts n one_nano client.core)
        ++ print_camo_accounts n one_nano client.core (amounts client)
            (get_camo_accounts n one_nano client.core)

    named-lines :
        (p : n.Account → Bool) → count p (named n lines) ≡ count p (wallet_accounts n client.core)
    unfolding get_normal_accounts get_camo_accounts
    named-lines p =
        let infos = client.core.wallet_db.account_db.info in
        let camo = client.core.wallet_db.camo_account_db.info in
        let sorted = sort_by_key (λ (i : GenericInfo n.Account). i.index) infos in
        let camo_sorted = sort_by_key (λ (i : GenericInfo n.CamoAccount). i.index) camo in
        ap (count p) (
          named-append n (map (print_account n one_nano client.core (amounts client)) sorted)
            (print_camo_accounts n one_nano client.core (amounts client) camo_sorted)
          ∙ ap
              (λ accounts.
                accounts
                ++ named n
                    (print_camo_accounts n one_nano client.core (amounts client) camo_sorted))
              (named-print_account sorted)
          ∙ ap (λ accounts. map (λ info. info.account) sorted ++ accounts)
              (named-print_camo_accounts camo_sorted))
        ∙ omega (
          arith,
          count-append n p (map (λ info. info.account) sorted)
              (camo_accounts n client.core camo_sorted),
          count-append n p (map (λ info. info.account) infos) (camo_accounts n client.core camo),
          count-map n p sorted,
          count-map n p infos,
          n_of-sort_by_key (λ info. info.index) (λ info. p info.account) infos,
          camo_accounts-sort_by_key n p client.core (λ info. info.index) camo,
        )

    pub balance-Printed : Printed (balance n one_nano client)
    unfolding balance
    balance-Printed = record {
      rest = lines;
      total = refl;
      right =
          All-append IsRight
            (map (print_account n one_nano client.core (amounts client))
              (get_normal_accounts n one_nano client.core))
            _ (accounts-IsRight _) (camo_accounts-IsRight _);
      accounts = named-lines;
    }

    once-named :
        (accounts : List n.Account) (rs : List (Receivable n))
        → ((p : n.Account → Bool) → count p accounts ≡ count p (wallet_accounts n client.core))
        → All (λ r. occurrences n one_nano r.recipient (wallet_accounts n client.core) ≡ 1) rs
        → All (λ r. occurrences n one_nano r.recipient accounts ≡ 1) rs
    once-named accounts [] same once = tt
    once-named accounts (r ∷ rs) same once =
        (same (λ a. eqb n.account_dec r.recipient a) ∙ once.0, once-named accounts rs same once.1)

    -- the amounts that wait for the accounts of the printed lines, added up
    abbrev pub sum_printed : List (Line n) → ℕ
    sum_printed printed = sum_accounts n one_nano (amounts client) (named n printed)

    -- the first line shows the balance of the wallet and the sum for the accounts of the other lines
    abbrev pub TotalShown : List (Line n) → Type 0
    TotalShown lines =
        (rest : List (Line n)) × (lines
          ≡ Line.total_line (fmt one_nano (wallet_balance n client.core))
              (shown n one_nano (sum_printed rest))
            ∷ rest)

    -- If the recipient of each receivable is exactly once among the accounts of the wallet, those
    -- of the camo accounts with it, then the total that `balance` prints as receivable is the sum
    -- of what is receivable for the accounts that the other lines name, sums being those of a
    -- `u128` that wrap.
    pub balance_total :
        All
          (λ r. occurrences n one_nano r.recipient (wallet_accounts n client.core) ≡ 1)
          (amounts client)
        → TotalShown (balance n one_nano client)
    balance_total once =
        let printed = balance-Printed in
        (
          printed.rest,
          printed.total
              ∙ ap
                  (λ sum.
                    Line.total_line (fmt one_nano (wallet_balance n client.core))
                      (shown n one_nano sum)
                    ∷ printed.rest)
                  (sum_receivables-sum_accounts n one_nano (named n printed.rest) (amounts client)
                    (once-named (named n printed.rest) (amounts client) printed.accounts once)),
        )
