-- ===== src/App/Keeps/Removal.antt =====
-- The commands `clear_cache` and `remove` keep the session sound.
use camonanowallet.Base.{
  ◌≡◌, ◌∙◌, refl, inl, inr, Option-cases, Result-cases, true, List, [], ◌∷◌, position, get_elem?,
  set,
}
use camonanowallet.Nano.{Nano}
use camonanowallet.Frontiers.Info.{clear_work}
use camonanowallet.Frontiers.Db.{FrontiersDb, is_of}
use camonanowallet.Frontiers.Db as Stored
use camonanowallet.Frontiers.Query.{all_accounts}
use camonanowallet.Frontiers.Invariant
use camonanowallet.Frontiers.Rewrite.{set_block-IsValid}
use camonanowallet.Wallet.Db
use camonanowallet.Wallet.Db.{GenericInfo, GenericInfoDb}
use camonanowallet.Wallet.Derived
use camonanowallet.Wallet.Seed.{WalletSeed}
use camonanowallet.Client.State.{CoreClient, get_derived_accounts_from_master}
use camonanowallet.Client.Removal
use camonanowallet.Client.Removal.{remove_derived}
use camonanowallet.Client.RemovalLaws.{remove_account-RemovalResult}
use camonanowallet.Client.CamoRemovalLaws.{remove_camo_account-CamoRemovalResult}
use camonanowallet.Rpc.Download.{is_empty}
use camonanowallet.App.Error.{Externals, ClientError}
use camonanowallet.App.State.{
  Client, remove_receivable, remove_receivables, remove_account, remove_camo_account,
}
use camonanowallet.App.Sound.{
  IsSoundCore, IsSound, Keeps, Keeps-pure, Keeps-fail, Keeps-modify_core, Keeps-change, Keeps-if,
  Keeps-bind,
}
use camonanowallet.App.Commands.Accounts.{
  ClearCacheArgs, ParsedAccount, clear_each, with_cleared, clear_cache, remove,
}
use camonanowallet.App.Keeps.Accounts.{
  sound_of, of_sound, remove_receivable-IsSound, remove_receivables-IsSound,
}

module _ (n : Nano) (seed : WalletSeed) (x : Externals) where
  clear_each-IsValid :
      (accounts : List n.Account) (db : FrontiersDb n)
      → Invariant.IsValid n db
      → Invariant.IsValid n (record db { frontiers = clear_each n x accounts db.frontiers })
  unfolding clear_each clear_work
  clear_each-IsValid [] db v = record {
    distinct = v.distinct;
    balanced = v.balanced;
    bounded = v.bounded;
  }
  clear_each-IsValid (a ∷ rest) db v = elim (Option-cases (position (is_of n a) db.frontiers)) [
    | inl e ↦ rw (clear_each, e) (clear_each-IsValid rest db v)
    | inr (i, e) ↦ elim (Option-cases (get_elem? db.frontiers i)) [
      | inl g ↦ rw (clear_each, e, g) (clear_each-IsValid rest db v)
      | inr (info, g) ↦
          rw (clear_each, e, g)
            (clear_each-IsValid rest
              (record db { frontiers = set db.frontiers i (clear_work n info) })
              (set_block-IsValid n db i info (clear_work n info) v g refl))
    ]
  ]

  with_cleared-IsSoundCore :
      (core : CoreClient n) (accounts : List n.Account)
      → IsSoundCore n seed core
      → IsSoundCore n seed (with_cleared n x core accounts)
  with_cleared-IsSoundCore core accounts h = record {
    same = h.same;
    wallet = h.wallet;
    frontiers = clear_each-IsValid accounts core.frontiers_db h.frontiers;
  }

  pub clear_cache-Keeps : (args : ClearCacheArgs n) → Keeps n seed x (clear_cache n x args)
  unfolding clear_cache
  clear_cache-Keeps args =
      Keeps-if n seed x (is_empty args.accounts) _ _
        (Keeps-if n seed x args.all _ _
          (Keeps-bind n seed x _ _
            (Keeps-modify_core n seed x _
              (λ core h. with_cleared-IsSoundCore core (all_accounts n core.frontiers_db) h))
            (λ _. Keeps-pure n seed x true))
          (Keeps-fail n seed x ClientError.invalid_arguments))
        (Keeps-bind n seed x _ _
          (Keeps-modify_core n seed x _ (λ core h. with_cleared-IsSoundCore core args.accounts h))
          (λ _. Keeps-pure n seed x true))

  -- the removal of accounts does not change the seed
  remove_derived-seed :
      (accounts : List n.Account) (core : CoreClient n)
      → (remove_derived n core accounts).seed ≡ core.seed
  unfolding remove_derived
  remove_derived-seed [] core = refl
  remove_derived-seed (a ∷ rest) core = remove_derived-seed rest (record core {
    wallet_db = record core.wallet_db {
      derived_account_db =
          Removal.after core.wallet_db.derived_account_db
            (Derived.remove n core.wallet_db.derived_account_db a);
    };
    frontiers_db = Removal.after core.frontiers_db (Stored.remove n core.frontiers_db a);
  })

  remove_camo-seed :
      (core : CoreClient n) (account : n.CamoAccount)
      → (Removal.remove_camo_account n core account).0.seed ≡ core.seed
  unfolding Removal.remove_camo_account
  remove_camo-seed core account =
      let core' = remove_derived n core (get_derived_accounts_from_master n core account) in
      let same = remove_derived-seed (get_derived_accounts_from_master n core account) core in
      elim (Result-cases (Db.remove n.camo_dec n core'.wallet_db.camo_account_db account)) [
        | inl (out, e) ↦ rw (Removal.remove_camo_account, e) same
        | inr (inl (e', e)) ↦ rw (Removal.remove_camo_account, e) same
        | inr (inr e) ↦ rw (Removal.remove_camo_account, e) same
      ]

  remove_account-IsSound :
      (client : Client n) (a : n.Account)
      → IsSound n seed client
      → IsSound n seed (remove_account n client a).0
  unfolding remove_account remove_receivable Removal.remove_account
  remove_account-IsSound client a h = record {
    core =
        of_sound n seed x (Removal.remove_account n client.core a).0 h.core.same
          (remove_account-RemovalResult n client.core a (sound_of n seed x client.core h.core)).0;
    keyed = (remove_receivable-IsSound n seed x client a h).keyed;
  }

  -- the client without the receivables of a camo account
  abbrev without_receivables : Client n → n.CamoAccount → Client n
  without_receivables client account =
      remove_receivable n
        (remove_receivables n client (get_derived_accounts_from_master n client.core account))
        (n.signer_account account)

  remove_camo_account-IsSound :
      (client : Client n) (account : n.CamoAccount)
      → IsSound n seed client
      → IsSound n seed (remove_camo_account n client account).0
  unfolding remove_camo_account
  remove_camo_account-IsSound client account h =
      let sound = remove_receivable-IsSound n seed x _ (n.signer_account account) (
        remove_receivables-IsSound n seed x client
          (get_derived_accounts_from_master n client.core account) h) in
      let core = (without_receivables client account).core in
      record {
        core =
            of_sound n seed x (Removal.remove_camo_account n core account).0
              (remove_camo-seed core account ∙ sound.core.same)
              (remove_camo_account-CamoRemovalResult n core account
                (sound_of n seed x core sound.core)).0;
        keyed = sound.keyed;
      }

  pub remove-Keeps : (account : ParsedAccount n) → Keeps n seed x (remove n x account)
  unfolding remove
  remove-Keeps (ParsedAccount.nano a) =
      Keeps-bind n seed x _ _
        (Keeps-change n seed x (λ client. remove_account n client a)
          (λ client h. remove_account-IsSound client a h))
        (λ _. Keeps-pure n seed x true)
  remove-Keeps (ParsedAccount.camo a) =
      Keeps-bind n seed x _ _
        (Keeps-change n seed x (λ client. remove_camo_account n client a)
          (λ client h. remove_camo_account-IsSound client a h))
        (λ _. Keeps-pure n seed x true)
