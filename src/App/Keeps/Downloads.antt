-- ===== src/App/Keeps/Downloads.antt =====
-- The commands `refresh` and `rescan` keep the session sound: the accounts that the search for camo
-- payments finds are the seed's own.
use camonanowallet.Base.{
  inl, inr, Bool-cases, Bool, true, false, not, Option, none, some, List, [], ◌∷◌, map, select, All,
  Result, ok, err, panic, IfOk, IfOk-value, IfOk-bind, IfOk-then, if◌then◌else◌,
}
use camonanowallet.Nano.{Nano, Block, Bytes32, Receivable}
use camonanowallet.Error.{CoreClientError}
use camonanowallet.Frontiers.Info.{FrontierInfo}
use camonanowallet.Frontiers.Db.{account_frontier}
use camonanowallet.Wallet.Seed.{WalletSeed}
use camonanowallet.Wallet.Derived.{DerivedAccountInfo}
use camonanowallet.Wallet.Keys.{all_nano_accounts}
use camonanowallet.Wallet.Validity.{KeyLaws, IsOwnDerived}
use camonanowallet.Rpc.Types.{RpcSuccess}
use camonanowallet.Rpc.Reads.{Reads}
use camonanowallet.Rpc.Download.{download_frontiers}
use camonanowallet.Client.State.{CoreClient}
use camonanowallet.Client.History.{
  RescanData, account_has_value, filter_worthless, get_camo_destinations_from_blocks,
  download_notification_blocks, get_notification_blocks, get_accounts_receivable,
  download_historical_notifications, get_camo_receivable, rescan_notifications_partial,
  download_receivable,
}
use camonanowallet.Client.DestinationLaws.{
  DestinationsResult, get_camo_destinations-DestinationsResult,
}
use camonanowallet.App.Error.{Externals}
use camonanowallet.App.State.{
  Client, remove_receivables, insert_receivable, with_derived, handle_rescan, store_rescan,
}
use camonanowallet.App.Session.{
  change, Outside, Step, ◌>>=◌, ◌>>◌, pure, lift, handle_rpc_success, store_frontiers,
}
use camonanowallet.App.Sound.{
  IsSoundCore, IsSound, Keeps, Keeps-pure, Keeps-modify, Keeps-modify_core, Keeps-bind, Keeps-get,
  Keeps-lift, Keeps-change, Keeps-rpc, store_frontiers-Keeps, set_new_frontiers-IsSoundCore,
}
use camonanowallet.App.Commands.Downloads.{
  RescanArgs, head_or, refresh_frontiers, store_receivable, refresh_accounts, refresh, rescan_from,
  rescan_head, rescan,
}
use camonanowallet.App.Keeps.Accounts.{
  remove_receivables-IsSound, insert_receivable-IsSound, with_derived-IsSoundCore,
}

module _ (n : Nano) (seed : WalletSeed) (x : Externals) (laws : KeyLaws n) where
  abbrev Own : List (DerivedAccountInfo n) → Type 0
  Own infos = All (IsOwnDerived n seed) infos

  destinations-Own :
      (core : CoreClient n) (blocks : List (Block n))
      → IsSoundCore n seed core
      → IfOk Own (get_camo_destinations_from_blocks n core.wallet_db core.seed blocks)
  destinations-Own core blocks h = rw h.same (
      go (get_camo_destinations_from_blocks n core.wallet_db seed blocks)
        (get_camo_destinations-DestinationsResult n seed core.wallet_db blocks laws h.wallet))
    where
      go :
          (r : Result (CoreClientError n) (List (DerivedAccountInfo n)))
          → DestinationsResult n seed r
          → IfOk Own r
      go (ok infos) d = d
      go (err e) d = tt
      go panic d = tt

  select-Own :
      (p : DerivedAccountInfo n → Bool) (infos : List (DerivedAccountInfo n))
      → Own infos
      → Own (select p infos)
  select-Own p [] own = own
  select-Own p (info ∷ infos) own = elim (Bool-cases (p info)) [
    | inl e ↦ rw e (own.0, select-Own p infos own.1)
    | inr e ↦ rw e (select-Own p infos own.1)
  ]

  filter_worthless-Own :
      (infos : List (DerivedAccountInfo n)) (frontiers : List (FrontierInfo n))
      (receivable : List (Receivable n))
      → Own infos
      → Own (filter_worthless n infos frontiers receivable)
  unfolding filter_worthless
  filter_worthless-Own infos frontiers receivable own =
      select-Own (λ info. account_has_value n receivable frontiers info.account) infos own

  module _ (reads : Reads n) where
    get_camo_receivable-Own :
        (core : CoreClient n) (initial : List (Receivable n))
        → IsSoundCore n seed core
        → IfOk
            (λ (s : RpcSuccess n (List (Receivable n) × List (DerivedAccountInfo n))). Own s.item.1)
            (get_camo_receivable n reads core initial)
    unfolding get_camo_receivable
    get_camo_receivable-Own core [] h = tt
    get_camo_receivable-Own core (r ∷ rs) h =
        IfOk-then _ (get_notification_blocks n reads core (r ∷ rs)) _ (λ blocks.
          IfOk-bind Own _ (get_camo_destinations_from_blocks n core.wallet_db core.seed blocks.item)
            _ (destinations-Own core blocks.item h)
            (λ infos own.
              IfOk-then _
                (get_accounts_receivable n reads core
                  (map (λ (info : DerivedAccountInfo n). info.account) infos))
                _ (λ receivable. own)))

    download_receivable-Own :
        (core : CoreClient n) (accounts : List n.Account)
        → IsSoundCore n seed core
        → IfOk
            (λ (s : RpcSuccess n (List (Receivable n) × List (DerivedAccountInfo n))). Own s.item.1)
            (download_receivable n reads core accounts)
    unfolding download_receivable
    download_receivable-Own core accounts h =
        IfOk-then _ (get_accounts_receivable n reads core accounts) _ (λ receivable.
          IfOk-bind _ _ (get_camo_receivable n reads core receivable.item) _
            (get_camo_receivable-Own core receivable.item h) (λ camo own. own))

    historical-Own :
        (core : CoreClient n) (account : n.CamoAccount) (head : Option Bytes32)
        → IsSoundCore n seed core
        → IfOk
            (λ (s : RpcSuccess n (List (DerivedAccountInfo n) × Option Bytes32)). Own s.item.0)
            (download_historical_notifications n reads core account head none)
    unfolding download_historical_notifications
    historical-Own core account head h =
        IfOk-then _
          (reads.account_history (n.signer_account account)
            core.config.rpc_account_history_batch_size head none)
          _
          (λ history.
            IfOk-then _
              (download_notification_blocks n reads (map (λ (b : Block n). b.link) history.item)) _
              (λ blocks.
                IfOk-bind Own _
                  (get_camo_destinations_from_blocks n core.wallet_db core.seed blocks.item) _
                  (destinations-Own core blocks.item h) (λ infos own. own)))

    rescan-Own :
        (core : CoreClient n) (account : n.CamoAccount) (head : Option Bytes32) (filter : Bool)
        → IsSoundCore n seed core
        → IfOk
            (λ (s : RpcSuccess n (RescanData n)). Own s.item.derived_info)
            (rescan_notifications_partial n reads core account head none filter)
    unfolding rescan_notifications_partial
    rescan-Own core account head filter h =
        IfOk-bind _ _ (download_historical_notifications n reads core account head none) _
          (historical-Own core account head h)
          (λ found own.
            IfOk-then _
              (download_frontiers n reads core.frontiers_db
                (map (λ (info : DerivedAccountInfo n). info.account) found.item.0))
              _
              (λ frontiers.
                IfOk-then _
                  (get_accounts_receivable n reads core
                    (map (λ (info : DerivedAccountInfo n). info.account) found.item.0))
                  _
                  (λ receivable. filtered filter found.item.0 frontiers.item receivable.item own)))
      where
        filtered :
            (filter : Bool) (infos : List (DerivedAccountInfo n))
            (frontiers : List (FrontierInfo n)) (receivable : List (Receivable n))
            → Own infos
            → Own (if filter then filter_worthless n infos frontiers receivable else infos)
        filtered true infos frontiers receivable own =
            filter_worthless-Own infos frontiers receivable own
        filtered false infos frontiers receivable own = own

  module _ (outside : Outside n) where
    refresh_frontiers-Keeps :
        (accounts : List n.Account) → Keeps n seed x (refresh_frontiers n x outside accounts)
    unfolding refresh_frontiers
    refresh_frontiers-Keeps accounts =
        Keeps-get n seed x
          (λ client.
            lift (download_frontiers n outside.reads client.core.frontiers_db accounts) >>= store)
          (λ client sound.
            Keeps-lift n seed x
              (download_frontiers n outside.reads client.core.frontiers_db accounts) store
              (λ frontiers _.
                Keeps-bind n seed x _ _ (store_frontiers-Keeps n seed x outside.clock frontiers)
                  (λ _. Keeps-pure n seed x true)))
      where
        store : RpcSuccess n (List (FrontierInfo n)) → Step n x Bool
        store frontiers = store_frontiers outside.clock frontiers >> pure true

    store_receivable-Keeps :
        (accounts : List n.Account) (receivables : List (Receivable n))
        (infos : List (DerivedAccountInfo n))
        → Own infos
        → Keeps n seed x (store_receivable n x outside accounts (receivables, infos))
    unfolding store_receivable
    store_receivable-Keeps accounts receivables infos own =
        Keeps-bind n seed x _ _
          (Keeps-modify_core n seed x (λ core. with_derived n core infos)
            (λ core h. with_derived-IsSoundCore n seed x core infos h own))
          (λ _.
            Keeps-bind n seed x _ _
              (Keeps-modify n seed x
                (λ client. insert_receivable n (remove_receivables n client accounts) receivables)
                (λ client h.
                  insert_receivable-IsSound n seed x (remove_receivables n client accounts)
                    receivables (remove_receivables-IsSound n seed x client accounts h)))
              (λ _. refresh_frontiers-Keeps accounts))

    refresh_accounts-Keeps :
        (core : CoreClient n) (accounts : List n.Account)
        → IsSoundCore n seed core
        → Keeps n seed x (refresh_accounts n x outside core accounts)
    unfolding refresh_accounts
    refresh_accounts-Keeps core accounts h =
        Keeps-lift n seed x (download_receivable n outside.reads core accounts)
          (λ downloaded.
            handle_rpc_success outside.clock downloaded >>= store_receivable n x outside accounts)
          (λ downloaded e.
            Keeps-rpc n seed x outside.clock downloaded (store_receivable n x outside accounts) (
              store_receivable-Keeps accounts downloaded.item.0 downloaded.item.1 (
                IfOk-value
                  (λ (s : RpcSuccess n (List (Receivable n) × List (DerivedAccountInfo n))).
                    Own s.item.1)
                  _ downloaded (download_receivable-Own outside.reads core accounts h) e)))

    pub refresh-Keeps : Keeps n seed x (refresh n x outside)
    unfolding refresh
    refresh-Keeps =
        Keeps-get n seed x
          (λ client.
            refresh_accounts n x outside client.core (all_nano_accounts n client.core.wallet_db))
          (λ client sound.
            refresh_accounts-Keeps client.core (all_nano_accounts n client.core.wallet_db)
              sound.core)

    store_rescan-IsSound :
        (client : Client n) (scanned : RescanData n) (r : Result (CoreClientError n) (Unit {0}))
        → Own scanned.derived_info
        → IsSound n seed client
        → IsSound n seed (store_rescan n client scanned r).0
    store_rescan-IsSound client scanned (ok _) own h =
        insert_receivable-IsSound n seed x _ scanned.receivable (record {
          core = with_derived-IsSoundCore n seed x _ scanned.derived_info h.core own;
          keyed = h.keyed;
        })
    store_rescan-IsSound client scanned (err e) own h = h
    store_rescan-IsSound client scanned panic own h = h

    handle_rescan-IsSound :
        (client : Client n) (scanned : RescanData n)
        → Own scanned.derived_info
        → IsSound n seed client
        → IsSound n seed (handle_rescan n client scanned).0
    unfolding handle_rescan
    handle_rescan-IsSound client scanned own h = store_rescan-IsSound _ scanned _ own (record {
      core = set_new_frontiers-IsSoundCore n seed x client.core scanned.new_frontiers h.core;
      keyed = h.keyed;
    })

    rescan_from-Keeps :
        (args : RescanArgs n) (core : CoreClient n) (head : Bytes32)
        → IsSoundCore n seed core
        → Keeps n seed x (rescan_from n x outside args core head)
    unfolding rescan_from
    rescan_from-Keeps args core head h =
        Keeps-lift n seed x (outside.reads.block_info head) (λ _. lift scanned >>= store)
          (λ _ _. Keeps-lift n seed x scanned store (λ success e.
            Keeps-bind n seed x _ _
              (Keeps-change n seed x (λ client. handle_rescan n client success.item)
                (λ client sound.
                  handle_rescan-IsSound client success.item
                    (IfOk-value (λ (s : RpcSuccess n (RescanData n)). Own s.item.derived_info)
                      scanned success
                      (rescan-Own outside.reads core args.account (some head) (not args.no_filter)
                        h)
                      e)
                    sound))
              (λ _. Keeps-pure n seed x true)))
      where
        scanned : Result (CoreClientError n) (RpcSuccess n (RescanData n))
        scanned =
            rescan_notifications_partial n outside.reads core args.account (some head) none
              (not args.no_filter)

        store : RpcSuccess n (RescanData n) → Step n x Bool
        store success = change (λ client. handle_rescan n client success.item) >> pure true

    rescan_head-Keeps :
        (args : RescanArgs n) (core : CoreClient n) (head : Option Bytes32)
        → IsSoundCore n seed core
        → Keeps n seed x (rescan_head n x outside args core head)
    rescan_head-Keeps args core none h = Keeps-pure n seed x true
    rescan_head-Keeps args core (some head) h = rescan_from-Keeps args core head h

    pub rescan-Keeps : (args : RescanArgs n) → Keeps n seed x (rescan n x outside args)
    unfolding rescan
    rescan-Keeps args =
        Keeps-get n seed x
          (λ client. rescan_head n x outside args client.core (
            head_or n x outside args.head
              (account_frontier n client.core.frontiers_db (n.signer_account args.account))))
          (λ client sound. rescan_head-Keeps args client.core _ sound.core)
