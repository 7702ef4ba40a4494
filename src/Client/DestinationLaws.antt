-- ===== src/Client/DestinationLaws.antt =====
-- What the search for camo payments in blocks finds.
use camonanowallet.Base.{
  ◌≡◌, refl, inl, inr, Option, none, some, List, [], ◌∷◌, ◌++◌, Option-cases, All, find-All, Result,
  ok, err, panic, ◌>>=◌,
}
use camonanowallet.Nano.{Nano, Block}
use camonanowallet.Error.{CoreClientError}
use camonanowallet.Wallet.Db.{GenericInfo}
use camonanowallet.Wallet.Derived.{DerivedAccountInfo}
use camonanowallet.Wallet.Seed.{WalletSeed, derive_key}
use camonanowallet.Wallet.Keys.{WalletDb, is_notification, get_info_from_notification_account}
use camonanowallet.Wallet.Validity.{KeyLaws, IsOwnCamo, IsOwnDerived, IsValid}
use camonanowallet.Wallet.Grow.{DeriveResult, derive_key-DeriveResult}
use camonanowallet.Rpc.Download.{flatten}
use camonanowallet.Client.History.{get_camo_destination, get_camo_destinations_from_blocks}

module _ (n : Nano) (seed : WalletSeed) where
  -- a search in one block, which neither fails nor panics
  abbrev pub DestinationResult : Result (CoreClientError n) (Option (DerivedAccountInfo n)) → Type 0
  DestinationResult (ok none) = Unit
  DestinationResult (ok (some info)) = IsOwnDerived n seed info
  DestinationResult (err e) = ⊥
  DestinationResult panic = ⊥

  derived-DestinationResult :
      (master : GenericInfo n.CamoAccount)
      (r : Result (CoreClientError n) (n.Key × DerivedAccountInfo n))
      → DeriveResult n seed master r
      → DestinationResult (do (_, derived) ← r; ok (some derived))
  derived-DestinationResult master (ok (key, info)) h = h.0
  derived-DestinationResult master (err e) h = h
  derived-DestinationResult master panic h = h

  module _ (db : WalletDb n) (laws : KeyLaws n) (v : IsValid n seed db) where
    pub found-IsOwnCamo :
        (recipient : n.Account) (master : GenericInfo n.CamoAccount)
        → get_info_from_notification_account n db.camo_account_db recipient ≡ some master
        → IsOwnCamo n seed master
    unfolding get_info_from_notification_account
    found-IsOwnCamo recipient master =
        find-All (IsOwnCamo n seed) (is_notification n recipient) db.camo_account_db.info master
          v.camo_accounts

    pub get_camo_destination-DestinationResult :
        (block : Block n) → DestinationResult (get_camo_destination n db seed block)
    unfolding get_camo_destination
    get_camo_destination-DestinationResult block = elim (Option-cases (n.link_as_account block)) [
      | inl e ↦ rw (get_camo_destination, e) tt
      | inr (recipient, e) ↦
          elim (Option-cases (get_info_from_notification_account n db.camo_account_db recipient)) [
            | inl f ↦ rw (get_camo_destination, e, f) tt
            | inr (master, f) ↦
                rw (get_camo_destination, e, f)
                  (derived-DestinationResult master (derive_key n seed master (n.from_v1 block)) (
                    derive_key-DeriveResult n seed master (n.from_v1 block) laws
                      (found-IsOwnCamo recipient master f)))
          ]
    ]

  -- the search in a list of blocks: all accounts that it finds are the seed's own
  abbrev pub DestinationsResult : Result (CoreClientError n) (List (DerivedAccountInfo n)) → Type 0
  DestinationsResult (ok infos) = All (IsOwnDerived n seed) infos
  DestinationsResult (err e) = ⊥
  DestinationsResult panic = ⊥

  cons-DestinationsResult :
      (r : Result (CoreClientError n) (Option (DerivedAccountInfo n)))
      (s : Result (CoreClientError n) (List (DerivedAccountInfo n)))
      → DestinationResult r
      → DestinationsResult s
      → DestinationsResult (do found ← r; rest ← s; ok (flatten (found ∷ []) ++ rest))
  cons-DestinationsResult (ok none) (ok infos) h k = k
  cons-DestinationsResult (ok (some info)) (ok infos) h k = (h, k)
  cons-DestinationsResult (ok o) (err e) h k = k
  cons-DestinationsResult (ok o) panic h k = k
  cons-DestinationsResult (err e) s h k = absurd h
  cons-DestinationsResult panic s h k = absurd h

  -- For a wallet of the seed's own accounts and a key derivation that keeps its laws, the search
  -- for camo payments in any blocks neither fails nor panics, and the seed gives the key of every
  -- account that it finds.
  pub get_camo_destinations-DestinationsResult :
      (db : WalletDb n) (blocks : List (Block n))
      → KeyLaws n
      → IsValid n seed db
      → DestinationsResult (get_camo_destinations_from_blocks n db seed blocks)
  unfolding get_camo_destinations_from_blocks
  get_camo_destinations-DestinationsResult db [] laws v = tt
  get_camo_destinations-DestinationsResult db (block ∷ blocks) laws v =
      cons-DestinationsResult (get_camo_destination n db seed block)
        (get_camo_destinations_from_blocks n db seed blocks)
        (get_camo_destination-DestinationResult db laws v block)
        (get_camo_destinations-DestinationsResult db blocks laws v)

  -- the account `a` is among those that were found
  abbrev pub Finds : n.Account → Result (CoreClientError n) (List (DerivedAccountInfo n)) → Type 0
  Finds a r =
      (before : List (DerivedAccountInfo n)) × (info : DerivedAccountInfo n) × (after : List
        (DerivedAccountInfo n))
      × (r ≡ ok (before ++ info ∷ after))
      × (info.account ≡ a)

  Finds-here :
      (a : n.Account) (info : DerivedAccountInfo n)
      (r : Result (CoreClientError n) (Option (DerivedAccountInfo n)))
      (s : Result (CoreClientError n) (List (DerivedAccountInfo n)))
      → r ≡ ok (some info)
      → info.account ≡ a
      → DestinationsResult s
      → Finds a (do found ← r; rest ← s; ok (flatten (found ∷ []) ++ rest))
  Finds-here a info r (ok rest) e same h = ([], info, rest, rw e refl, same)
  Finds-here a info r (err e') e same h = absurd h
  Finds-here a info r panic e same h = absurd h

  Finds-later :
      (a : n.Account) (r : Result (CoreClientError n) (Option (DerivedAccountInfo n)))
      (s : Result (CoreClientError n) (List (DerivedAccountInfo n)))
      → DestinationResult r
      → Finds a s
      → Finds a (do found ← r; rest ← s; ok (flatten (found ∷ []) ++ rest))
  Finds-later a (ok none) s h (before, info, after, e, same) =
      (before, info, after, rw e refl, same)
  Finds-later a (ok (some first)) s h (before, info, after, e, same) =
      (first ∷ before, info, after, rw e refl, same)
  Finds-later a (err e') s h k = absurd h
  Finds-later a panic s h k = absurd h

  -- a block whose search gives an account is found wherever it stands
  pub get_camo_destinations-Finds :
      (db : WalletDb n) (before : List (Block n)) (block : Block n) (after : List (Block n))
      (info : DerivedAccountInfo n)
      → KeyLaws n
      → IsValid n seed db
      → get_camo_destination n db seed block ≡ ok (some info)
      → Finds info.account (get_camo_destinations_from_blocks n db seed (before ++ block ∷ after))
  unfolding get_camo_destinations_from_blocks
  get_camo_destinations-Finds db [] block after info laws v e =
      Finds-here info.account info (get_camo_destination n db seed block) _ e refl
        (get_camo_destinations-DestinationsResult db after laws v)
  get_camo_destinations-Finds db (b ∷ before) block after info laws v e =
      Finds-later info.account (get_camo_destination n db seed b)
        (get_camo_destinations_from_blocks n db seed (before ++ block ∷ after))
        (get_camo_destination-DestinationResult db laws v b)
        (get_camo_destinations-Finds db before block after info laws v e)
