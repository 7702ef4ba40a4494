-- ===== src/Wallet/Db.antt =====
-- `GenericInfo` and `GenericInfoDb`: tracked accounts of one kind, in the order of insertion. The
-- account type is a parameter, with its decided equality.
use camonanowallet.Base.{
  ℕ, Bool, true, false, Option, none, some, List, [], ◌∷◌, ◌++◌, map, eqb, leb, length, get_elem?,
  erase_idx, find, position, ℕ_discrete, Result, ok, err, ◌>>=◌, expect, if◌then◌else◌,
}
use camonanowallet.Nano.{Nano}
use camonanowallet.Error.{CoreClientError}
use camonanowallet.Config.{CoreClientConfig}

pub record GenericInfo (T : Type 0) : Type 0 where
  pub index : ℕ
  pub account : T

pub record GenericInfoDb (T : Type 0) : Type 0 where
  pub info : List (GenericInfo T)

abbrev pub is_some {ℓ} : {A : Type ℓ} → Option A → Bool
is_some none = false
is_some (some a) = true

abbrev pub new : (T : Type 0) → GenericInfoDb T
new T = record { info = [] }

module _ {T : Type 0} (dec : Discrete T) where
  -- the forms of the macro `search_db!`
  abbrev pub is_account : T → GenericInfo T → Bool
  is_account account item = eqb dec item.account account

  unfoldable pub all_accounts : GenericInfoDb T → List T
  all_accounts db = map (λ info. info.account) db.info

  unfoldable pub get_info : GenericInfoDb T → T → Option (GenericInfo T)
  unfolding find
  get_info db account = find (is_account account) db.info

  unfoldable pub get_info_from_index : GenericInfoDb T → ℕ → Option (GenericInfo T)
  unfolding find
  get_info_from_index db index = find (λ item. eqb ℕ_discrete item.index index) db.info

  unfoldable pub contains : GenericInfoDb T → T → Bool
  unfolding get_info
  contains db account = is_some (get_info db account)

  unfoldable pub contains_index : GenericInfoDb T → ℕ → Bool
  unfolding get_info_from_index
  contains_index db index = is_some (get_info_from_index db index)

  -- the result tells whether the account was there
  unfoldable pub force_insert : GenericInfoDb T → GenericInfo T → GenericInfoDb T × Bool
  unfolding contains
  force_insert db info =
      if contains db info.account
      then (db, true)
      else (record { info = db.info ++ info ∷ [] }, false)

  unfoldable pub insert :
      (n : Nano)
      → CoreClientConfig n
      → GenericInfoDb T
      → GenericInfo T
      → Result (CoreClientError n) (GenericInfoDb T × Bool)
  unfolding force_insert
  insert n config db info =
      if leb config.db_number_of_accounts_limit (length db.info)
      then err CoreClientError.db_account_limit_reached
      else ok (force_insert db info)

  unfoldable pub remove :
      (n : Nano)
      → GenericInfoDb T
      → T
      → Result (CoreClientError n) (GenericInfoDb T × GenericInfo T)
  unfolding position
  remove n db account = elim (position (is_account account) db.info) [
    | none ↦ err CoreClientError.account_not_found
    | some i ↦ do
      info ← expect (get_elem? db.info i)
      ok (record { info = erase_idx db.info i }, info)
  ]
