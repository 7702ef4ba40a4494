-- ===== src/Wallet/Validity.antt =====
-- The keys that a wallet finds: what nanopyrs promises of its key derivation, the invariant that
-- every tracked account belongs to the seed, and what `find_key` and `sign_block` then return.
use camonanowallet.Base.{
  ℕ, ◌≡◌, ◌∙◌, ap, refl, inl, inr, Bool, true, false, ◌||◌, Option, none, some, List, [], ◌∷◌,
  arith, eqb→eq, Option-cases, All, find, find-All, find-holds, Result, ok, err, panic, ◌>>=◌,
  ok_or,
}
use camonanowallet.Nano.{Nano, Block, Bytes32}
use camonanowallet.Error.{CoreClientError}
use camonanowallet.Wallet.Db.{GenericInfo, GenericInfoDb, is_some}
use camonanowallet.Wallet.Db
use camonanowallet.Wallet.Derived
use camonanowallet.Wallet.Derived.{DerivedAccountInfo, DerivedAccountDb}
use camonanowallet.Wallet.Seed.{WalletSeed}
use camonanowallet.Wallet.Keys.{
  WalletDb, is_notification, get_info_from_notification_account, get_key_from_account,
  get_derived_key_from_account, find_camo_key, get_camo_notification_key, check_key, or_else,
  find_key, contains_account, sign_block,
}

-- What the wallet relies on in nanopyrs.
pub record KeyLaws (n : Nano) : Type 0 where
  -- the signer key of camo keys is the key of the camo account's notification account
  pub signer :
      (k : n.CamoKeys) → n.to_account (n.signer_key k) ≡ n.signer_account (n.to_camo_account k)
  -- the keys know the versions of their account
  pub versions : (k : n.CamoKeys) → n.keys_versions k ≡ n.camo_versions (n.to_camo_account k)
  -- derivation with the versions that the account has gives the same keys
  pub rederive :
      (seed : Bytes32) (i : ℕ) (v : n.CamoVersions) (k : n.CamoKeys)
      → n.camo_from_seed seed i v ≡ some k
      → n.camo_from_seed seed i (n.camo_versions (n.to_camo_account k)) ≡ some k

or_swap : (b c d : Bool) → (b || c) || d ≡ (b || d) || c
or_swap b c d = ground arith

module _ (n : Nano) (seed : WalletSeed) where
  -- the record of an account is one that the seed gives
  abbrev pub IsOwn : GenericInfo n.Account → Type 0
  IsOwn info = n.to_account (n.key_from_seed seed.bytes info.index) ≡ info.account

  abbrev pub IsOwnCamo : GenericInfo n.CamoAccount → Type 0
  IsOwnCamo info =
      (k : n.CamoKeys) × (n.camo_from_seed seed.bytes info.index (n.camo_versions info.account)
        ≡ some k)
      × (n.to_camo_account k ≡ info.account)

  abbrev pub IsOwnDerived : DerivedAccountInfo n → Type 0
  IsOwnDerived info =
      (k : n.CamoKeys) × (n.camo_from_seed seed.bytes info.master_index info.versions ≡ some k)
      × (n.to_account (n.derive_key k info.secret) ≡ info.account)

  pub record IsValid (db : WalletDb n) : Type 0 where
    pub accounts : All IsOwn db.account_db.info
    pub camo_accounts : All IsOwnCamo db.camo_account_db.info
    pub derived_accounts : All IsOwnDerived db.derived_account_db.info

  -- A key was found if the account is known, and it is the key of the account.
  abbrev pub Agrees : n.Account → Option n.Key → Bool → Type 0
  Agrees a none known = known ≡ false
  Agrees a (some k) known = (known ≡ true) × (n.to_account k ≡ a)

  -- the same of a search that might have failed
  abbrev pub FindResult : n.Account → Bool → Result (CoreClientError n) (Option n.Key) → Type 0
  FindResult a known (ok o) = Agrees a o known
  FindResult a known (err e) = ⊥
  FindResult a known panic = ⊥

  normal_key :
      (db : WalletDb n) (a : n.Account)
      → IsValid db
      → Agrees a
          (get_key_from_account n db seed a)
          (is_some (Db.get_info n.account_dec db.account_db a))
  unfolding get_key_from_account Db.get_info
  normal_key db a v =
      elim (Option-cases (find (Db.is_account n.account_dec a) db.account_db.info)) [
        | inl e ↦ rw (e, get_key_from_account) refl
        | inr (x, e) ↦
            let own =
              find-All IsOwn (Db.is_account n.account_dec a) db.account_db.info x v.accounts e in
            let is = eqb→eq n.account_dec _ _ (find-holds (Db.is_account n.account_dec a) _ x e) in
            rw (e, get_key_from_account) (refl, own ∙ is)
      ]

  derived_key :
      (db : WalletDb n) (a : n.Account)
      → IsValid db
      → Agrees a
          (get_derived_key_from_account n db seed a)
          (is_some (Derived.get_info n db.derived_account_db a))
  unfolding get_derived_key_from_account Derived.get_info
  derived_key db a v =
      elim (Option-cases (find (Derived.is_account n a) db.derived_account_db.info)) [
        | inl e ↦ rw (e, get_derived_key_from_account) refl
        | inr (x, e) ↦
            let (k, made, own) =
              find-All IsOwnDerived (Derived.is_account n a) db.derived_account_db.info x
                v.derived_accounts e in
            let is = eqb→eq n.account_dec _ _ (find-holds (Derived.is_account n a) _ x e) in
            rw (e, get_derived_key_from_account, made) (refl, own ∙ is)
      ]

  -- a tracked camo account has keys, which are its own
  camo_key :
      (db : WalletDb n) (x : GenericInfo n.CamoAccount)
      → IsValid db
      → is_some (Db.get_info n.camo_dec db.camo_account_db x.account) ≡ true
      → (k : n.CamoKeys) × (find_camo_key n db seed x.account ≡ ok (some k))
        × (n.to_camo_account k ≡ x.account)
  unfolding find_camo_key Db.get_info
  camo_key db x v known =
      elim (Option-cases (find (Db.is_account n.camo_dec x.account) db.camo_account_db.info)) [
        | inl e ↦ absurd (ground arith)
        | inr (y, e) ↦
            let (k, made, own) =
              find-All IsOwnCamo (Db.is_account n.camo_dec x.account) db.camo_account_db.info y
                v.camo_accounts e in
            let is =
              eqb→eq n.camo_dec _ _ (find-holds (Db.is_account n.camo_dec x.account) _ y e) in
            (k, rw (e, find_camo_key) (rw (← is) (rw made)), own ∙ is)
      ]

  -- what is found in a list is found by its account too
  find-is_account :
      (p : GenericInfo n.CamoAccount → Bool) (xs : List (GenericInfo n.CamoAccount))
      (x : GenericInfo n.CamoAccount)
      → find p xs ≡ some x
      → is_some (find (Db.is_account n.camo_dec x.account) xs) ≡ true
  unfolding find
  find-is_account p [] x h = cc
  find-is_account p (y ∷ ys) x h = ground (arith, find-is_account p ys x)

  notification_key :
      (db : WalletDb n) (a : n.Account)
      → KeyLaws n
      → IsValid db
      → FindResult a
          (is_some (get_info_from_notification_account n db.camo_account_db a))
          (get_camo_notification_key n db seed a)
  unfolding get_camo_notification_key get_info_from_notification_account Db.get_info
  notification_key db a laws v =
      elim (Option-cases (find (is_notification n a) db.camo_account_db.info)) [
        | inl e ↦ rw (e, get_camo_notification_key) refl
        | inr (x, e) ↦
            let (k, found, own) =
              camo_key db x v (find-is_account (is_notification n a) db.camo_account_db.info x e) in
            let is = eqb→eq n.account_dec _ _ (find-holds (is_notification n a) _ x e) in
            rw (e, get_camo_notification_key, found)
              (refl, laws.signer k ∙ ap n.signer_account own ∙ is)
      ]

  or_else-Agrees :
      (a : n.Account) (o p : Option n.Key) (b c : Bool)
      → Agrees a o b
      → Agrees a p c
      → Agrees a (or_else o p) (b || c)
  or_else-Agrees a o p b c h k = ground arith

  check_key-FindResult :
      (a : n.Account) (o : Option n.Key) (known : Bool)
      → Agrees a o known
      → FindResult a known (check_key n a o)
  check_key-FindResult a none known h = h
  check_key-FindResult a (some k) known h = ground arith

  find-step :
      (a : n.Account) (o : Option n.Key) (b c : Bool)
      (m : Result (CoreClientError n) (Option n.Key))
      → Agrees a o b
      → FindResult a c m
      → FindResult a (b || c) (do notification ← m; check_key n a (or_else o notification))
  find-step a o b c (ok p) h k =
      check_key-FindResult a (or_else o p) (b || c) (or_else-Agrees a o p b c h k)
  find-step a o b c (err e) h k = k
  find-step a o b c panic h k = k

  -- For a wallet of the seed's own accounts and a key derivation that keeps its laws, `find_key`
  -- never panics. It gives a key exactly if `contains_account` holds of the account, be it a
  -- normal, a derived or a notification account, and the key is that of the account.
  pub find_key-FindResult :
      (db : WalletDb n) (a : n.Account)
      → KeyLaws n
      → IsValid db
      → FindResult a (contains_account n db a) (find_key n db seed a)
  unfolding find_key contains_account
  find_key-FindResult db a laws v =
      let b = is_some (Db.get_info n.account_dec db.account_db a) in
      let c = is_some (Derived.get_info n db.derived_account_db a) in
      let d = is_some (get_info_from_notification_account n db.camo_account_db a) in
      let normal = get_key_from_account n db seed a in
      let derived = get_derived_key_from_account n db seed a in
      rw (or_swap b d c) (
        find-step a (or_else normal derived) (b || c) d (get_camo_notification_key n db seed a)
          (or_else-Agrees a normal derived b c (normal_key db a v) (derived_key db a v))
          (notification_key db a laws v))

  -- what `sign_block` returns: the block of a known account, changed in its signature alone, which
  -- is made with that account's key; an error for an unknown account
  abbrev pub SignResult : WalletDb n → Block n → Result (CoreClientError n) (Block n) → Type 0
  SignResult db block (ok signed) =
      (k : n.Key) × (n.to_account k ≡ block.account)
      × (signed ≡ record block { signature = n.signature_by block k })
      × (contains_account n db block.account ≡ true)
  SignResult db block (err e) =
      (e ≡ CoreClientError.account_not_found) × (contains_account n db block.account ≡ false)
  SignResult db block panic = ⊥

  sign-step :
      (db : WalletDb n) (block : Block n) (m : Result (CoreClientError n) (Option n.Key))
      → FindResult block.account (contains_account n db block.account) m
      → SignResult db block (do
        found ← m
        key ← ok_or found CoreClientError.account_not_found
        ok (record block { signature = n.signature_by block key }))
  sign-step db block (ok none) h = (refl, h)
  sign-step db block (ok (some k)) h = (k, h.1, refl, h.0)
  sign-step db block (err e) h = absurd h
  sign-step db block panic h = h

  -- For a wallet of the seed's own accounts and a key derivation that keeps its laws, `sign_block`
  -- never panics. The block of an account that the wallet contains is returned with the signature
  -- of that account's key and no other change; for any other account the error is an unknown
  -- account.
  pub sign_block-SignResult :
      (db : WalletDb n) (block : Block n)
      → KeyLaws n
      → IsValid db
      → SignResult db block (sign_block n db seed block)
  unfolding sign_block
  sign_block-SignResult db block laws v =
      sign-step db block (find_key n db seed block.account)
        (find_key-FindResult db block.account laws v)
