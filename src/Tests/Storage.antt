-- ===== src/Tests/Storage.antt =====
-- Runs of the storage with a toy cipher, which puts the key before the text, and toy files. It stores
-- fresh wallets only.
use camonanowallet.Base.{
  ℕ, zero, suc, ◌≡◌, refl, ap, arith, true, false, some, List, [], ◌∷◌, ◌==◌, length, find, Result,
  ok, err, panic, ℕ_discrete, if◌then◌else◌,
}
use camonanowallet.Nano.{Bytes32, Receivable}
use camonanowallet.Config.{CoreClientConfig}
use camonanowallet.Amount.Text.{Text}
use camonanowallet.Frontiers.Info.{FrontierInfo}
use camonanowallet.Wallet.Db.{GenericInfo}
use camonanowallet.Wallet.Derived.{DerivedAccountInfo}
use camonanowallet.App.Error.{ClientError, CliError}
use camonanowallet.App.State.{CamoTxSummary, new}
use camonanowallet.App.Storage.{WalletData, EncryptedWallet, Cipher, as_wallet_data}
use camonanowallet.App.StorageLaws.{CipherLaws}
use camonanowallet.App.Wallets.{CliClient, Files, save_wallet_override, delete_wallet}
use camonanowallet.App.WalletsLaws.{Unique, DeleteResult, delete_wallet-DeleteResult}
use camonanowallet.App.SaveLaws.{SaveResult, save_wallet_override-SaveResult}
use camonanowallet.App.Start.{Entry, InitType, create, execute_init, client_of_main}
use camonanowallet.App.DiskLaws.{FilesLaws, Ready, Loads}
use camonanowallet.App.StartLaws.{load_wallet-create}
use camonanowallet.App.Loop.{Event, Running, Next, Reaches, save_client}
use camonanowallet.App.LoopLaws.{Kept, LastLoads, Reaches-Kept}
use camonanowallet.App.Commands.Execute.{CommandType, execute}
use camonanowallet.Tests.Toy.{toy, toy_laws, config, world}
use camonanowallet.Tests.Commands.{plain, moments}

-- the data of a fresh wallet
abbrev fresh : ℕ → WalletData toy
fresh s = as_wallet_data toy (new toy (record { bytes = s }) config)

abbrev refuse_some : {A : Type 0} → List A → Result ℕ (List ℕ) → Result ℕ (List ℕ)
refuse_some [] r = r
refuse_some (a ∷ as_) r = err 0

abbrev refuse_suc : ℕ → Result ℕ (List ℕ) → Result ℕ (List ℕ)
refuse_suc zero r = r
refuse_suc (suc k) r = err 0

abbrev write : WalletData toy → Result ℕ (List ℕ)
write w = refuse_some w.wallet_db.account_db.info (
    refuse_some w.wallet_db.camo_account_db.info (
      refuse_some w.wallet_db.derived_account_db.info (
        refuse_some w.frontiers_db.frontiers (
          refuse_suc w.frontiers_db.frontiers_balance (
            refuse_some w.cached_receivable
              (refuse_some w.camo_history (ok (w.seed.bytes ∷ []))))))))

abbrev read : List ℕ → Result ℕ (WalletData toy)
read (s ∷ []) = ok (fresh s)
read other = err 0

abbrev unlock : ℕ → List ℕ → Result ℕ (List ℕ)
unlock key [] = err 0
unlock key (k ∷ text) = if k == key then ok text else err 0

abbrev cipher : Cipher toy plain
cipher = record {
  Bytes = List ℕ;
  encode = λ bytes. bytes;
  decode = λ text. ok text;
  serialize = write;
  deserialize = read;
  CipherKey = ℕ;
  hash_password = λ key salt. ok key;
  is_nonce = λ bytes. length bytes == 1;
  encrypt = λ key nonce text. ok (key ∷ text);
  decrypt = λ key nonce text. unlock key text;
}

read_fresh : (w : WalletData toy) (bytes : List ℕ) → write w ≡ ok bytes → read bytes ≡ ok w
unfolding as_wallet_data
read_fresh w bytes =
    go w.wallet_db.account_db.info w.wallet_db.camo_account_db.info
      w.wallet_db.derived_account_db.info w.frontiers_db.frontiers w.frontiers_db.frontiers_balance
      w.cached_receivable w.camo_history
  where
    refused : {A : Type 0} {b : List ℕ} → ◌≡◌ {A = Result ℕ (List ℕ)} (err 0) (ok b) → A
    refused h = absurd (clash h)
      where
        clash : {b : List ℕ} → ◌≡◌ {A = Result ℕ (List ℕ)} (err 0) (ok b) → ⊥
        clash h = cc

    go :
        (accounts : List (GenericInfo ℕ)) (camo : List (GenericInfo ℕ))
        (derived : List (DerivedAccountInfo toy)) (frontiers : List (FrontierInfo toy))
        (balance : ℕ) (receivable : List (Bytes32 × Receivable toy))
        (history : List (CamoTxSummary toy))
        → refuse_some accounts (
            refuse_some camo (
              refuse_some derived (
                refuse_some frontiers (
                  refuse_suc balance
                    (refuse_some receivable (refuse_some history (ok (w.seed.bytes ∷ []))))))))
          ≡ ok bytes
        → read bytes
          ≡ ok (record {
            seed = w.seed;
            wallet_db = record {
              account_db = record { info = accounts };
              camo_account_db = record { info = camo };
              derived_account_db = record { info = derived };
            };
            frontiers_db = record { frontiers = frontiers; frontiers_balance = balance };
            cached_receivable = receivable;
            camo_history = history;
          })
    go [] [] [] [] zero [] [] h =
        let same : w.seed.bytes ∷ [] ≡ bytes = ground arith in rw (← same) refl
    go [] [] [] [] zero [] (a ∷ as_) h = refused h
    go [] [] [] [] zero (a ∷ as_) history h = refused h
    go [] [] [] [] (suc k) receivable history h = refused h
    go [] [] [] (a ∷ as_) balance receivable history h = refused h
    go [] [] (a ∷ as_) frontiers balance receivable history h = refused h
    go [] (a ∷ as_) derived frontiers balance receivable history h = refused h
    go (a ∷ as_) camo derived frontiers balance receivable history h = refused h

cipher_laws : CipherLaws toy plain cipher
cipher_laws = record {
  hex = λ bytes. refl;
  bincode = read_fresh;
  aes = λ key nonce text encrypted h.
      let same : key ∷ text ≡ encrypted = ground arith in rw (← same) (ground arith);
}

-- a disk is the wallets and the configuration
abbrev files : Files toy plain
files = record {
  Disk = List EncryptedWallet × CoreClientConfig toy;
  load_wallets = λ disk. ok (disk, disk.0);
  store_wallets = λ disk wallets. ok (wallets, disk.1);
  load_config = λ disk. ok (disk, disk.1);
  store_config = λ disk settings. ok (disk.0, settings);
  config_location = ok [];
}

file_laws : FilesLaws toy plain files
file_laws = record {
  stored = λ disk disk' wallets h. rw (← ok_value h) refl;
  config_kept = kept;
  config_stored = λ disk disk' settings h. rw (← ok_value h) refl;
  wallets_kept = kept_wallets;
}
  where
    ok_value : {A : Type 0} {a b : A} → ◌≡◌ {A = Result ℕ A} (ok a) (ok b) → a ≡ b
    ok_value h = cc

    Disk : Type 0
    Disk = List EncryptedWallet × CoreClientConfig toy

    kept :
        (disk disk' : Disk) (wallets : List EncryptedWallet) (settings : CoreClientConfig toy)
        → ◌≡◌ {A = Result ℕ (Disk × CoreClientConfig toy)} (ok (disk, disk.1)) (ok (disk, settings))
        → ◌≡◌ {A = Result ℕ Disk} (ok (wallets, disk.1)) (ok disk')
        → ◌≡◌ {A = Result ℕ (Disk × CoreClientConfig toy)}
            (ok (disk', disk'.1))
            (ok (disk', settings))
    kept disk disk' wallets settings loaded h =
        let same : disk.1 ≡ settings =
          ap (λ (p : Disk × CoreClientConfig toy). p.1) (ok_value loaded) in
        rw (← ok_value h) (ap (λ q. ok ((wallets, disk.1), q)) same)

    kept_wallets :
        (disk disk' : Disk) (wallets : List EncryptedWallet) (settings : CoreClientConfig toy)
        → ◌≡◌ {A = Result ℕ (Disk × List EncryptedWallet)} (ok (disk, disk.0)) (ok (disk, wallets))
        → ◌≡◌ {A = Result ℕ Disk} (ok (disk.0, settings)) (ok disk')
        → ◌≡◌ {A = Result ℕ (Disk × List EncryptedWallet)}
            (ok (disk', disk'.0))
            (ok (disk', wallets))
    kept_wallets disk disk' wallets settings loaded h =
        let same : disk.0 ≡ wallets =
          ap (λ (p : Disk × List EncryptedWallet). p.1) (ok_value loaded) in
        rw (← ok_value h) (ap (λ q. ok ((disk.0, settings), q)) same)

abbrev entered : Entry toy plain cipher
entered = record {
  is_alphanumeric = λ c. true;
  salt = 1 ∷ [];
  nonce = 2 ∷ [];
  random_seed = 300;
  password = ok 9;
  confirmed_password = ok 9;
  default_config = config;
}

abbrev empty_disk : List EncryptedWallet × CoreClientConfig toy
empty_disk = ([], config)

empty-Ready : Ready toy plain cipher files empty_disk config []
empty-Ready = record { has_config = refl; has_wallets = refl; unique = tt }

abbrev alice : Text
alice = b'a' ∷ b'l' ∷ []

abbrev stored_alice : EncryptedWallet
stored_alice = record { id = alice; salt = 1 ∷ []; nonce = 2 ∷ []; data_text = 9 ∷ 300 ∷ [] }

abbrev made_alice : CliClient toy
made_alice = record { name = alice; key = 9; client = new toy (record { bytes = 300 }) config }

create_run :
    create toy plain cipher files entered empty_disk alice 9 300
    ≡ ok ((stored_alice ∷ [], config), some made_alice)
unfolding create ℕ_discrete
create_run = refl

load_wallet-create_example :
    (made_alice.name ≡ alice)
    × (made_alice.key ≡ 9)
    × Loads toy plain cipher files made_alice (stored_alice ∷ [], config)
load_wallet-create_example =
    load_wallet-create toy plain cipher files cipher_laws file_laws entered refl empty_disk
      (stored_alice ∷ [], config) config [] alice 9 300 made_alice empty-Ready create_run

one-Unique : Unique (stored_alice ∷ [])
unfolding find
one-Unique = (refl, tt)

-- a save under the same name and with the same key replaces the wallet
save_wallet_override-SaveResult_example :
    SaveResult toy plain cipher cipher_laws entered.is_alphanumeric
      (1 ∷ [])
      (2 ∷ [])
      refl
      (stored_alice ∷ [])
      made_alice.client
      alice
      9
      (save_wallet_override toy plain cipher entered.is_alphanumeric
        (1 ∷ [])
        (2 ∷ [])
        (stored_alice ∷ [])
        made_alice.client
        alice
        9)
save_wallet_override-SaveResult_example =
    save_wallet_override-SaveResult toy plain cipher cipher_laws entered.is_alphanumeric (1 ∷ [])
      (2 ∷ []) refl (stored_alice ∷ []) made_alice.client alice 9 one-Unique

delete_wallet-DeleteResult_example :
    DeleteResult toy plain cipher
      (stored_alice ∷ [])
      alice
      9
      (delete_wallet toy plain cipher (stored_alice ∷ []) alice 9)
delete_wallet-DeleteResult_example =
    delete_wallet-DeleteResult toy plain cipher (stored_alice ∷ []) alice 9 one-Unique

-- another key deletes nothing
delete_refused :
    delete_wallet toy plain cipher (stored_alice ∷ []) alice 8
    ≡ err (CliError.client_error (ClientError.invalid_password 0))
unfolding delete_wallet ℕ_discrete
delete_refused = refl

-- deleting a wallet that does not exist says that it exists already
delete_missing :
    execute_init toy plain cipher files entered empty_disk (InitType.delete_of alice)
    ≡ err CliError.wallet_already_exists
unfolding execute_init ℕ_discrete
delete_missing = refl

-- a deletion that succeeds has no client, and the program ends in a panic
delete_ends :
    client_of_main toy plain cipher files entered (
      execute_init toy plain cipher files entered
        (stored_alice ∷ [], config)
        (InitType.delete_of alice))
    ≡ panic
unfolding execute_init ℕ_discrete
delete_ends = refl

-- a running program, and the state after the command `quit`
abbrev running : Running toy plain cipher files
running = record { cli = made_alice; world = world; disk = empty_disk; should_save = false }

abbrev after_quit : Running toy plain cipher files
after_quit = record running { disk = (stored_alice ∷ [], config) }

running-Kept : Kept toy plain cipher files (record { bytes = 300 }) running
running-Kept = record {
  sound = record {
    core = record {
      same = refl;
      wallet = record { accounts = tt; camo_accounts = tt; derived_accounts = tt };
      frontiers = record { distinct = tt; balanced = refl; bounded = omega arith };
    };
    keyed = record { distinct = tt; keys = tt };
  };
  ready = (config, [], empty-Ready);
}

quits :
    Reaches toy plain cipher files
      (λ c. true)
      (λ k. (1 ∷ [], 2 ∷ []))
      running
      (Event.commanded ∷ [])
      after_quit
unfolding execute save_client ℕ_discrete
quits =
    Reaches.step running running after_quit [] Event.commanded (Reaches.start running) (
      Next.commands running moments CommandType.quit_of 0 (stored_alice ∷ [], config) (λ h. cc)
        refl)

Reaches-Kept_example :
    Kept toy plain cipher files (record { bytes = 300 }) after_quit
    × LastLoads toy plain cipher files (record { bytes = 300 }) (Event.commanded ∷ []) after_quit
Reaches-Kept_example =
    Reaches-Kept toy plain cipher files (record { bytes = 300 }) toy_laws cipher_laws file_laws
      (λ c. true) (λ k. (1 ∷ [], 2 ∷ [])) (λ k. refl) running (Event.commanded ∷ []) after_quit
      running-Kept quits
