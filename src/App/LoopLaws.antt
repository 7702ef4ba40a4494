-- ===== src/App/LoopLaws.antt =====
-- What holds in every state that the terminal's loop reaches.
use camonanowallet.Base.{ℕ, ◌≡◌, Bool, true, false, List, [], ◌∷◌, ok, IfOk-value}
use camonanowallet.Nano.{Nano}
use camonanowallet.Config.{CoreClientConfig}
use camonanowallet.Wallet.Seed.{WalletSeed}
use camonanowallet.Wallet.Validity.{KeyLaws}
use camonanowallet.App.Error.{Externals}
use camonanowallet.App.Storage.{EncryptedWallet, Cipher}
use camonanowallet.App.StorageLaws.{CipherLaws}
use camonanowallet.App.Wallets.{CliClient, Files}
use camonanowallet.App.Sound.{IsSound}
use camonanowallet.App.Commands.Execute.{execute}
use camonanowallet.App.Keeps.Work.{update_work_cache-Keeps}
use camonanowallet.App.Keeps.Commands.{execute-Keeps}
use camonanowallet.App.DiskLaws.{FilesLaws, Ready, Loads, save_client-Loads}
use camonanowallet.App.Loop.{
  Event, writes, save_client, Running, session_of, with_session, Next, Reaches,
}

module _ (n : Nano) (x : Externals) (c : Cipher n x) (files : Files n x) (seed : WalletSeed) where
  -- the client is sound, and the disk has both files with unique names
  pub record Kept (r : Running n x c files) : Type 0 where
    pub sound : IsSound n seed r.cli.client
    pub ready :
        (config : CoreClientConfig n) × (wallets : List EncryptedWallet) × Ready n x c files r.disk
          config wallets

  -- after an event that writes, the disk gives the client
  abbrev pub LastLoads : List Event → Running n x c files → Type 0
  LastLoads [] r = Unit
  LastLoads (event ∷ events) r = writes event ≡ true → Loads n x c files r.cli r.disk

  module _ (key_laws : KeyLaws n) (laws : CipherLaws n x c) (file_laws : FilesLaws n x files)
      (is_alphanumeric : ℕ → Bool) (random : ℕ → c.Bytes × c.Bytes)
      (good : (k : ℕ) → c.is_nonce (random k).1 ≡ true) where
    written :
        (r : Running n x c files) (cli : CliClient n) (k : ℕ) (disk' : files.Disk)
        → Kept r
        → save_client n x c files is_alphanumeric (random k) r.disk cli ≡ ok disk'
        → Loads n x c files cli disk'
    written r cli k disk' kept =
        let (config, wallets, ready) = kept.ready in
        IfOk-value (Loads n x c files cli) _ disk' (
          save_client-Loads n x c files laws file_laws is_alphanumeric (random k).0 (random k).1
            (good k) r.disk config wallets cli ready)

    Next-Kept :
        (r : Running n x c files) (event : Event) (r' : Running n x c files)
        → Kept r
        → Next n x c files is_alphanumeric random r event r'
        → Kept r' × (writes event ≡ true → Loads n x c files r'.cli r'.disk)
    Next-Kept r event r' kept (Next.works _ outside asks h) = (
      record {
        sound = (update_work_cache-Keeps n seed x outside).at (session_of n x c files r) kept.sound;
        ready = kept.ready;
      },
      λ w. absurd (never w),
    )
      where
        never : ◌≡◌ {A = Bool} false true → ⊥
        never w = cc
    Next-Kept r event r' kept (Next.saves _ k disk' asked h) =
        let (loads, (wallets, ready)) = written r r.cli k disk' kept h in
        (
          record { sound = kept.sound; ready = (r.cli.client.core.config, wallets, ready) },
          λ w. (loads, (wallets, ready)),
        )
    Next-Kept r event r' kept (Next.commands _ outside command k disk' ends h) =
        let s' = (execute n x outside command (session_of n x c files r)).0 in
        let (loads, (wallets, ready)) =
          written r (with_session n x c files r s').cli k disk' kept h in
        (
          record {
            sound =
                (execute-Keeps n seed x outside command key_laws).at (session_of n x c files r)
                  kept.sound;
            ready = (s'.client.core.config, wallets, ready);
          },
          λ w. (loads, (wallets, ready)),
        )

    -- In every state that the terminal's loop reaches from one with a sound client and a disk with
    -- both files and unique names, whatever commands, updates and saves there were, the client is
    -- sound and the disk has both files and unique names; and right after a command or a save,
    -- loading the wallet's name with its key gives the running client with its configuration. This
    -- is for key derivation, cipher and files that keep their laws and nonces of the right length.
    pub Reaches-Kept :
        (r : Running n x c files) (events : List Event) (r' : Running n x c files)
        → Kept r
        → Reaches n x c files is_alphanumeric random r events r'
        → Kept r' × LastLoads events r'
    Reaches-Kept r events r' kept (Reaches.start _) = (kept, tt)
    Reaches-Kept r events r'' kept (Reaches.step _ r' _ events' event before next) =
        Next-Kept r' event r'' (Reaches-Kept r events' r' kept before).0 next
