-- ===== src/App/Loop.antt =====
-- The loop of the terminal program in cliwallet/src/main.rs as a step relation. Between commands the
-- work cache is brought up to date and the wallet is saved now and then; after a command it is always
-- saved. A failure to save, or in the update between commands, ends the program, and no step leads on.
use camonanowallet.Base.{
  ℕ, ◌≡◌, ◌≢◌, Bool, true, false, ◌||◌, List, [], ◌∷◌, Result, ok, panic, ◌>>=◌,
}
use camonanowallet.Nano.{Nano}
use camonanowallet.Rpc.World.{World}
use camonanowallet.App.Error.{Externals, CliError}
use camonanowallet.App.Storage.{Cipher}
use camonanowallet.App.Wallets.{CliClient, Files, save_config, save_wallet_overriding}
use camonanowallet.App.Session.{Session, Outside, Moments, update_work_cache}
use camonanowallet.App.Commands.Execute.{CommandType, execute}

-- what happens in the loop
pub data Event : Type 0 where
  worked : Event
  saved : Event
  commanded : Event

-- the events that write the wallet to the disk
abbrev pub writes : Event → Bool
writes Event.worked = false
writes Event.saved = true
writes Event.commanded = true

module _ (n : Nano) (x : Externals) (c : Cipher n x) (files : Files n x) where
  -- `CliClient::save_to_disk`, with the random bytes of the encryption
  unfoldable pub save_client :
      (ℕ → Bool) → c.Bytes × c.Bytes → files.Disk → CliClient n → Result (CliError n x) files.Disk
  unfolding save_config save_wallet_overriding
  save_client is_alphanumeric (salt, nonce) disk cli = do
    disk' ← save_config n x c files disk cli.client.core.config
    save_wallet_overriding n x c files is_alphanumeric salt nonce disk' cli.client cli.name cli.key

  pub record Running : Type 0 where
    pub cli : CliClient n
    pub world : World n
    pub disk : files.Disk
    -- the flag of `work_cache_loop`
    pub should_save : Bool

  abbrev pub session_of : Running → Session n
  session_of r = record { client = r.cli.client; world = r.world }

  abbrev pub with_session : Running → Session n → Running
  with_session r s = record r { cli = record r.cli { client = s.client }; world = s.world }

  module _ (is_alphanumeric : ℕ → Bool) (random : ℕ → c.Bytes × c.Bytes) where
    pub data Next : Running → Event → Running → Type 0 where
      -- an update of the work cache, which may ask for a save
      works :
          (r : Running) (outside : Outside n) (asks : Bool)
          → (update_work_cache n x outside (session_of r)).1 ≡ ok asks
          → Next r Event.worked
              (record (with_session r (update_work_cache n x outside (session_of r)).0) {
                should_save = r.should_save || asks;
              })
      -- the save that was asked for
      saves :
          (r : Running) (k : ℕ) (disk' : files.Disk)
          → r.should_save ≡ true
          → save_client is_alphanumeric (random k) r.disk r.cli ≡ ok disk'
          → Next r Event.saved (record r { disk = disk'; should_save = false })
      -- a command, with an error or without, and the save after it
      commands :
          (r : Running) (outside : Moments n) (command : CommandType n x) (k : ℕ)
          (disk' : files.Disk)
          → (execute n x outside command (session_of r)).1 ≢ panic
          → save_client is_alphanumeric
              (random k)
              r.disk
              (with_session r (execute n x outside command (session_of r)).0).cli
            ≡ ok disk'
          → Next r Event.commanded
              (record (with_session r (execute n x outside command (session_of r)).0) {
                disk = disk';
                should_save = false;
              })

    -- the states after the events of a list, the last event first
    pub data Reaches : Running → List Event → Running → Type 0 where
      start : (r : Running) → Reaches r [] r
      step :
          (r r' r'' : Running) (events : List Event) (event : Event)
          → Reaches r events r'
          → Next r' event r''
          → Reaches r (event ∷ events) r''
