-- ===== src/Rpc/UsableLaws.antt =====
-- Which nodes a command may use, and in which order.
use camonanowallet.Base.{
  ℕ, ◌≡◌, ◌∙◌, refl, arith, Bool, true, false, not, ◌||◌, ◌&&◌, List, [], ◌∷◌, All, length, select,
  if◌then◌else◌,
}
use camonanowallet.Base.Sort.{
  sort_by_key, IsSorted, sort_by_key-IsSorted, n_of-sort_by_key, select-IsSorted, select-All,
  All-select, n_of-select,
}
use camonanowallet.Nano.{Nano}
use camonanowallet.Config.{CoreClientConfig}
use camonanowallet.Rpc.Types.{Rpc}
use camonanowallet.Rpc.Manager.{Command, supports, is_banned, ban_key, get_usable_rpcs}

module _ (n : Nano) where
  -- a node that a command may use at a time
  abbrev pub is_usable : CoreClientConfig n → ℕ → Command → Rpc n → Bool
  is_usable config now command rpc =
      supports rpc.commands command
      && (config.rpc_use_banned_nodes_as_backup || not (is_banned n rpc now))

  pub record Usable (config : CoreClientConfig n) (now : ℕ) (command : Command)
      (rpcs : List (Rpc n)) : Type 0 where
    pub sorted : IsSorted (ban_key n now) rpcs
    pub usable : All (λ rpc. is_usable config now command rpc ≡ true) rpcs
    pub complete :
        (p : Rpc n → Bool)
        → length (select p rpcs)
          ≡ length (select (λ rpc. is_usable config now command rpc && p rpc) config.rpcs)

  -- a shuffle changes the order alone: as many elements pass any test afterwards
  abbrev pub Shuffles : (List (Rpc n) → List (Rpc n)) → Type 0
  Shuffles shuffle =
      (p : Rpc n → Bool) (rpcs : List (Rpc n))
      → length (select p (shuffle rpcs)) ≡ length (select p rpcs)

  All-weaken :
      (p q : Rpc n → Bool) (rpcs : List (Rpc n))
      → ((r : Rpc n) → p r ≡ true → q r ≡ true)
      → All (λ r. p r ≡ true) rpcs
      → All (λ r. q r ≡ true) rpcs
  All-weaken p q [] f all = tt
  All-weaken p q (r ∷ rs) f all = (f r all.0, All-weaken p q rs f all.1)

  n_of-same :
      (p q : Rpc n → Bool) (rpcs : List (Rpc n))
      → ((r : Rpc n) → p r ≡ q r)
      → length (select p rpcs) ≡ length (select q rpcs)
  n_of-same p q [] f = refl
  n_of-same p q (r ∷ rs) f = ground (arith, f r, n_of-same p q rs f)

  All-and :
      (p q : Rpc n → Bool) (rpcs : List (Rpc n))
      → All (λ r. p r ≡ true) rpcs
      → All (λ r. q r ≡ true) rpcs
      → All (λ r. p r && q r ≡ true) rpcs
  All-and p q [] a b = tt
  All-and p q (r ∷ rs) a b = (rw (a.0, b.0) refl, All-and p q rs a.1 b.1)

  -- If the shuffle keeps the number of elements that pass any test, the usable nodes for a command
  -- are sorted by the ends of their bans, with the nodes that are not banned first; all of them
  -- support the command, and are not banned unless banned nodes serve as a backup; and as many of
  -- them pass any test as there are such nodes in the configuration.
  pub get_usable_rpcs-Usable :
      (shuffle : List (Rpc n) → List (Rpc n)) (now : ℕ) (config : CoreClientConfig n)
      (command : Command)
      → Shuffles shuffle
      → Usable config now command (get_usable_rpcs n shuffle now config command)
  unfolding get_usable_rpcs
  get_usable_rpcs-Usable shuffle now config command shuffles =
      go config.rpc_use_banned_nodes_as_backup refl
    where
      key : Rpc n → ℕ
      key = ban_key n now

      can : Rpc n → Bool
      can r = supports r.commands command

      free : Rpc n → Bool
      free r = not (is_banned n r now)

      usable : Rpc n → Bool
      usable = is_usable config now command

      sorted_rpcs : List (Rpc n)
      sorted_rpcs = sort_by_key key (shuffle config.rpcs)

      order : IsSorted key sorted_rpcs
      order = sort_by_key-IsSorted key (shuffle config.rpcs)

      count : (p : Rpc n → Bool) → length (select p sorted_rpcs) ≡ length (select p config.rpcs)
      count p = n_of-sort_by_key key p (shuffle config.rpcs) ∙ shuffles p config.rpcs

      go :
          (b : Bool)
          → config.rpc_use_banned_nodes_as_backup ≡ b
          → Usable config now command
              (if b then select can sorted_rpcs else select free (select can sorted_rpcs))
      go true backup = record {
        sorted = select-IsSorted key can sorted_rpcs order;
        usable =
            All-weaken can usable (select can sorted_rpcs) (λ r h. rw (h, backup) refl)
              (select-All can sorted_rpcs);
        complete = λ p.
            n_of-select p can sorted_rpcs
            ∙ count (λ r. can r && p r)
            ∙ n_of-same (λ r. can r && p r) (λ r. usable r && p r) config.rpcs
                (λ r. rw backup (ground arith));
      }
      go false strict = record {
        sorted =
            select-IsSorted key free (select can sorted_rpcs)
              (select-IsSorted key can sorted_rpcs order);
        usable =
            All-weaken (λ r. can r && free r) usable (select free (select can sorted_rpcs))
              (λ r h. rw strict h)
              (All-and can free (select free (select can sorted_rpcs))
                (All-select key (λ r. can r ≡ true) free (select can sorted_rpcs)
                  (select-All can sorted_rpcs))
                (select-All free (select can sorted_rpcs)));
        complete = λ p.
            n_of-select p free (select can sorted_rpcs)
            ∙ n_of-select (λ r. free r && p r) can sorted_rpcs
            ∙ count (λ r. can r && (free r && p r))
            ∙ n_of-same (λ r. can r && (free r && p r)) (λ r. usable r && p r) config.rpcs
                (λ r. rw strict (ground arith));
      }
