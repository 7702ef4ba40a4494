-- ===== src/Tests/Frontiers.antt =====
-- Runs of the frontier database, and its properties on concrete data.
use camonanowallet.Base.{
  ℕ, ◌≡◌, inl, refl, arith, All, none, some, [], ◌∷◌, ok, err, find, eqb, ℕ_discrete,
}
use camonanowallet.Base.Word.{u128_mod}
use camonanowallet.Error.{CoreClientError}
use camonanowallet.Frontiers.Info.{FrontierInfo, cache_work, work_hash}
use camonanowallet.Frontiers.Db.{is_of, insert_one, check_new, insert, remove}
use camonanowallet.Frontiers.Query.{add_work}
use camonanowallet.Frontiers.Invariant.{IsValid, Returns, insert_one-Returns, added}
use camonanowallet.Frontiers.Insert.{Inserts, insert-Inserts, check_new_overflow}
use camonanowallet.Frontiers.Remove.{RemoveResult, remove-Removes}
use camonanowallet.Frontiers.Work.{
  WorkIsValid, CacheResult, cache_work-WorkIsValid, add_work-CacheResult,
}
use camonanowallet.Tests.Toy.{toy, config, entry, two_entries}

pub two_entries-IsValid : IsValid toy two_entries
unfolding find ℕ_discrete
two_entries-IsValid = record {
  distinct = (refl, (refl, tt));
  balanced = refl;
  bounded = omega arith;
}

insert_update : insert toy two_entries (entry 101 1 ∷ entry 103 7 ∷ []) ≡ (
  record { frontiers = entry 101 1 ∷ entry 102 12 ∷ entry 103 7 ∷ []; frontiers_balance = 20 },
  ok tt,
)
unfolding insert ℕ_discrete
insert_update = refl

remove_first :
    remove toy two_entries 101
    ≡ ok (record { frontiers = entry 102 12 ∷ []; frontiers_balance = 12 }, entry 101 30)
unfolding remove ℕ_discrete
remove_first = refl

remove_unknown : remove toy two_entries 109 ≡ err CoreClientError.account_not_found
unfolding remove ℕ_discrete
remove_unknown = refl

-- the hash of the entry of 102 is 1114, whose work is 4
add_work_valid :
    add_work toy config 1114 4 two_entries
    ≡ ok (record two_entries {
      frontiers = entry 101 30 ∷ record (entry 102 12) { cached_work = some 4 } ∷ [];
    })
unfolding add_work ℕ_discrete
add_work_valid = refl

add_work_invalid : add_work toy config 1114 5 two_entries ≡ ok two_entries
unfolding add_work ℕ_discrete
add_work_invalid = refl

insert_one-Returns_example :
    Returns toy two_entries (entry 103 5) (insert_one toy two_entries (entry 103 5))
insert_one-Returns_example = insert_one-Returns toy two_entries (entry 103 5) two_entries-IsValid

insert-Inserts_example :
    Inserts toy two_entries
      (entry 101 1 ∷ entry 103 7 ∷ [])
      (insert toy two_entries (entry 101 1 ∷ entry 103 7 ∷ []))
insert-Inserts_example =
    insert-Inserts toy two_entries (entry 101 1 ∷ entry 103 7 ∷ []) two_entries-IsValid

too_much : FrontierInfo toy
too_much = entry 103 u128_mod

too_much_refused :
    check_new toy two_entries (too_much ∷ []) ≡ err CoreClientError.frontier_balance_overflow
unfolding check_new too_much ℕ_discrete
too_much_refused = refl

abbrev half : ℕ
half = 170141183460469231731687303715884105728

new_three : find (is_of toy 103) two_entries.frontiers ≡ none
unfolding find ℕ_discrete
new_three = refl

new_four : find (is_of toy 104) two_entries.frontiers ≡ none
unfolding find ℕ_discrete
new_four = refl

check_new_overflow_example :
    (check_new toy two_entries (entry 103 half ∷ entry 104 half ∷ []) ≡ ok tt)
    × (insert toy two_entries (entry 103 half ∷ entry 104 half ∷ [])
        ≡ (added toy two_entries (entry 103 half), err CoreClientError.frontier_balance_overflow))
check_new_overflow_example =
    check_new_overflow toy two_entries (entry 103 half) (entry 104 half) new_three new_four
      (omega arith) (omega arith) (omega arith) (omega arith)

remove-Removes_example : RemoveResult toy two_entries 101 (remove toy two_entries 101)
remove-Removes_example = remove-Removes toy two_entries 101 two_entries-IsValid

no_work : All (WorkIsValid toy config) two_entries.frontiers
no_work = (inl refl, (inl refl, tt))

cache_work-WorkIsValid_example :
    WorkIsValid toy config (cache_work toy config 4 (entry 102 12))
    × ((cache_work toy config 4 (entry 102 12)).block ≡ (entry 102 12).block)
cache_work-WorkIsValid_example = cache_work-WorkIsValid toy config 4 (entry 102 12)

add_work-CacheResult_example :
    CacheResult toy config
      (λ f. eqb ℕ_discrete (work_hash toy f) 1114)
      4
      two_entries
      (add_work toy config 1114 4 two_entries)
add_work-CacheResult_example =
    add_work-CacheResult toy config two_entries 1114 4 two_entries-IsValid no_work
