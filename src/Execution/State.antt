-- ===== src/Execution/State.antt =====
-- crates/eth2077-execution/src/state.rs: the in-memory state. A `HashMap` is an association list.
pub mod Storage
use eth.Prelude.{ℕ, Bool, true, false, Option, none, some, List, [], ◌∷◌, map}
use eth.Prelude.Maps
use eth.Prelude.Maps.{nat_eq}

pub record AccountInfo : Type 0 where
  pub balance : ℕ
  pub nonce : ℕ
  pub code_hash : ℕ
  pub code : Option (List ℕ)

pub record InMemoryStateDb : Type 0 where
  pub account_map : List (ℕ × AccountInfo)
  pub storage : List (ℕ × List (ℕ × ℕ))
  pub block_hashes : List (ℕ × ℕ)

unfoldable pub new : InMemoryStateDb
new = record { account_map = []; storage = []; block_hashes = [] }

unfoldable pub insert_account : InMemoryStateDb → ℕ → AccountInfo → InMemoryStateDb
insert_account s address info = record s { account_map = Maps.insert address info s.account_map }

abbrev pub default_account : AccountInfo
default_account = record { balance = 0; nonce = 0; code_hash = 0; code = none }

abbrev info_or_default : Option AccountInfo → AccountInfo
info_or_default none = default_account
info_or_default (some info) = info

unfoldable pub get_account : InMemoryStateDb → ℕ → AccountInfo
get_account s address = info_or_default (Maps.get address s.account_map)

abbrev pub slots_or_empty : Option (List (ℕ × ℕ)) → List (ℕ × ℕ)
slots_or_empty none = []
slots_or_empty (some slots) = slots

abbrev pub word_or_zero : Option ℕ → ℕ
word_or_zero none = 0
word_or_zero (some word) = word

unfoldable pub set_storage : InMemoryStateDb → ℕ → ℕ → ℕ → InMemoryStateDb
set_storage s address slot value = record s {
  storage =
      Maps.insert address (Maps.insert slot value (slots_or_empty (Maps.get address s.storage)))
        s.storage;
}

unfoldable pub get_storage : InMemoryStateDb → ℕ → ℕ → ℕ
get_storage s address slot =
    word_or_zero (Maps.get slot (slots_or_empty (Maps.get address s.storage)))

unfoldable pub insert_block_hash : InMemoryStateDb → ℕ → ℕ → InMemoryStateDb
insert_block_hash s number hash = record s { block_hashes = Maps.insert number hash s.block_hashes }

unfoldable pub get_block_hash : InMemoryStateDb → ℕ → ℕ
get_block_hash s number = word_or_zero (Maps.get number s.block_hashes)

abbrev has_account : Option AccountInfo → Bool
has_account none = false
has_account (some _) = true

unfoldable pub account_exists : InMemoryStateDb → ℕ → Bool
account_exists s address = has_account (Maps.get address s.account_map)

unfoldable pub remove_account : InMemoryStateDb → ℕ → InMemoryStateDb
remove_account s address = record s {
  account_map = Maps.remove address s.account_map;
  storage = Maps.remove address s.storage;
}

unfoldable pub clear_storage : InMemoryStateDb → ℕ → InMemoryStateDb
clear_storage s address = record s { storage = Maps.remove address s.storage }

unfoldable pub accounts : InMemoryStateDb → List ℕ
accounts s = map (λ e. e.0) s.account_map
