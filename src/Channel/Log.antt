-- ===== src/Channel/Log.antt =====
-- The update log of lnwallet/channel.go. A list element is the descriptor that it holds, since each
-- descriptor is pushed once. `none` is the panic of `Remove` on the missing entry of an index.
use obd_go_bindings.Prelude.{
  ℕ, ◌+◌, ◌%◌, ◌^◌, Bool, true, false, ◌&&◌, ◌||◌, Option, none, some, List, [], ◌∷◌, ◌++◌,
  if◌then◌else◌, ◌==◌, leb, nat_eq,
}
use obd_go_bindings.Prelude.Maps.{lookup, insert, delete}
use obd_go_bindings.Channel.{PaymentDescriptor, Ref, Heap, is_add, is_fee_update}

pub record UpdateLog : Type 0 where
  pub log_index : ℕ
  pub htlc_counter : ℕ
  pub entries : List Ref
  pub update_index : List (ℕ × Ref)
  pub htlc_index : List (ℕ × Ref)
  pub modified_htlcs : List (ℕ × Unit {0})

unfoldable pub new_update_log : ℕ → ℕ → UpdateLog
new_update_log log_index htlc_counter = record {
  log_index = log_index;
  htlc_counter = htlc_counter;
  entries = [];
  update_index = [];
  htlc_index = [];
  modified_htlcs = [];
}

abbrev pub is_some {ℓ} : {A : Type ℓ} → Option A → Bool
is_some none = false
is_some (some _) = true

unfoldable pub restore_htlc : Heap → UpdateLog → Ref → UpdateLog
restore_htlc heap u pd =
    if is_some (lookup (heap pd).htlc_index u.htlc_index) then u else record u {
      entries = u.entries ++ (pd ∷ []);
      htlc_index = insert (heap pd).htlc_index pd u.htlc_index;
    }

unfoldable pub append_update : UpdateLog → Ref → UpdateLog
append_update u pd = record u {
  entries = u.entries ++ (pd ∷ []);
  update_index = insert u.log_index pd u.update_index;
  log_index = (u.log_index + 1) % 2 ^ 64;
}

unfoldable pub restore_update : Heap → UpdateLog → Ref → UpdateLog
restore_update heap u pd = record u {
  entries = u.entries ++ (pd ∷ []);
  update_index = insert (heap pd).log_index pd u.update_index;
}

unfoldable pub append_htlc : UpdateLog → Ref → UpdateLog
append_htlc u pd = record u {
  entries = u.entries ++ (pd ∷ []);
  htlc_index = insert u.htlc_counter pd u.htlc_index;
  htlc_counter = (u.htlc_counter + 1) % 2 ^ 64;
  log_index = (u.log_index + 1) % 2 ^ 64;
}

unfoldable pub lookup_htlc : UpdateLog → ℕ → Option Ref
lookup_htlc u i = lookup i u.htlc_index

-- `list.Remove` of one element.
unfoldable pub erase : Ref → List Ref → List Ref
erase r [] = []
erase r (q ∷ qs) = let rest = erase r qs in if r == q then rest else q ∷ rest

unfoldable pub remove_update : UpdateLog → ℕ → Option UpdateLog
remove_update u i = elim (lookup i u.update_index) [
  | none ↦ none
  | some entry ↦
      some (record u { entries = erase entry u.entries; update_index = delete i u.update_index })
]

unfoldable pub remove_htlc : UpdateLog → ℕ → Option UpdateLog
remove_htlc u i = elim (lookup i u.htlc_index) [
  | none ↦ none
  | some entry ↦ some (record u {
    entries = erase entry u.entries;
    htlc_index = delete i u.htlc_index;
    modified_htlcs = delete i u.modified_htlcs;
  })
]

unfoldable pub htlc_has_modification : UpdateLog → ℕ → Bool
htlc_has_modification u i = is_some (lookup i u.modified_htlcs)

unfoldable pub mark_htlc_modified : UpdateLog → ℕ → UpdateLog
mark_htlc_modified u i = record u { modified_htlcs = insert i tt u.modified_htlcs }

-- Whether an entry is removed from both chains at their tails.
unfoldable pub is_settled : ℕ → ℕ → PaymentDescriptor → Bool
is_settled local_tail remote_tail pd =
    if is_add pd.entry_type
    then false
    else if pd.remove_commit_height_remote == 0 || pd.remove_commit_height_local == 0
    then false
    else leb pd.remove_commit_height_remote remote_tail
      && leb pd.remove_commit_height_local local_tail

-- The removal of an entry from log A, and of its parent, if it has one, from log B.
unfoldable pub evict : PaymentDescriptor → UpdateLog × UpdateLog → Option (UpdateLog × UpdateLog)
evict pd (a, b) = elim (remove_update a pd.log_index) [
  | none ↦ none
  | some a' ↦
      if is_fee_update pd.entry_type
      then some (a', b)
      else elim (remove_htlc b pd.parent_index) [ none ↦ none | some b' ↦ some (a', b') ]
]

-- The closure `compactLog` over the entries that log A had at first: only the entry that is looked at
-- is removed from it.
unfoldable pub compact_log :
    Heap → ℕ → ℕ → List Ref → UpdateLog × UpdateLog → Option (UpdateLog × UpdateLog)
compact_log heap local_tail remote_tail [] logs = some logs
compact_log heap local_tail remote_tail (r ∷ rs) logs =
    elim (is_settled local_tail remote_tail (heap r)) [
      | false ↦ compact_log heap local_tail remote_tail rs logs
      | true ↦ elim (evict (heap r) logs) [
        | none ↦ none
        | some logs' ↦ compact_log heap local_tail remote_tail rs logs'
      ]
    ]

abbrev pub swap : UpdateLog × UpdateLog → UpdateLog × UpdateLog
swap (a, b) = (b, a)

-- `compactLogs`: our log, then theirs.
unfoldable pub compact_logs : Heap → UpdateLog → UpdateLog → ℕ → ℕ → Option (UpdateLog × UpdateLog)
compact_logs heap ours theirs local_tail remote_tail =
    elim (compact_log heap local_tail remote_tail ours.entries (ours, theirs)) [
      | none ↦ none
      | some (ours', theirs') ↦
          elim (compact_log heap local_tail remote_tail theirs'.entries (theirs', ours')) [
            | none ↦ none
            | some logs ↦ some (swap logs)
          ]
    ]
