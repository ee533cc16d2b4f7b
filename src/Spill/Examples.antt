-- ===== src/Spill/Examples.antt =====
-- A directory of two files, a new one of ninety bytes and an old one of ten.
use bonsai_agent.Prelude.{
  ◌≤◌, true, false, str_eq, ◌≡◌, refl, some, none, List, [], ◌∷◌, length, arith,
}
use bonsai_agent.Spill.{
  SpillEntry, SpillStore, Directory, bytes, write, select_evictions, evict_from, sort_entries,
  insert_entry, saturating_add, enforce_limits,
}
use bonsai_agent.Spill.Limits.{Works, write-within, has_path}

abbrev store : SpillStore
store = record { enabled = true; max_files = 2; max_total_bytes = 50 }

abbrev directory : Directory
directory = record { is_readable = true; lists = λ e. true; removes = λ p. true }

works : Works directory
works = record { readable = refl; all_listed = λ e. refl; all_removed = λ p. refl }

abbrev old : SpillEntry
old = record { path = "old"; modified = 1; size = 10 }

abbrev recent : SpillEntry
recent = record { path = "recent"; modified = 5; size = 90 }

-- The file that does not fit goes, and the older one stays.
older_stays : select_evictions (old ∷ recent ∷ []) 2 50 none ≡ "recent" ∷ []
unfolding select_evictions evict_from sort_entries insert_entry saturating_add
older_stays = refl

write_left :
    (write directory store true true 9 "new" 30 (old ∷ recent ∷ [])).1
    ≡ record { path = "new"; modified = 9; size = 30 } ∷ old ∷ []
unfolding write enforce_limits select_evictions evict_from sort_entries insert_entry saturating_add
write_left = refl

-- A file that alone is over the bytes drives the others out and stays.
write_too_much :
    (write directory store true true 9 "new" 60 (old ∷ recent ∷ [])).1
    ≡ record { path = "new"; modified = 9; size = 60 } ∷ []
unfolding write enforce_limits select_evictions evict_from sort_entries insert_entry saturating_add
write_too_much = refl

write-within_example :
    let (saved, left) = write directory store true true 9 "new" 30 (old ∷ recent ∷ []) in
    (saved ≡ some "new")
    × (length left ≤ 2)
    × (bytes left ≤ 50)
    × ((older : List SpillEntry) × (left ≡ record { path = "new"; modified = 9; size = 30 } ∷ older)
        × (has_path "new" older ≡ false))
write-within_example =
    write-within directory store 9 "new" 30 (old ∷ recent ∷ []) works refl (omega arith)
      (omega arith) (omega arith)

-- A directory that cannot be read, or files that cannot be removed, stay above the limits.
write_unreadable :
    (write
      (record directory { is_readable = false })
      store
      true
      true
      9
      "new"
      60
      (old ∷ recent ∷ [])).1
    ≡ record { path = "new"; modified = 9; size = 60 } ∷ old ∷ recent ∷ []
unfolding write enforce_limits select_evictions evict_from sort_entries insert_entry saturating_add
write_unreadable = refl

write_unremoved :
    (write
      (record directory { removes = λ p. str_eq p "old" })
      store
      true
      true
      9
      "new"
      60
      (old ∷ recent ∷ [])).1
    ≡ record { path = "new"; modified = 9; size = 60 } ∷ recent ∷ []
unfolding write enforce_limits select_evictions evict_from sort_entries insert_entry saturating_add
write_unremoved = refl
