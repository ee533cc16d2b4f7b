-- ===== src/Spill/Limits.antt =====
-- src/agent/tool_spill.rs: the directory stays within the limits, and keeps the newest file.
use bonsai_agent.Prelude.{
  ℕ, ◌+◌, ◌%◌, ◌≤◌, ◌<◌, Bool, true, false, ◌&&◌, ◌||◌, ◌≡◌, refl, ap, ◌∙◌, String, Option, some,
  List, [], ◌∷◌, str_eq, eq_refl, ltb, leb, length, any, arith, if◌then◌else◌, or-true_right,
  Bool-cases, inl, inr,
}
use bonsai_agent.Spill.{
  SpillEntry, SpillStore, max_u64, saturating_add, kept, others, insert_entry, sort_entries, bytes,
  evict_from, select_evictions, Directory, listed, remove_files, enforce_limits, write,
}

-- The files whose paths are not listed.
abbrev without : List String → List SpillEntry → List SpillEntry
without paths [] = []
without paths (e ∷ es) =
    let rest = without paths es in if any (str_eq e.path) paths then rest else e ∷ rest

length-insert :
    (E : List String) (e : SpillEntry) (xs : List SpillEntry)
    → length (without E (insert_entry e xs)) ≡ length (without E (e ∷ xs))
unfolding insert_entry
length-insert E e [] = refl
length-insert E e (x ∷ xs) = ground (arith, length-insert E e xs)

bytes-insert :
    (E : List String) (e : SpillEntry) (xs : List SpillEntry)
    → bytes (without E (insert_entry e xs)) ≡ bytes (without E (e ∷ xs))
unfolding insert_entry
bytes-insert E e [] = refl
bytes-insert E e (x ∷ xs) = ground (arith, bytes-insert E e xs)

length-sort :
    (E : List String) (xs : List SpillEntry)
    → length (without E (sort_entries xs)) ≡ length (without E xs)
unfolding sort_entries
length-sort E [] = refl
length-sort E (x ∷ xs) = ground (arith, length-insert E x (sort_entries xs), length-sort E xs)

bytes-sort :
    (E : List String) (xs : List SpillEntry)
    → bytes (without E (sort_entries xs)) ≡ bytes (without E xs)
unfolding sort_entries
bytes-sort E [] = refl
bytes-sort E (x ∷ xs) = ground (arith, bytes-insert E x (sort_entries xs), bytes-sort E xs)

fits : ℕ → ℕ → ℕ → ℕ → SpillEntry → Bool
fits max_files max_total count total e =
    ltb count max_files && leb (saturating_add total e.size) max_total

evict_from-none :
    (max_files max_total count total : ℕ) → evict_from max_files max_total count total [] ≡ []
unfolding evict_from
evict_from-none max_files max_total count total = refl

evict_from-fits :
    (max_files max_total count total : ℕ) (e : SpillEntry) (es : List SpillEntry)
    → fits max_files max_total count total e ≡ true
    → evict_from max_files max_total count total (e ∷ es)
      ≡ evict_from max_files max_total (count + 1) ((total + e.size) % (max_u64 + 1)) es
unfolding evict_from fits
evict_from-fits max_files max_total count total e es room = rw room refl

evict_from-full :
    (max_files max_total count total : ℕ) (e : SpillEntry) (es : List SpillEntry)
    → fits max_files max_total count total e ≡ false
    → evict_from max_files max_total count total (e ∷ es)
      ≡ e.path ∷ evict_from max_files max_total count total es
unfolding evict_from fits
evict_from-full max_files max_total count total e es full = rw full refl

fits-within :
    (max_files max_total count total : ℕ) (e : SpillEntry)
    → max_total < max_u64
    → fits max_files max_total count total e ≡ true
    → (count + 1 ≤ max_files) × (total + e.size ≤ max_total)
unfolding fits saturating_add
fits-within max_files max_total count total e limit room = (ground arith, ground arith)

no_wrap : (a m : ℕ) → a ≤ m → m < max_u64 → a % (max_u64 + 1) ≡ a
no_wrap a m h limit = omega arith

-- Of files that are looked at in turn, those that stay do not exceed the limits.
evict_from-within :
    (max_files max_total count total : ℕ) (E : List String) (es : List SpillEntry)
    → count ≤ max_files
    → total ≤ max_total
    → max_total < max_u64
    → ((p : String)
        → any (str_eq p) (evict_from max_files max_total count total es) ≡ true
        → any (str_eq p) E ≡ true)
    → (count + length (without E es) ≤ max_files) × (total + bytes (without E es) ≤ max_total)
evict_from-within max_files max_total count total E [] few small limit all =
    (omega arith, omega arith)
evict_from-within max_files max_total count total E (e ∷ es) few small limit all =
    elim (Bool-cases (fits max_files max_total count total e)) [
      | inl room ↦
          let small' = fits-within max_files max_total count total e limit room in
          let same = no_wrap (total + e.size) max_total small'.1 limit in
          let step =
            evict_from-fits max_files max_total count total e es room
            ∙ ap (λ n. evict_from max_files max_total (count + 1) n es) same in
          let rest =
            evict_from-within max_files max_total (count + 1) (total + e.size) E es small'.0
              small'.1 limit (λ p h. all p (rw step h)) in
          (ground (arith, rest.0), ground (arith, rest.1))
      | inr full ↦
          let step = evict_from-full max_files max_total count total e es full in
          let gone = all e.path (rw (step, eq_refl e.path) refl) in
          let rest =
            evict_from-within max_files max_total count total E es few small limit
              (λ p h. all p (rw step (or-true_right (str_eq p e.path) _ h))) in
          (ground (arith, rest.0, gone), ground (arith, rest.1, gone))
    ]

-- Whether a file has the path.
abbrev pub has_path : String → List SpillEntry → Bool
has_path p [] = false
has_path p (e ∷ es) = str_eq p e.path || has_path p es

has_path-insert :
    (p : String) (e : SpillEntry) (xs : List SpillEntry)
    → has_path p (insert_entry e xs) ≡ (str_eq p e.path || has_path p xs)
unfolding insert_entry
has_path-insert p e [] = refl
has_path-insert p e (x ∷ xs) = ground (arith, has_path-insert p e xs)

has_path-sort : (p : String) (xs : List SpillEntry) → has_path p (sort_entries xs) ≡ has_path p xs
unfolding sort_entries
has_path-sort p [] = refl
has_path-sort p (x ∷ xs) =
    has_path-insert p x (sort_entries xs) ∙ ap (λ b. str_eq p x.path || b) (has_path-sort p xs)

has_path-others : (p : String) (xs : List SpillEntry) → has_path p (others (some p) xs) ≡ false
has_path-others p [] = refl
has_path-others p (x ∷ xs) = ground (arith, has_path-others p xs)

evict_from-absent :
    (p : String) (max_files max_total count total : ℕ) (es : List SpillEntry)
    → has_path p es ≡ false
    → any (str_eq p) (evict_from max_files max_total count total es) ≡ false
evict_from-absent p max_files max_total count total [] h =
    ap (any (str_eq p)) (evict_from-none max_files max_total count total)
evict_from-absent p max_files max_total count total (e ∷ es) h =
    elim (Bool-cases (fits max_files max_total count total e)) [
      | inl room ↦ rw (evict_from-fits max_files max_total count total e es room) (
          evict_from-absent p max_files max_total (count + 1) ((total + e.size) % (max_u64 + 1)) es
            (ground arith))
      | inr full ↦
          rw (evict_from-full max_files max_total count total e es full)
            (ground (arith, evict_from-absent p max_files max_total count total es))
    ]

kept-others : (p : String) (xs : List SpillEntry) → kept (some p) (others (some p) xs) ≡ []
kept-others p [] = refl
kept-others p (x ∷ xs) = ground (arith, kept-others p xs)

others-others :
    (p : String) (xs : List SpillEntry) → others (some p) (others (some p) xs) ≡ others (some p) xs
others-others p [] = refl
others-others p (x ∷ xs) = ground (arith, others-others p xs)

has_path-remove :
    (p : String) (E : List String) (xs : List SpillEntry)
    → has_path p xs ≡ false
    → has_path p (without E xs) ≡ false
has_path-remove p E [] h = refl
has_path-remove p E (x ∷ xs) h = ground (arith, has_path-remove p E xs)

module _ (max_files max_total : ℕ) (entry : SpillEntry) (entries : List SpillEntry)
    (fitting : entry.size ≤ max_total) (limit : max_total < max_u64) where
  older : List SpillEntry
  older = others (some entry.path) entries

  evicted : List String
  unfolding older
  evicted = evict_from max_files max_total 1 entry.size (sort_entries older)

  select_evictions-new :
      select_evictions (entry ∷ older) max_files max_total (some entry.path) ≡ evicted
  unfolding select_evictions older evicted
  select_evictions-new =
      rw
        (
          eq_refl entry.path,
          kept-others entry.path entries,
          others-others entry.path entries,
          no_wrap (entry.size + 0) max_total (omega arith) limit,
        )
        (ap (λ n. evict_from max_files max_total 1 n (sort_entries older)) (omega arith))

  evicted-spares : any (str_eq entry.path) evicted ≡ false
  unfolding older evicted
  evicted-spares =
      evict_from-absent entry.path max_files max_total 1 entry.size (sort_entries older)
        (has_path-sort entry.path older ∙ has_path-others entry.path entries)

  older-within :
      1 ≤ max_files
      → (1 + length (without evicted older) ≤ max_files)
        × (entry.size + bytes (without evicted older) ≤ max_total)
  unfolding evicted
  older-within room =
      let (few, small) =
        evict_from-within max_files max_total 1 entry.size evicted (sort_entries older) room fitting
          limit (λ p h. h) in
      (
        omega (arith, few, length-sort evicted older),
        omega (arith, small, bytes-sort evicted older),
      )

  older-lacks : has_path entry.path (without evicted older) ≡ false
  unfolding older
  older-lacks = has_path-remove entry.path evicted older (has_path-others entry.path entries)

  without-new :
      without
        (select_evictions (entry ∷ older) max_files max_total (some entry.path))
        (entry ∷ older)
      ≡ entry ∷ without evicted older
  without-new = ap (λ E. without E (entry ∷ older)) select_evictions-new ∙ rw evicted-spares refl

-- A directory that is read, whose files are all listed, and from which every file can be removed.
pub record Works (d : Directory) : Type 0 where
  pub readable : d.is_readable ≡ true
  pub all_listed : (e : SpillEntry) → d.lists e ≡ true
  pub all_removed : (p : String) → d.removes p ≡ true

listed-all :
    (d : Directory)
    → ((e : SpillEntry) → d.lists e ≡ true)
    → (es : List SpillEntry) → listed d es ≡ es
listed-all d all [] = refl
listed-all d all (e ∷ es) = rw (all e) (ap (λ l. e ∷ l) (listed-all d all es))

remove_files-all :
    (d : Directory) (paths : List String)
    → ((p : String) → d.removes p ≡ true)
    → (es : List SpillEntry) → remove_files d paths es ≡ without paths es
remove_files-all d paths all [] = refl
remove_files-all d paths all (e ∷ es) = ground (arith, all e.path, remove_files-all d paths all es)

enforce_limits-works :
    (d : Directory) (s : SpillStore) (keep : Option String) (es : List SpillEntry)
    → Works d
    → (enforce_limits d s keep es).0
      ≡ without (select_evictions es s.max_files s.max_total_bytes keep) es
unfolding enforce_limits
enforce_limits-works d s keep es works =
    let chosen : List SpillEntry → List String =
      λ l. select_evictions l s.max_files s.max_total_bytes keep in
    rw works.readable (
      ap (λ l. remove_files d (chosen l) es) (listed-all d works.all_listed es)
      ∙ remove_files-all d (chosen es) works.all_removed es)

write-new :
    (d : Directory) (works : Works d) (s : SpillStore) (entry : SpillEntry)
    (entries : List SpillEntry) (fitting : entry.size ≤ s.max_total_bytes)
    (limit : s.max_total_bytes < max_u64)
    → s.enabled ≡ true
    → write d s true true entry.modified entry.path entry.size entries ≡ (
      some entry.path,
      entry
          ∷ without
              (evicted s.max_files s.max_total_bytes entry entries fitting limit)
              (older s.max_files s.max_total_bytes entry entries fitting limit),
    )
unfolding write older enforce_limits
write-new d works s entry entries fitting limit enabled =
    let left = entry ∷ others (some entry.path) entries in
    rw enabled (
      ap (λ l. (some entry.path, l))
        (enforce_limits-works d s (some entry.path) left works
          ∙ without-new s.max_files s.max_total_bytes entry entries fitting limit))

-- Where the directory can be read, lists all its files and lets them be removed, a store that writes
-- keeps at most `max_files` files and `max_total_bytes` bytes, and the file that it wrote, whatever
-- files there were, if it may keep a file, the file is within the bytes and these are less than the
-- greatest number of 64 bits. Files whose paths are the new one are replaced.
pub write-within :
    (d : Directory) (s : SpillStore) (now : ℕ) (path : String) (size : ℕ)
    (entries : List SpillEntry)
    → Works d
    → s.enabled ≡ true
    → 1 ≤ s.max_files
    → size ≤ s.max_total_bytes
    → s.max_total_bytes < max_u64
    → let (saved, left) = write d s true true now path size entries in
      (saved ≡ some path)
      × (length left ≤ s.max_files)
      × (bytes left ≤ s.max_total_bytes)
      × ((older : List SpillEntry) × (left
            ≡ record { path = path; modified = now; size = size } ∷ older)
          × (has_path path older ≡ false))
write-within d s now path size entries works enabled room fitting limit =
    let entry : SpillEntry = record { path = path; modified = now; size = size } in
    let (few, small) =
      older-within s.max_files s.max_total_bytes entry entries fitting limit room in
    rw (write-new d works s entry entries fitting limit enabled) (
      refl,
      ground (arith, few),
      ground (arith, small),
      (_, refl, older-lacks s.max_files s.max_total_bytes entry entries fitting limit),
    )
