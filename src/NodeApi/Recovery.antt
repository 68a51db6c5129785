-- ===== src/NodeApi/Recovery.antt =====
-- internal/nodeapi/cache.go: what a cache that is loaded from the files knows.
use plexd.Base.{
  String, List, [], ◌∷◌, Bool, true, false, not, ◌&&◌, ◌||◌, ◌==◌, Option, none, some,
  if◌then◌else◌, contains, All, eq_refl, arith, ◌≡◌, refl, ap, sym, ◌∙◌, inl, inr, Bool-cases,
  Option-cases, String-cases,
}
use plexd.Base.GoMap.{
  GoMap, find, has, store, delete, keys, Distinct, find-store, find-store_other, find-delete,
  has-store, has-delete, has_of_find, has_of_none, store-Distinct, delete-Distinct, contains-keys,
  has-false,
}
use plexd.Api.Types.{DataEntry}
use plexd.NodeApi.Cache.{
  Disk, Files, write_at, remove_at, StateCache, new_state_cache, load, load_data, remove_files,
  new_data, old_keys, persist_data, update_data, get_data_entry,
}

abbrev pub or_else : {A : Type 0} → Option A → Option A → Option A
or_else none b = b
or_else (some a) b = some a

abbrev pub option_map : {A B : Type 0} → (A → B) → Option A → Option B
option_map f none = none
option_map f (some a) = some (f a)

-- The files of data stand under the keys of their entries.
abbrev DataKeyed : GoMap DataEntry → Type 0
DataKeyed [] = Unit
DataKeyed ((name, e) ∷ files) = (e.key ≡ name) × DataKeyed files

find-load_data :
    (k : String) (files m : GoMap DataEntry)
    → DataKeyed files
    → Distinct files
    → find k (load_data files m) ≡ or_else (find k files) (find k m)
unfolding load_data find
find-load_data k [] m keyed d = refl
find-load_data k ((name, e) ∷ files) m keyed d = elim (String-cases name k) [
  | inl (same, is) ↦
      find-load_data k files (store e.key e m) keyed.1 d.1
      ∙ rw (has-false k files (ap (λ (s : String). has s files) (sym is) ∙ d.0), same)
          (find-store e.key k e m ∙ rw (keyed.0, same) refl)
  | inr (other, _) ↦
      find-load_data k files (store e.key e m) keyed.1 d.1
      ∙ rw other (ap (or_else (find k files)) (find-store_other e.key k e m (rw keyed.0 other)))
]

or_else_assoc : {A : Type 0} (a b c : Option A) → or_else (or_else a b) c ≡ or_else a (or_else b c)
or_else_assoc none b c = refl
or_else_assoc (some a) b c = refl

find-store_or :
    {A : Type 0} (k j : String) (v : A) (m : GoMap A)
    → find k (store j v m) ≡ or_else (find k (store j v [])) (find k m)
unfolding find store
find-store_or k j v m = elim (Bool-cases (j == k)) [
  | inl e ↦ find-store j k v m ∙ rw e refl
  | inr e ↦ find-store j k v m ∙ rw e refl
]

find-new_data :
    (k : String) (es : List DataEntry) (m : GoMap DataEntry)
    → find k (new_data es m) ≡ or_else (find k (new_data es [])) (find k m)
unfolding new_data find
find-new_data k [] m = refl
find-new_data k (e ∷ es) m =
    find-new_data k es (store e.key e m)
    ∙ ap (or_else (find k (new_data es []))) (find-store_or k e.key e m)
    ∙ sym (or_else_assoc (find k (new_data es [])) (find k (store e.key e [])) (find k m))
    ∙ ap (λ o. or_else o (find k m)) (sym (find-new_data k es (store e.key e [])))

abbrev present : {A : Type 0} → Option A → Bool
present none = false
present (some a) = true

has-present : {A : Type 0} (k : String) (m : GoMap A) → has k m ≡ present (find k m)
has-present k m = elim (Option-cases (find k m)) [
  | inl e ↦ has_of_none k m e ∙ ap present (sym e)
  | inr (a, e) ↦ has_of_find k m a e ∙ ap present (sym e)
]

present-or_else : {A : Type 0} (a b : Option A) → present (or_else a b) ≡ (present a || present b)
present-or_else none b = refl
present-or_else (some a) b = refl

has-new_data :
    (k : String) (es : List DataEntry) (m : GoMap DataEntry)
    → has k (new_data es m) ≡ (has k (new_data es []) || has k m)
has-new_data k es m =
    has-present k (new_data es m)
    ∙ ap present (find-new_data k es m)
    ∙ present-or_else (find k (new_data es [])) (find k m)
    ∙ ground (arith, has-present k (new_data es []), has-present k m)

-- An old key remains if the old data has it and no new entry.
has-old_keys :
    (k : String) (es : List DataEntry) (m : GoMap DataEntry)
    → has k (old_keys es m) ≡ (has k m && not (has k (new_data es [])))
unfolding old_keys new_data has
has-old_keys k [] m = ground arith
has-old_keys k (e ∷ es) m =
    has-old_keys k es (delete e.key m)
    ∙ ground
        (arith, has-delete e.key k m, has-new_data k es (store e.key e []), has-store e.key k e [])

store-DataKeyed : (e : DataEntry) (m : GoMap DataEntry) → DataKeyed m → DataKeyed (store e.key e m)
unfolding store
store-DataKeyed e [] keyed = (refl, tt)
store-DataKeyed e ((j, x) ∷ m) keyed = elim (Bool-cases (j == e.key)) [
  | inl b ↦ rw b (refl, keyed.1)
  | inr b ↦ rw b (keyed.0, store-DataKeyed e m keyed.1)
]

delete-DataKeyed : (k : String) (m : GoMap DataEntry) → DataKeyed m → DataKeyed (delete k m)
unfolding delete
delete-DataKeyed k [] keyed = tt
delete-DataKeyed k ((j, x) ∷ m) keyed = elim (Bool-cases (j == k)) [
  | inl b ↦ rw b (delete-DataKeyed k m keyed.1)
  | inr b ↦ rw b (keyed.0, delete-DataKeyed k m keyed.1)
]

new_data-keeps :
    (es : List DataEntry) (m : GoMap DataEntry)
    → DataKeyed m × Distinct m
    → DataKeyed (new_data es m) × Distinct (new_data es m)
unfolding new_data
new_data-keeps [] m h = h
new_data-keeps (e ∷ es) m h =
    new_data-keeps es (store e.key e m) (store-DataKeyed e m h.0, store-Distinct e.key e m h.1)

abbrev no_entries : GoMap DataEntry
no_entries = []

none_there : (k : String) → has k no_entries ≡ true → ⊥
unfolding has
none_there k there = absurd (ground arith)

-- All keys of a map.
All-keys :
    {A : Type 0} (P : String → Type 0) (m : GoMap A)
    → ((k : String) → has k m ≡ true → P k)
    → All P (keys m)
unfolding keys has
All-keys P [] h = tt
All-keys P ((j, x) ∷ m) h = (h j (rw eq_refl refl), All-keys P m (λ k there. h k (ground arith)))

remove_at-keeps :
    (o : Option String) (m : GoMap DataEntry)
    → DataKeyed m × Distinct m
    → DataKeyed (remove_at o m) × Distinct (remove_at o m)
unfolding remove_at
remove_at-keeps none m h = h
remove_at-keeps (some k) m h = (delete-DataKeyed k m h.0, delete-Distinct k m h.1)

module _ (files : Files) where
  -- The file of the key stands in the directory, under the key.
  abbrev pub Plain : String → Type 0
  Plain k = files.place k ≡ some k

  -- What is documented of the library: reading back an entry keeps its key. And no write fails.
  pub record Works : Type 0 where
    pub writes : (k : String) → files.fails k ≡ false
    pub keeps_key : (e : DataEntry) → (files.reread_data e).key ≡ e.key

  abbrev rereads : List DataEntry → List DataEntry
  rereads [] = []
  rereads (e ∷ es) = files.reread_data e ∷ rereads es

  -- The files of data are those of the entries in memory, as they are read back.
  pub record DataPersisted (sc : StateCache) : Type 0 where
    pub same :
        (k : String) → find k sc.disk.data_files ≡ option_map files.reread_data (find k sc.entries)
    pub keyed : DataKeyed sc.disk.data_files
    pub distinct : Distinct sc.disk.data_files
    pub plain : (k : String) → has k sc.entries ≡ true → Plain k

  remove_files-keeps :
      (ks : List String) (m : GoMap DataEntry)
      → DataKeyed m × Distinct m
      → DataKeyed (remove_files files ks m) × Distinct (remove_files files ks m)
  unfolding remove_files
  remove_files-keeps [] m h = h
  remove_files-keeps (k ∷ ks) m h =
      remove_files-keeps ks (remove_at (files.place k) m) (remove_at-keeps (files.place k) m h)

  find-remove_files :
      (k : String) (ks : List String) (m : GoMap DataEntry)
      → All Plain ks
      → find k (remove_files files ks m) ≡ (if contains k ks then none else find k m)
  unfolding remove_files remove_at
  find-remove_files k [] m plain = refl
  find-remove_files k (j ∷ ks) m plain =
      find-remove_files k ks (remove_at (files.place j) m) plain.1
      ∙ rw (plain.0, remove_at) (ground (arith, find-delete j k m))

  new_data-Plain :
      (es : List DataEntry) (m : GoMap DataEntry)
      → All (λ e. Plain e.key) es
      → ((k : String) → has k m ≡ true → Plain k)
      → (k : String) → has k (new_data es m) ≡ true
      → Plain k
  unfolding new_data
  new_data-Plain [] m plain h = h
  new_data-Plain (e ∷ es) m plain h = new_data-Plain es (store e.key e m) plain.1 stored
    where
      stored : (k : String) → has k (store e.key e m) ≡ true → Plain k
      stored k there = elim (String-cases e.key k) [
        | inl (same, is) ↦ rw (← is) (plain.0)
        | inr (other, _) ↦ h k (ground (arith, has-store e.key k e m))
      ]

  module _ (works : Works) where
    persist_works :
        (es : List DataEntry) (m : GoMap DataEntry)
        → All (λ e. Plain e.key) es
        → persist_data files es m ≡ new_data (rereads es) m
    unfolding persist_data new_data write_at
    persist_works [] m plain = refl
    persist_works (e ∷ es) m plain =
        rw (works.writes e.key, plain.0, write_at)
          (persist_works es (store e.key (files.reread_data e) m) plain.1
            ∙ ap (λ (k : String). new_data (rereads es) (store k (files.reread_data e) m))
                (sym (works.keeps_key e)))

    find-rereads :
        (es : List DataEntry) (m m' : GoMap DataEntry)
        → ((j : String) → find j m' ≡ option_map files.reread_data (find j m))
        → (k : String)
        → find k (new_data (rereads es) m') ≡ option_map files.reread_data (find k (new_data es m))
    unfolding new_data
    find-rereads [] m m' h k = h k
    find-rereads (e ∷ es) m m' h k =
        ap (λ (j : String). find k (new_data (rereads es) (store j (files.reread_data e) m')))
          (works.keeps_key e)
        ∙ find-rereads es (store e.key e m) (store e.key (files.reread_data e) m') stored k
      where
        stored :
            (j : String)
            → find j (store e.key (files.reread_data e) m')
              ≡ option_map files.reread_data (find j (store e.key e m))
        stored j =
            find-store e.key j (files.reread_data e) m'
            ∙ ground (arith, find-store e.key j e m, h j)

    update_data-DataPersisted :
        (es : List DataEntry) (sc : StateCache)
        → All (λ e. Plain e.key) es
        → DataPersisted sc
        → DataPersisted (update_data files es sc)
    unfolding update_data
    update_data-DataPersisted es sc plain h = record {
      same = same_after;
      keyed = kept.0;
      distinct = kept.1;
      plain = new_data-Plain es [] plain (λ k there. absurd (none_there k there));
    }
      where
        old : List String
        old = keys (old_keys es sc.entries)

        old_plain : All Plain old
        old_plain =
            All-keys Plain (old_keys es sc.entries)
              (λ k there. h.plain k (ground (arith, has-old_keys k es sc.entries)))

        kept :
            DataKeyed (remove_files files old (persist_data files es sc.disk.data_files))
            × Distinct (remove_files files old (persist_data files es sc.disk.data_files))
        kept = remove_files-keeps old (persist_data files es sc.disk.data_files) (
            rw (persist_works es sc.disk.data_files plain)
              (new_data-keeps (rereads es) sc.disk.data_files (h.keyed, h.distinct)))

        by_case :
            (fresh old : Option DataEntry)
            → (if present old && not (present fresh)
                then none
                else or_else
                    (option_map files.reread_data fresh)
                    (option_map files.reread_data old))
              ≡ option_map files.reread_data fresh
        by_case none none = refl
        by_case none (some o) = refl
        by_case (some f) none = refl
        by_case (some f) (some o) = refl

        same_after :
            (k : String)
            → find k (remove_files files old (persist_data files es sc.disk.data_files))
              ≡ option_map files.reread_data (find k (new_data es []))
        same_after k =
            find-remove_files k old (persist_data files es sc.disk.data_files) old_plain
            ∙ rw
                (
                  contains-keys k (old_keys es sc.entries),
                  has-old_keys k es sc.entries,
                  has-present k sc.entries,
                  has-present k (new_data es []),
                  persist_works es sc.disk.data_files plain,
                  find-new_data k (rereads es) sc.disk.data_files,
                  find-rereads es [] [] (unfold find in λ j. refl) k,
                  h.same k,
                )
                (by_case (find k (new_data es [])) (find k sc.entries))

  abbrev pub run_updates : List (List DataEntry) → StateCache → StateCache
  run_updates [] sc = sc
  run_updates (es ∷ updates) sc = run_updates updates (update_data files es sc)

  run_updates-DataPersisted :
      (updates : List (List DataEntry)) (sc : StateCache)
      → Works
      → All (All (λ e. Plain e.key)) updates
      → DataPersisted sc
      → DataPersisted (run_updates updates sc)
  run_updates-DataPersisted [] sc works plain h = h
  run_updates-DataPersisted (es ∷ updates) sc works plain h =
      run_updates-DataPersisted updates (update_data files es sc) works plain.1
        (update_data-DataPersisted works es sc plain.0 h)

  load_reads_files :
      (sc : StateCache) (k : String)
      → DataPersisted sc
      → get_data_entry k (load (new_state_cache sc.disk))
        ≡ option_map files.reread_data (get_data_entry k sc)
  unfolding get_data_entry load new_state_cache find
  load_reads_files sc k h =
      find-load_data k sc.disk.data_files [] h.keyed h.distinct
      ∙ right (find k sc.disk.data_files)
      ∙ h.same k
    where
      right : (o : Option DataEntry) → or_else o none ≡ o
      right none = refl
      right (some e) = refl

abbrev pub empty_disk : Disk
empty_disk = record {
  metadata_file = none;
  secrets_file = none;
  data_files = [];
  report_files = [];
}

-- After any updates of the data of a new cache whose writes work, a cache that is loaded from the files
-- answers every read of a data entry with what is read back of the entry that the running cache has,
-- whose payload the file may hold in another layout, or with nothing if it has none: the files of
-- entries that an update leaves out are gone, and no file of another entry is. The keys are such that
-- their files stand in the directory under the keys.
pub data_recovered :
    (files : Files) (updates : List (List DataEntry)) (k : String)
    → Works files
    → All (All (λ e. Plain files e.key)) updates
    → get_data_entry k
        (load (new_state_cache (run_updates files updates (new_state_cache empty_disk)).disk))
      ≡ option_map files.reread_data
          (get_data_entry k (run_updates files updates (new_state_cache empty_disk)))
data_recovered files updates k works plain =
    load_reads_files files (run_updates files updates (new_state_cache empty_disk)) k
      (run_updates-DataPersisted files updates (new_state_cache empty_disk) works plain started)
  where
    started : DataPersisted files (new_state_cache empty_disk)
    started =
        unfold new_state_cache find in
        record {
          same = λ j. refl;
          keyed = tt;
          distinct = tt;
          plain = λ j there. absurd (none_there j there);
        }
