-- ===== src/NodeApi/Tests.antt =====
-- internal/nodeapi/cache.go: runs of a small cache.
use plexd.Base.{
  if◌then◌else◌, String, List, [], ◌∷◌, false, none, some, ◌≡◌, ◌≢◌, refl, ◌==◌, eq_iff, arith,
}
use plexd.Base.GoMap.{find, has, store, delete, keys}
use plexd.Base.Int.{ℤ, pos}
use plexd.Api.Types.{DataEntry}
use plexd.NodeApi.Cache.{
  Files, write_at, remove_at, StateCache, version_conflict, new_state_cache, write_report,
  put_report, delete_report, get_data_entry, load, update_data, new_data, old_keys, persist_data,
  remove_files, load_data, load_reports,
}
use plexd.NodeApi.Versions.{put, remove, report_calls, second_put_conflicts}
use plexd.NodeApi.Recovery.{option_map, run_updates, empty_disk, data_recovered}

-- A file holds a payload with a space before it, as a layout of its own.
abbrev reread : DataEntry → DataEntry
reread e = record e { payload = 32 ∷ e.payload }

abbrev files : Files
files = record {
  fails = λ k. false;
  place = λ k. (if k == "../metadata" then none else some k);
  reread_data = reread;
  reread_report = λ e. e;
}

abbrev cache : StateCache
cache = new_state_cache empty_disk

program : Unit {0}
unfolding new_state_cache write_report put_report delete_report get_data_entry load update_data
    new_data old_keys persist_data remove_files write_at remove_at load_data load_reports find has
    store delete keys
program = tt

apart : (a b : String) → (a == b) ≡ false → a ≢ b
apart a b h e = (let t = (eq_iff a b).1 e in ground arith)

second_put_conflicts_example :
    put_report files "r" "text" [] (some (pos 0)) 9 (
      report_calls files
        (remove "s" ∷ put "r" "text" [] none 8 ∷ [])
        (put_report files "r" "text" [] (some (pos 0)) 7 cache).0)
    ≡ (
      report_calls files
          (remove "s" ∷ put "r" "text" [] none 8 ∷ [])
          (put_report files "r" "text" [] (some (pos 0)) 7 cache).0,
      some version_conflict,
    )
second_put_conflicts_example =
    second_put_conflicts files 0 "r" "text" "text" [] [] 7 9
      (remove "s" ∷ put "r" "text" [] none 8 ∷ []) cache (apart "s" "r" refl, (tt, tt))
      (unfold program in refl)

-- A deletion starts the versions again, and a version that was read before it matches once more.
deleted_example :
    (put_report files "r" "text" [] (some (pos 1)) 9 (
      report_calls files
        (remove "r" ∷ put "r" "text" [] none 8 ∷ [])
        (put_report files "r" "text" [] none 7 cache).0)).1
    ≡ none
unfolding program
deleted_example = refl

abbrev entry : String → ℤ → DataEntry
entry k v = record { key = k; content_type = "text"; payload = []; version = v; updated_at = 0 }

abbrev updates : List (List DataEntry)
updates = (entry "a" (pos 1) ∷ entry "b" (pos 1) ∷ []) ∷ (entry "b" (pos 2) ∷ []) ∷ []

gone_example : get_data_entry "a" (run_updates files updates cache) ≡ none
unfolding program
gone_example = refl

-- A key with path elements leaves no file in the directory.
astray : (update_data files (entry "../metadata" (pos 1) ∷ []) cache).disk.data_files ≡ []
unfolding program
astray = refl

data_recovered_example :
    get_data_entry "b"
      (load (new_state_cache (run_updates files updates (new_state_cache empty_disk)).disk))
    ≡ option_map reread
        (get_data_entry "b" (run_updates files updates (new_state_cache empty_disk)))
data_recovered_example =
    data_recovered files updates "b" (record { writes = λ k. refl; keeps_key = λ e. refl })
      ((refl, (refl, tt)), ((refl, tt), tt))
