-- ===== src/NodeApi/Cache.antt =====
-- internal/nodeapi/cache.go: the state cache. A file of the disk is what json.Unmarshal gives for its
-- content, and the files of a directory stand under their names without .json. Versions are natural
-- numbers: they start at 1 and only grow. Texts are valid UTF-8, which encoding/json keeps.
use plexd.Base.{ℕ, ◌+◌, String, List, [], ◌∷◌, Bool, not, Option, none, some, if◌then◌else◌}
use plexd.Base.GoMap.{GoMap, find, has, store, delete, keys}
use plexd.Base.Int.{ℤ, pos, eqb_ℤ}
use plexd.Api.Envelope.{Bytes}
use plexd.Api.Types.{DataEntry, SecretRef}

pub record ReportEntry : Type 0 where
  pub key : String
  pub content_type : String
  pub payload : Bytes
  pub version : ℕ
  pub updated_at : ℕ

-- The files under the state directory.
pub record Disk : Type 0 where
  pub metadata_file : Option (GoMap String)
  pub secrets_file : Option (List SecretRef)
  pub data_files : GoMap DataEntry
  pub report_files : GoMap ReportEntry

-- What the libraries make of a write: whether it fails, which is only logged; the name under which the file
-- of a key stands in its directory, as filepath.Join cleans the path, or `none` if the path leads
-- elsewhere; and what is read back of an entry, whose payload json.MarshalIndent indents anew.
pub record Files : Type 0 where
  pub fails : String → Bool
  pub place : String → Option String
  pub reread_data : DataEntry → DataEntry
  pub reread_report : ReportEntry → ReportEntry

pub record StateCache : Type 0 where
  pub metadata : GoMap String
  pub entries : GoMap DataEntry
  pub secret_index : List SecretRef
  pub reports : GoMap ReportEntry
  pub disk : Disk

pub data CacheError : Type 0 where
  version_conflict not_found : CacheError

-- The new cache of a data directory.
unfoldable pub new_state_cache : Disk → StateCache
new_state_cache disk = record {
  metadata = [];
  entries = [];
  secret_index = [];
  reports = [];
  disk = disk;
}

unfoldable pub load_data : GoMap DataEntry → GoMap DataEntry → GoMap DataEntry
load_data [] m = m
load_data ((name, e) ∷ files) m = load_data files (store e.key e m)

unfoldable pub load_reports : GoMap ReportEntry → GoMap ReportEntry → GoMap ReportEntry
load_reports [] m = m
load_reports ((name, e) ∷ files) m = load_reports files (store e.key e m)

unfoldable pub load : StateCache → StateCache
load sc = record sc {
  metadata = elim sc.disk.metadata_file [ none ↦ sc.metadata | some m ↦ m ];
  secret_index = elim sc.disk.secrets_file [ none ↦ sc.secret_index | some refs ↦ refs ];
  entries = load_data sc.disk.data_files [];
  reports = load_reports sc.disk.report_files [];
}

unfoldable pub new_data : List DataEntry → GoMap DataEntry → GoMap DataEntry
new_data [] m = m
new_data (e ∷ es) m = new_data es (store e.key e m)

unfoldable pub old_keys : List DataEntry → GoMap DataEntry → GoMap DataEntry
old_keys [] m = m
old_keys (e ∷ es) m = old_keys es (delete e.key m)

-- A write of a file that leads elsewhere, and the removal of one, leave the files of the directory.
unfoldable pub write_at : {A : Type 0} → Option String → A → GoMap A → GoMap A
write_at none a files = files
write_at (some name) a files = store name a files

unfoldable pub remove_at : {A : Type 0} → Option String → GoMap A → GoMap A
remove_at none files = files
remove_at (some name) files = delete name files

module _ (files : Files) where
  unfoldable pub update_metadata : GoMap String → StateCache → StateCache
  update_metadata m sc = record sc {
    metadata = m;
    disk =
        if files.fails "metadata.json" then sc.disk else record sc.disk { metadata_file = some m };
  }

  unfoldable pub update_secret_index : List SecretRef → StateCache → StateCache
  update_secret_index refs sc = record sc {
    secret_index = refs;
    disk =
        if files.fails "secrets.json" then sc.disk else record sc.disk { secrets_file = some refs };
  }

  unfoldable pub persist_data : List DataEntry → GoMap DataEntry → GoMap DataEntry
  persist_data [] written = written
  persist_data (e ∷ es) written = persist_data es (
      if files.fails e.key
      then written
      else write_at (files.place e.key) (files.reread_data e) written)

  -- The remaining keys of the old entries: those that no new entry has.
  unfoldable pub remove_files : List String → GoMap DataEntry → GoMap DataEntry
  remove_files [] written = written
  remove_files (k ∷ ks) written = remove_files ks (remove_at (files.place k) written)

  unfoldable pub update_data : List DataEntry → StateCache → StateCache
  update_data es sc = record sc {
    entries = new_data es [];
    disk = record sc.disk {
      data_files =
          remove_files (keys (old_keys es sc.entries)) (persist_data es sc.disk.data_files);
    };
  }

  unfoldable pub write_report : ReportEntry → StateCache → StateCache
  write_report e sc = record sc {
    reports = store e.key e sc.reports;
    disk = if files.fails e.key then sc.disk else record sc.disk {
      report_files = write_at (files.place e.key) (files.reread_report e) sc.disk.report_files;
    };
  }

  unfoldable pub put_report :
      String → String → Bytes → Option ℤ → ℕ → StateCache → StateCache × Option CacheError
  put_report key content_type payload if_match now sc =
      let put : ℕ → StateCache × Option CacheError = λ version. (
        write_report
            (record {
              key = key;
              content_type = content_type;
              payload = payload;
              version = version;
              updated_at = now;
            })
            sc,
        none,
      ) in
      elim (find key sc.reports) [
        | some e ↦ elim if_match [
          | some m ↦
              if eqb_ℤ m (pos e.version) then put (e.version + 1) else (sc, some version_conflict)
          | none ↦ put (e.version + 1)
        ]
        | none ↦ elim if_match [
          | some m ↦ if eqb_ℤ m (pos 0) then put 1 else (sc, some version_conflict)
          | none ↦ put 1
        ]
      ]

  -- The removal of the file is not tested.
  unfoldable pub delete_report : String → StateCache → StateCache × Option CacheError
  delete_report key sc = if not (has key sc.reports) then (sc, some not_found) else (
    record sc {
      reports = delete key sc.reports;
      disk = record sc.disk { report_files = remove_at (files.place key) sc.disk.report_files };
    },
    none,
  )

unfoldable pub get_report : String → StateCache → Option ReportEntry
get_report key sc = find key sc.reports

unfoldable pub get_data_entry : String → StateCache → Option DataEntry
get_data_entry key sc = find key sc.entries

unfoldable pub get_metadata_key : String → StateCache → Option String
get_metadata_key key sc = find key sc.metadata
