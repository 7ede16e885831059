-- ===== src/Fs/Files/Tests.antt =====
-- Runs of the file system on a table, with caches that are maps.
use go_irodsclient.Base.{
  ℕ, ◌≡◌, ◌⊎◌, ◌≢◌, refl, ap, sym, ◌∙◌, true, false, List, [], ◌∷◌, some, Bytes, codes, arith,
  Bool-cases, inl, inr,
}
use go_irodsclient.Base.Text.{eq_text, eq_text_iff}
use go_irodsclient.Base.TextMaps.{find, put, remove_key, has_text}
use go_irodsclient.Util.Path.{get_irods_path_dirname, get_correct_irods_path}
use go_irodsclient.Fs.Cache.{
  CacheConfig, file_entry, directory_entry, Entry, new_file_system_cache, lives,
}
use go_irodsclient.Fs.Cache.MapCache.{maps}
use go_irodsclient.Fs.Cache.Invalidate.{FileSystem}
use go_irodsclient.Fs.Files.{
  Server, Reply, ok, not_found, failed, of_kind, stat, stat_dir, stat_file,
  new_entry_from_collection, new_entry_from_data_object,
}
use go_irodsclient.Fs.Files.Catalog.{Coherent}
use go_irodsclient.Fs.Files.Replies.{reply_of, Answering}
use go_irodsclient.Fs.Files.Stat.{stat-server}
use go_irodsclient.Fs.Files.Entries.{Listing}
use go_irodsclient.Fs.Files.ListEntries.{list-server, Whole}
use go_irodsclient.Fs.Files.Operations.{list}
use go_irodsclient.Fs.Files.Steps.{
  Operation, stat_it, list_it, remove_file_it, copy_it, rename_it, perform, Run, done, next,
}
use go_irodsclient.Fs.Files.InStep.{InStep}
use go_irodsclient.Fs.Files.Invariant.{fresh-Coherent}
use go_irodsclient.Fs.Files.TableServer.{dir_leaf, file_leaf, Table, view, table}
use go_irodsclient.Fs.Files.TableEffects.{table-IsEffective}
use go_irodsclient.Fs.Files.TableLaws.{table-IsCatalog}

abbrev config : CacheConfig
config = record {
  timeout = 60;
  cleanup_time = 0;
  metadata_timeout_settings = [];
  invalidate_parent_entry_cache_immediately = true;
  start_new_transaction = false;
  no_cache = false;
}

abbrev start : FileSystem maps
start = record {
  cache = new_file_system_cache maps config;
  cache_event_handlers = [];
  told = [];
  propagated = [];
}

abbrev files : Table
files = (codes "/a", dir_leaf 4 7) ∷ (codes "/a/f", file_leaf 5 20 8) ∷ []

-- After a copy and the removal of what was copied, the copy is found and the original is not.
perform_all : ℕ → List Operation → Table × FileSystem maps → Table × FileSystem maps
unfolding perform
perform_all now [] s = s
perform_all now (op ∷ ops) s = perform_all now ops (perform maps table now op s)

replies : Table × FileSystem maps → List (Reply Entry)
unfolding stat
replies (w, fs) =
    (stat maps table 4 (codes "/a/f") w fs).0
    ∷ (stat maps table 4 (codes "/a/g/") w fs).0
    ∷ (stat maps table 4 (codes "/b") w fs).0
    ∷ []

copy_and_remove :
    replies (
      perform_all 3
        (list_it (codes "/a")
          ∷ copy_it (codes "/a/f") (codes "/a/g") false
          ∷ stat_it (codes "/a/g")
          ∷ remove_file_it (codes "/a/f") false true
          ∷ [])
        (files, start))
    ≡ not_found
      ∷ ok (record { id = 3; kind = file_entry; path = codes "/a/g"; size = 20; modify_time = 9 })
      ∷ not_found
      ∷ []
unfolding replies perform_all stat perform find put new_file_system_cache lives remove_key
copy_and_remove = refl

-- Once the root was listed, Stat of the root says that there is none.
rooted : Table
rooted = (codes "/", dir_leaf 1 7) ∷ (codes "/a", dir_leaf 4 7) ∷ []

root_missing :
    (stat maps table 4 (codes "/") rooted (list maps table 3 (codes "/") rooted start).1).0
    ≡ not_found
unfolding stat list rooted new_file_system_cache find remove_key lives
root_missing = refl

answering : Answering table files (codes "/a/f")
unfolding find
answering = record {
  connection = refl;
  collection = inr refl;
  data_object = inl (
    record {
      id = 6;
      path = codes "/a/f";
      size = 20;
      replicas = record { number = 0; modify_time = 8 } ∷ [];
    },
    refl,
  );
}

nested : get_irods_path_dirname (codes "/a/f") ≢ codes "/a/f"
unfolding get_irods_path_dirname eq_text
nested e = ground (arith, (eq_text_iff (get_irods_path_dirname (codes "/a/f")) (codes "/a/f")).1 e)

start-Coherent : Coherent maps 3 (view files) start.cache
start-Coherent =
    fresh-Coherent maps table view table-IsCatalog table-IsEffective 3 config (view files)

stat-server_example :
    let held = view files (get_correct_irods_path (codes "/a/f")) in
    let a = stat maps table 3 (codes "/a/f") files start in
    let b = stat_dir maps table 3 (codes "/a/f") files start in
    let c = stat_file maps table 3 (codes "/a/f") files start in
    ((a.0 ≡ reply_of held) × Coherent maps 3 (view files) a.1.cache)
    × ((b.0 ≡ reply_of (of_kind maps directory_entry held))
        × Coherent maps 3 (view files) b.1.cache)
    × ((c.0 ≡ reply_of (of_kind maps file_entry held)) × Coherent maps 3 (view files) c.1.cache)
unfolding get_correct_irods_path eq_text
stat-server_example =
    stat-server maps table view table-IsCatalog 3 files (codes "/a/f") start nested answering
      start-Coherent

-- The paths of the table.
where_found :
    (q : Bytes) (e : Entry) → view files q ≡ some e → (q ≡ codes "/a") ⊎ (q ≡ codes "/a/f")
unfolding find
where_found q e h = elim (Bool-cases (eq_text (codes "/a") q)) [
  | inl f ↦ inl (sym ((eq_text_iff (codes "/a") q).0 f))
  | inr f ↦ elim (Bool-cases (eq_text (codes "/a/f") q)) [
    | inl g ↦ inr (sym ((eq_text_iff (codes "/a/f") q).0 g))
    | inr g ↦ absurd (ground (arith, f, g, h))
  ]
]

is_dir : (e : Entry) → view files (codes "/a") ≡ some e → e.kind ≡ directory_entry
unfolding find new_entry_from_collection eq_text
is_dir e h = ground (arith, h)

is_file : (e : Entry) → view files (codes "/a/f") ≡ some e → e.kind ≡ file_entry
unfolding find new_entry_from_data_object eq_text
is_file e h = ground (arith, h)

listing : Listing table (view files) files (codes "/a")
unfolding get_irods_path_dirname eq_text find has_text
listing = record {
  connection = refl;
  collections = [];
  got_collections = refl;
  listed_collections = tt;
  all_collections = λ e l k. elim (where_found e.path e l.0) [
    | inl f ↦ absurd (l.1.1 f)
    | inr f ↦ absurd (ground (arith, is_file e (ap (view files) (sym f) ∙ l.0), k))
  ];
  data_objects =
      record {
        id = 6;
        path = codes "/a/f";
        size = 20;
        replicas = record { number = 0; modify_time = 8 } ∷ [];
      }
      ∷ [];
  got_data_objects = refl;
  listed_data_objects = (
    record {
      first = record { number = 0; modify_time = 8 };
      rest = [];
      replicas = refl;
      entry = refl;
      child = (refl, λ e. ground (arith, (eq_text_iff (codes "/a/f") (codes "/a")).1 e));
    },
    tt,
  );
  all_data_objects = λ e l k. elim (where_found e.path e l.0) [
    | inl f ↦ absurd (ground (arith, is_dir e (ap (view files) (sym f) ∙ l.0), k))
    | inr f ↦ ap (λ q. has_text q (codes "/a/f" ∷ [])) f
  ];
}

list-server_example :
    (es : List Entry) × ((list maps table 3 (codes "/a/") files start).0 ≡ ok es)
    × Whole (view files) (get_correct_irods_path (codes "/a/")) es
    × Coherent maps 3 (view files) (list maps table 3 (codes "/a/") files start).1.cache
unfolding get_correct_irods_path eq_text
list-server_example =
    list-server maps table view table-IsCatalog 3 files (codes "/a/") start listing start-Coherent

-- A listing, a copy, a removal and a renaming, at the times 3, 3, 5 and 6.
abbrev listed : Table × FileSystem maps
listed = perform maps table 3 (list_it (codes "/a")) (files, start)

abbrev copied : Table × FileSystem maps
copied = perform maps table 3 (copy_it (codes "/a/f") (codes "/a/g") false) listed

abbrev removed : Table × FileSystem maps
removed = perform maps table 5 (remove_file_it (codes "/a/f") false true) copied

only_file :
    (e : Entry)
    → view copied.0 (get_correct_irods_path (codes "/a/f")) ≡ some e
    → e.kind ≡ file_entry
unfolding perform find put new_entry_from_data_object get_correct_irods_path eq_text
only_file e h = ground (arith, h)

abbrev renamed : Table × FileSystem maps
renamed = perform maps table 6 (rename_it (codes "/a/g") (codes "/a/h")) removed

-- The new path is found, with what was at the old one.
renamed_found :
    (stat maps table 7 (codes "/a/h") renamed.0 renamed.1).0
    ≡ ok (record { id = 3; kind = file_entry; path = codes "/a/h"; size = 20; modify_time = 9 })
unfolding stat perform find put new_file_system_cache lives remove_key
renamed_found = refl

run : Run maps table view 0 (files, start) 6 renamed
unfolding perform get_correct_irods_path find eq_text put remove_key
run =
    next 0 (files, start) 3 (list_it (codes "/a")) 6 renamed (omega arith) listing
      (next 3 listed 3 (copy_it (codes "/a/f") (codes "/a/g") false) 6 renamed (omega arith)
        (refl, tt)
        (next 3 copied 5 (remove_file_it (codes "/a/f") false true) 6 renamed (omega arith)
          (only_file, tt)
          (next 5 removed 6 (rename_it (codes "/a/g") (codes "/a/h")) 6 renamed (omega arith) tt
            (done 6 renamed))))

-- A server that makes a copy whose reply is lost. A path that was noted as missing stays so, although the copy is there:
-- a run with such a request is not allowed.
abbrev lossy : Server
lossy = record table {
  copy_data_object = λ src dest force w. (failed, (table.copy_data_object src dest force w).1);
}

lost_copy :
    let missed = perform maps lossy 3 (stat_it (codes "/a/g")) (files, start) in
    let copied = perform maps lossy 4 (copy_it (codes "/a/f") (codes "/a/g") false) missed in
    ((stat maps lossy 5 (codes "/a/g") copied.0 copied.1).0 ≡ not_found)
    × (view copied.0 (codes "/a/g")
        ≡ some
            (record { id = 3; kind = file_entry; path = codes "/a/g"; size = 20; modify_time = 9 }))
unfolding stat perform find put new_file_system_cache lives
lost_copy = (refl, refl)
