-- ===== src/Fs/Files/Destination.antt =====
-- fs/fs.go: RenameFile and CopyFile, which put a file into a destination that is a directory.
use go_irodsclient.Base.{
  ℕ, ◌≡◌, ◌≤◌, refl, Bool, true, false, List, Option, none, some, Bytes, if◌then◌else◌, arith,
}
use go_irodsclient.Util.Path.{get_correct_irods_path, get_irods_path_file_name, make_irods_path}
use go_irodsclient.Fs.Cache.{GoCache, directory_entry, Entry}
use go_irodsclient.Fs.Cache.Invalidate.{FileSystem}
use go_irodsclient.Fs.Files.{Server, of_kind, stat_dir, exists_reply}
use go_irodsclient.Fs.Files.Catalog.{Catalog, Coherent, IsCatalog}
use go_irodsclient.Fs.Files.Replies.{reply_of, Answering, of_kind-some}
use go_irodsclient.Fs.Files.Answers.{get_collection-Agrees}
use go_irodsclient.Fs.Files.Operations.{Outcome, copy_file_to_file}
use go_irodsclient.Fs.Files.Renaming.{OpenHandle, rename_file_to_file}

-- The path in a destination with the name of a source.
abbrev pub into : Bool → Bytes → Bytes → Bytes
into is_dir src dest = if is_dir then make_irods_path dest (get_irods_path_file_name src) else dest

module _ (G : GoCache) (S : Server) where
  -- The destination, and the file system after ExistsDir.
  unfoldable pub destination : ℕ → Bytes → Bytes → S.State → FileSystem G → Bytes × FileSystem G
  unfolding stat_dir exists_reply get_correct_irods_path
  destination now src_path dest_path w fs =
      let src = get_correct_irods_path src_path in
      let dest = get_correct_irods_path dest_path in
      let (found, seen) = stat_dir G S now dest w fs in (into (exists_reply found) src dest, seen)

  unfoldable pub rename_file :
      ℕ → Bytes → Bytes → List OpenHandle → S.State → FileSystem G → Outcome G S
  unfolding destination rename_file_to_file get_correct_irods_path
  rename_file now src_path dest_path handles w fs =
      let (dest, seen) = destination now src_path dest_path w fs in
      rename_file_to_file G S now (get_correct_irods_path src_path) dest handles w seen

  unfoldable pub copy_file : ℕ → Bytes → Bytes → Bool → S.State → FileSystem G → Outcome G S
  unfolding destination copy_file_to_file get_correct_irods_path
  copy_file now src_path dest_path force w fs =
      let (dest, seen) = destination now src_path dest_path w fs in
      copy_file_to_file G S now (get_correct_irods_path src_path) dest force w seen

-- Whether there is an entry.
abbrev pub is_held : Option Entry → Bool
is_held none = false
is_held (some e) = true

exists_reply-reply_of :
    (o : Option Entry)
    → ((e : Entry) → o ≡ some e → 1 ≤ e.id)
    → exists_reply (reply_of o) ≡ is_held o
unfolding exists_reply
exists_reply-reply_of none h = refl
exists_reply-reply_of (some e) h = ground (arith, h e refl)

-- If the caches agree with the catalog of the server, and the server answers the requests for the destination, which is
-- given in its correct form, then RenameFile and CopyFile go into the destination exactly if the server holds a
-- directory there, whatever is cached.
pub destination-server :
    (G : GoCache) (S : Server) (view : S.State → Catalog)
    → IsCatalog S view
    → (now : ℕ) (w : S.State) (src_path dest_path : Bytes) (fs : FileSystem G)
    → get_correct_irods_path dest_path ≡ dest_path
    → Answering S w dest_path
    → Coherent G now (view w) fs.cache
    → (destination G S now src_path dest_path w fs).0
      ≡ into
          (is_held (of_kind G directory_entry (view w dest_path)))
          (get_correct_irods_path src_path)
          dest_path
unfolding destination stat_dir
destination-server G S view law now w src_path dest_path fs correct a h =
    let held = of_kind G directory_entry (view w dest_path) in
    let answer = (get_collection-Agrees G S view law now w dest_path fs a h).0 in
    let positive : exists_reply (reply_of held) ≡ is_held held = exists_reply-reply_of held λ e k.
      (law.at_path w dest_path e (of_kind-some G directory_entry (view w dest_path) e k)).1 in
    rw (correct, correct, answer, positive) refl
