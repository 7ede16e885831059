-- ===== src/Fs/Files/Catalog.antt =====
-- What the server holds, and that the caches agree with it.
use go_irodsclient.Base.{ℕ, ◌≤◌, ◌≡◌, ◌≢◌, true, List, ◌∷◌, Option, none, some, Bytes}
use go_irodsclient.Base.TextMaps.{has_text}
use go_irodsclient.Util.Path.{get_irods_path_dirname}
use go_irodsclient.Fs.Cache.{GoCache, file_entry, directory_entry, Entry, FileSystemCache}
use go_irodsclient.Fs.Cache.Seen.{Seen, seen}
use go_irodsclient.Fs.Files.{
  ok, not_found, Server, IrodsReplica, IrodsCollection, IrodsDataObject, new_entry_from_collection,
  new_entry_from_data_object,
}

-- The entries of the server by path.
abbrev pub Catalog : Type 0
Catalog = Bytes → Option Entry

-- `r` is directly under `q`; the root is not under itself.
abbrev pub Child : Bytes → Bytes → Type 0
Child q r = (get_irods_path_dirname r ≡ q) × (r ≢ q)

-- What the caches answer about a path agrees with the catalog. A cached listing may be too long, but leaves no
-- entry out.
pub record CoherentAt (at : Catalog) (q : Bytes) (s : Seen) : Type 0 where
  pub entry : (e : Entry) → s.entry ≡ some e → at q ≡ some e
  pub negative : s.negative ≡ true → at q ≡ none
  pub complete :
      (ps : List Bytes)
      → s.dir ≡ some ps
      → (r : Bytes) → Child q r
      → at r ≢ none
      → has_text r ps ≡ true
  pub placed : (ps : List Bytes) → s.dir ≡ some ps → (r : Bytes) → has_text r ps ≡ true → Child q r

-- The caches agree with the catalog at every path.
abbrev pub Coherent : (G : GoCache) → ℕ → Catalog → FileSystemCache G → Type 0
Coherent G now at c = (q : Bytes) → CoherentAt at q (seen G now c q)

-- Of one collection or data object that is listed under `p`.
abbrev pub ListedCollection : Catalog → Bytes → IrodsCollection → Type 0
ListedCollection at p c = (at c.path ≡ some (new_entry_from_collection c)) × Child p c.path

pub record ListedDataObject (at : Catalog) (p : Bytes) (o : IrodsDataObject) : Type 0 where
  pub first : IrodsReplica
  pub rest : List IrodsReplica
  pub replicas : o.replicas ≡ first ∷ rest
  pub entry : at o.path ≡ some (new_entry_from_data_object o first)
  pub child : Child p o.path

-- That the catalog is as before, but at `p` and its parent, which does not come into being.
pub record Apart (p : Bytes) (at later : Catalog) : Type 0 where
  pub other : (q : Bytes) → q ≢ p → q ≢ get_irods_path_dirname p → later q ≡ at q
  pub parent : at (get_irods_path_dirname p) ≡ none → later (get_irods_path_dirname p) ≡ none

pub record Removed (p : Bytes) (at later : Catalog) : Type 0 where
  pub apart : Apart p at later
  pub gone : later p ≡ none

pub record Created (p : Bytes) (at later : Catalog) : Type 0 where
  pub apart : Apart p at later
  pub absent : at p ≡ none
  pub child : Child (get_irods_path_dirname p) p

pub record Updated (p : Bytes) (at later : Catalog) : Type 0 where
  pub other : (q : Bytes) → q ≢ p → later q ≡ at q
  pub was_there : at p ≢ none

-- The server keeps a catalog and answers by it. What the changing requests do is in Effects.
pub record IsCatalog (S : Server) (view : S.State → Catalog) : Type 0 where
  pub at_path :
      (w : S.State) (p : Bytes) (e : Entry) → view w p ≡ some e → (e.path ≡ p) × (1 ≤ e.id)
  pub got_collection :
      (w : S.State) (p : Bytes) (c : IrodsCollection)
      → S.get_collection w p ≡ ok c
      → view w p ≡ some (new_entry_from_collection c)
  pub no_collection :
      (w : S.State) (p : Bytes) (e : Entry)
      → S.get_collection w p ≡ not_found
      → view w p ≡ some e
      → e.kind ≡ file_entry
  pub got_data_object :
      (w : S.State) (p : Bytes) (o : IrodsDataObject)
      → S.get_data_object w p ≡ ok o
      → (first : IrodsReplica) × (rest : List IrodsReplica) × (o.replicas ≡ first ∷ rest)
        × (view w p ≡ some (new_entry_from_data_object o first))
  pub no_data_object :
      (w : S.State) (p : Bytes) (e : Entry)
      → S.get_data_object w p ≡ not_found
      → view w p ≡ some e
      → e.kind ≡ directory_entry
