-- ===== src/Fs/Files/TableLaws.antt =====
-- The table answers and changes as a server does.
use go_irodsclient.Base.{◌≡◌, ◌≤◌, ap, sym, List, [], ◌∷◌, Option, none, some, Bytes, arith}
use go_irodsclient.Base.TextMaps.{find}
use go_irodsclient.Fs.Cache.{file_entry, directory_entry, Entry}
use go_irodsclient.Fs.Files.{
  ok, not_found, IrodsCollection, IrodsDataObject, IrodsReplica, new_entry_from_collection,
  new_entry_from_data_object,
}
use go_irodsclient.Fs.Files.Catalog.{IsCatalog}
use go_irodsclient.Fs.Files.TableServer.{
  Leaf, dir_leaf, file_leaf, collection_at, replica_at, object_at, entry_of, view, collection_reply,
  object_reply, table,
}

entry_of-path :
    (p : Bytes) (o : Option Leaf) (e : Entry) → entry_of p o ≡ some e → (e.path ≡ p) × (1 ≤ e.id)
unfolding new_entry_from_collection new_entry_from_data_object
entry_of-path p none e h = absurd (ground (arith, h))
entry_of-path p (some (dir_leaf id time)) e h = (ground (arith, h), ground (arith, h))
entry_of-path p (some (file_leaf id size time)) e h = (ground (arith, h), ground (arith, h))

got_collection :
    (p : Bytes) (o : Option Leaf) (c : IrodsCollection)
    → collection_reply p o ≡ ok c
    → entry_of p o ≡ some (new_entry_from_collection c)
got_collection p none c h = absurd (ground (arith, h))
got_collection p (some (dir_leaf id time)) c h =
    let same : collection_at p id time ≡ c = ground (arith, h) in
    ap (λ c. some (new_entry_from_collection c)) same
got_collection p (some (file_leaf id size time)) c h = absurd (ground (arith, h))

no_collection :
    (p : Bytes) (o : Option Leaf) (e : Entry)
    → collection_reply p o ≡ not_found
    → entry_of p o ≡ some e
    → e.kind ≡ file_entry
unfolding new_entry_from_data_object
no_collection p none e n h = absurd (ground (arith, h))
no_collection p (some (dir_leaf id time)) e n h = absurd (ground (arith, n))
no_collection p (some (file_leaf id size time)) e n h = ground (arith, h)

got_data_object :
    (p : Bytes) (o : Option Leaf) (d : IrodsDataObject)
    → object_reply p o ≡ ok d
    → (first : IrodsReplica) × (rest : List IrodsReplica) × (d.replicas ≡ first ∷ rest)
      × (entry_of p o ≡ some (new_entry_from_data_object d first))
got_data_object p none d h = absurd (ground (arith, h))
got_data_object p (some (dir_leaf id time)) d h = absurd (ground (arith, h))
got_data_object p (some (file_leaf id size time)) d h =
    let same : object_at p id size time ≡ d = ground (arith, h) in
    (
      replica_at time,
      [],
      ap (λ d. d.replicas) (sym same),
      ap (λ d. some (new_entry_from_data_object d (replica_at time))) same,
    )

no_data_object :
    (p : Bytes) (o : Option Leaf) (e : Entry)
    → object_reply p o ≡ not_found
    → entry_of p o ≡ some e
    → e.kind ≡ directory_entry
unfolding new_entry_from_collection
no_data_object p none e n h = absurd (ground (arith, h))
no_data_object p (some (dir_leaf id time)) e n h = ground (arith, h)
no_data_object p (some (file_leaf id size time)) e n h = absurd (ground (arith, n))

pub table-IsCatalog : IsCatalog table view
table-IsCatalog = record {
  at_path = λ w p e h. entry_of-path p (find p w) e h;
  got_collection = λ w p c h. got_collection p (find p w) c h;
  no_collection = λ w p e n h. no_collection p (find p w) e n h;
  got_data_object = λ w p o h. got_data_object p (find p w) o h;
  no_data_object = λ w p e n h. no_data_object p (find p w) e n h;
}
