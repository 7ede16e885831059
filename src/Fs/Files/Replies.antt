-- ===== src/Fs/Files/Replies.antt =====
-- What the replies of the server make of the answers of the file system.
use go_irodsclient.Base.{ℕ, ◌≡◌, ◌⊎◌, refl, true, Option, none, some, Bytes, arith}
use go_irodsclient.Fs.Cache.{GoCache, EntryType, file_entry, directory_entry, Entry}
use go_irodsclient.Fs.Cache.Invalidate.{FileSystem}
use go_irodsclient.Fs.Files.{
  Reply, ok, not_found, already_exist, failed, panic, Server, of_kind, get_data_object_no_cache,
  missing, else_missing, else_data_object,
}

-- The answer that an entry of the server, or its absence, stands for.
abbrev pub reply_of : Option Entry → Reply Entry
reply_of none = not_found
reply_of (some e) = ok e

-- A request that is answered: by a result, or by that there is none.
abbrev pub Answered : {A : Type 0} → Reply A → Type 0
Answered {A = A} r = ((a : A) × (r ≡ ok a)) ⊎ (r ≡ not_found)

-- The metadata session has a connection, and both requests for the path are answered.
pub record Answering (S : Server) (w : S.State) (p : Bytes) : Type 0 where
  pub connection : S.metadata_connection w ≡ true
  pub collection : Answered (S.get_collection w p)
  pub data_object : Answered (S.get_data_object w p)

module _ (G : GoCache) where
  pub of_directory :
      (o : Option Entry)
      → ((e : Entry) → o ≡ some e → e.kind ≡ file_entry)
      → of_kind G directory_entry o ≡ none
  of_directory none h = refl
  of_directory (some e) h = rw (h e refl) refl

  pub of_file :
      (o : Option Entry)
      → ((e : Entry) → o ≡ some e → e.kind ≡ directory_entry)
      → of_kind G file_entry o ≡ none
  of_file none h = refl
  of_file (some e) h = rw (h e refl) refl

  pub of_kind-some :
      (kind : EntryType) (o : Option Entry) (e : Entry) → of_kind G kind o ≡ some e → o ≡ some e
  of_kind-some kind none e h = absurd (ground (arith, h))
  of_kind-some kind (some f) e h = ground (arith, h)

  pub of_kind_here :
      (kind : EntryType) (o : Option Entry) (e : Entry)
      → of_kind G kind o ≡ some e
      → of_kind G kind (some e) ≡ some e
  of_kind_here kind none e h = absurd (ground (arith, h))
  of_kind_here kind (some f) e h = ground (arith, h)

  pub one_kind :
      (o : Option Entry) → of_kind G directory_entry o ≡ none → of_kind G file_entry o ≡ o
  one_kind none h = refl
  one_kind (some e) h = one_kind_some e e.kind refl h
    where
      one_kind_some :
          (e : Entry) (k : EntryType)
          → e.kind ≡ k
          → of_kind G directory_entry (some e) ≡ none
          → of_kind G file_entry (some e) ≡ some e
      one_kind_some e directory_entry f h = absurd (ground (arith, f, h))
      one_kind_some e file_entry f h = rw f refl

  pub else_data_object-ok :
      (S : Server) (now : ℕ) (p : Bytes) (w : S.State) (r : Reply Entry × FileSystem G) (e : Entry)
      → r.0 ≡ ok e
      → else_data_object G S now p w r ≡ r
  else_data_object-ok S now p w (ok a, fs) e h = refl
  else_data_object-ok S now p w (not_found, fs) e h = absurd (ground (arith, h))
  else_data_object-ok S now p w (already_exist, fs) e h = refl
  else_data_object-ok S now p w (failed, fs) e h = refl
  else_data_object-ok S now p w (panic, fs) e h = refl

  pub else_data_object-not_found :
      (S : Server) (now : ℕ) (p : Bytes) (w : S.State) (r : Reply Entry × FileSystem G)
      → r.0 ≡ not_found
      → else_data_object G S now p w r
        ≡ else_missing G S now p (get_data_object_no_cache G S now p w r.1)
  else_data_object-not_found S now p w (ok a, fs) h = absurd (ground (arith, h))
  else_data_object-not_found S now p w (not_found, fs) h = refl
  else_data_object-not_found S now p w (already_exist, fs) h = absurd (ground (arith, h))
  else_data_object-not_found S now p w (failed, fs) h = absurd (ground (arith, h))
  else_data_object-not_found S now p w (panic, fs) h = absurd (ground (arith, h))

  pub else_missing-reply :
      (S : Server) (now : ℕ) (p : Bytes) (r : Reply Entry × FileSystem G)
      → (o : Option Entry) → r.0 ≡ reply_of o
      → else_missing G S now p r ≡ (elim o [ none ↦ missing G S now p r.1 | some e ↦ (ok e, r.1) ])
  else_missing-reply S now p (r, fs) none h = rw h refl
  else_missing-reply S now p (r, fs) (some e) h = rw h refl
