-- ===== src/Fs/Files/Invariant.antt =====
-- The caches of one client agree with the server over runs of allowed operations.
use go_irodsclient.Base.{ℕ, Bool, false, List, none, Bytes, arith, inl}
use go_irodsclient.Fs.Cache.{GoCache, CacheConfig, Entry, new_file_system_cache}
use go_irodsclient.Fs.Cache.Paths.{get_entry_cache, has_negative_entry_cache, get_dir_cache}
use go_irodsclient.Fs.Cache.Seen.{Seen, seen}
use go_irodsclient.Fs.Files.{Server}
use go_irodsclient.Fs.Files.Catalog.{Catalog, Coherent, IsCatalog}
use go_irodsclient.Fs.Files.Effects.{IsEffective}
use go_irodsclient.Fs.Files.InStep.{fewer-CoherentAt, InStep}

abbrev nothing : Seen
nothing = record {
  enabled = false;
  immediate = false;
  entry = none;
  negative = false;
  dir = none;
  metadata = none;
  acl = none;
}

module _ (G : GoCache) (S : Server) (view : S.State → Catalog) (law : IsCatalog S view)
    (effect : IsEffective S view) where
  pub fresh-Coherent :
      (now : ℕ) (config : CacheConfig) (at : Catalog)
      → Coherent G now at (new_file_system_cache G config)
  unfolding seen new_file_system_cache get_entry_cache has_negative_entry_cache get_dir_cache
  fresh-Coherent now config at q =
      fewer-CoherentAt at q (seen G now (new_file_system_cache G config) q) nothing
        (inl (ground (arith, G.get-fresh {V = Entry} now config.timeout q)))
        (inl (ground (arith, G.get-fresh {V = Bool} now config.timeout q)))
        (inl (ground (arith, G.get-fresh {V = List Bytes} now config.timeout q)))
        (record {
          entry = λ e k. absurd (ground (arith, k));
          negative = λ k. absurd (ground (arith, k));
          complete = λ ps k. absurd (ground (arith, k));
          placed = λ ps k. absurd (ground (arith, k));
        })
