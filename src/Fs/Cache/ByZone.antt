-- ===== src/Fs/Cache/ByZone.antt =====
-- Users and groups in the caches of their zones.
use go_irodsclient.Base.{
  ℕ, ◌≡◌, refl, ap, ◌∙◌, Bool, false, List, Option, none, some, Bytes, if◌then◌else◌, arith,
  Bool-cases, inl, inr,
}
use go_irodsclient.Base.Text.{eq_text, eq_text_iff, eq_text_self}
use go_irodsclient.Base.TextMaps.{find, find-put}
use go_irodsclient.Fs.Cache.{GoCache, IrodsUser, CacheConfig, FileSystemCache}
use go_irodsclient.Fs.Cache.Seen.{get-set_now}
use go_irodsclient.Fs.Cache.Zones.{
  or_fresh, get_in, change_found, zone_set, zone_get, zone_delete, add_user_cache, get_user_cache,
  remove_user_cache, add_user_list_cache, get_user_list_cache, add_group_member_cache,
  get_group_member_cache, add_user_group_cache, get_user_group_cache, remove_user_list_cache,
  remove_group_member_cache, remove_user_group_cache,
}

module _ (G : GoCache) (now : ℕ) {V : Type 0} where
  get_fresh :
      (config : CacheConfig) (k : Bytes) (o : Option (G.Cache V))
      → G.get now k (or_fresh G config o) ≡ get_in G now k o
  get_fresh config k none = G.get-fresh {V = V} now config.timeout k
  get_fresh config k (some items) = refl

  deleted :
      (key z k : Bytes) (o : Option (G.Cache V)) (zones : List (Bytes × G.Cache V))
      → find z zones ≡ o
      → get_in G now k (find z (change_found G (G.delete key) z o zones))
        ≡ (if eq_text key k then none else get_in G now k o)
  deleted key z k none zones e = rw e (ground arith)
  deleted key z k (some items) zones e =
      rw (find-put z z (G.delete key items) zones, eq_text_self z) (G.get-delete now key k items)

  kept :
      (key zone z : Bytes) (o : Option (G.Cache V)) (zones : List (Bytes × G.Cache V))
      → eq_text zone z ≡ false
      → find z (change_found G (G.delete key) zone o zones) ≡ find z zones
  kept key zone z none zones f = refl
  kept key zone z (some items) zones f = rw (find-put zone z (G.delete key items) zones, f) refl

  zone_get-zone_set :
      (config : CacheConfig) (zone key z k : Bytes) (v : V) (zones : List (Bytes × G.Cache V))
      → zone_get G now z k (zone_set G now config zone key v zones) ≡ (
          if eq_text zone z
          then (if eq_text key k then some v else zone_get G now z k zones)
          else zone_get G now z k zones)
  unfolding zone_set zone_get
  zone_get-zone_set config zone key z k v zones =
      let items = G.set now key v 0 (or_fresh G config (find zone zones)) in
      rw (find-put zone z items zones) (elim (Bool-cases (eq_text zone z)) [
        | inl f ↦
            rw (f, (eq_text_iff zone z).0 f)
              (get-set_now G now 0 key k v (or_fresh G config (find z zones))
                ∙ ap (λ o. if eq_text key k then some v else o) (get_fresh config k (find z zones)))
        | inr f ↦ rw f refl
      ])

  zone_get-zone_delete :
      (zone key z k : Bytes) (zones : List (Bytes × G.Cache V))
      → zone_get G now z k (zone_delete G zone key zones) ≡ (
          if eq_text zone z
          then (if eq_text key k then none else zone_get G now z k zones)
          else zone_get G now z k zones)
  unfolding zone_delete zone_get
  zone_get-zone_delete zone key z k zones = elim (Bool-cases (eq_text zone z)) [
    | inl f ↦ rw (f, (eq_text_iff zone z).0 f) (deleted key z k (find z zones) zones refl)
    | inr f ↦ rw f (ap (get_in G now k) (kept key zone z (find zone zones) zones f))
  ]

-- What is found at a name in a zone, after one of the names was set to `o` with caching on.
abbrev pub changed_at {ℓ} : {A : Type ℓ} → Bool → Bool → Bool → Option A → Option A → Option A
changed_at off same_zone same_name o old =
    if off then none else if same_zone then (if same_name then o else old) else old

module _ (G : GoCache) (now : ℕ) where
  -- For each kind of item that is cached by zone (users, lists of users, members of a group, groups of a user): after
  -- it is added, it is found at its own zone and name if caching is on, and what is found at any other zone or
  -- name is as before.
  pub get_by_zone-add :
      (user : IrodsUser) (zone name z k : Bytes) (names : List Bytes) (c : FileSystemCache G)
      → let off = c.config.no_cache in
        (get_user_cache G now k z (add_user_cache G now user c)
          ≡ changed_at off
              (eq_text user.zone z)
              (eq_text user.name k)
              (some user)
              (get_user_cache G now k z c))
        × (get_user_list_cache G now z k (add_user_list_cache G now zone name names c)
            ≡ changed_at off
                (eq_text zone z)
                (eq_text name k)
                (some names)
                (get_user_list_cache G now z k c))
        × (get_group_member_cache G now k z (add_group_member_cache G now name zone names c)
            ≡ changed_at off
                (eq_text zone z)
                (eq_text name k)
                (some names)
                (get_group_member_cache G now k z c))
        × (get_user_group_cache G now z k (add_user_group_cache G now zone name names c)
            ≡ changed_at off
                (eq_text zone z)
                (eq_text name k)
                (some names)
                (get_user_group_cache G now z k c))
  unfolding add_user_cache get_user_cache add_user_list_cache get_user_list_cache
      add_group_member_cache get_group_member_cache add_user_group_cache get_user_group_cache
  get_by_zone-add user zone name z k names c = elim (Bool-cases c.config.no_cache) [
    | inl e ↦ simp e (refl, refl, refl, refl)
    | inr e ↦ simp e (
      zone_get-zone_set G now c.config user.zone user.name z k user c.user_cache,
      zone_get-zone_set G now c.config zone name z k names c.user_list_cache,
      zone_get-zone_set G now c.config zone name z k names c.group_member_cache,
      zone_get-zone_set G now c.config zone name z k names c.user_group_cache,
    )
  ]

  -- For each kind of item that is cached by zone: after it is removed, nothing is found at its zone and name, and
  -- what is found at any other zone or name is as before.
  pub get_by_zone-remove :
      (zone name z k : Bytes) (c : FileSystemCache G)
      → let off = c.config.no_cache in
        let same_zone = eq_text zone z in
        let same_name = eq_text name k in
        (get_user_cache G now k z (remove_user_cache G name zone c)
          ≡ changed_at off same_zone same_name none (get_user_cache G now k z c))
        × (get_user_list_cache G now z k (remove_user_list_cache G zone name c)
            ≡ changed_at off same_zone same_name none (get_user_list_cache G now z k c))
        × (get_group_member_cache G now k z (remove_group_member_cache G name zone c)
            ≡ changed_at off same_zone same_name none (get_group_member_cache G now k z c))
        × (get_user_group_cache G now z k (remove_user_group_cache G zone name c)
            ≡ changed_at off same_zone same_name none (get_user_group_cache G now z k c))
  unfolding remove_user_cache get_user_cache remove_user_list_cache get_user_list_cache
      remove_group_member_cache get_group_member_cache remove_user_group_cache get_user_group_cache
  get_by_zone-remove zone name z k c = elim (Bool-cases c.config.no_cache) [
    | inl e ↦ simp e (refl, refl, refl, refl)
    | inr e ↦ simp e (
      zone_get-zone_delete G now zone name z k c.user_cache,
      zone_get-zone_delete G now zone name z k c.user_list_cache,
      zone_get-zone_delete G now zone name z k c.group_member_cache,
      zone_get-zone_delete G now zone name z k c.user_group_cache,
    )
  ]
