-- ===== src/Fs/Cache/MapCache.antt =====
-- An implementation of the cache library's interface by maps, for runs of the code with it.
use go_irodsclient.Base.{
  ℕ, ◌≤◌, ◌⊎◌, ◌≡◌, refl, Bool, true, false, List, [], Option, none, some, Bytes, arith,
  if◌then◌else◌, Option-cases, inl, inr,
}
use go_irodsclient.Base.Text.{eq_text}
use go_irodsclient.Base.TextMaps.{
  find, put, remove_key, keys_of, has_text, find-put, find-remove_key, has_text-keys_of,
}
use go_irodsclient.Fs.Cache.{GoCache, lives}

pub record Stored (V : Type 0) : Type 0 where
  pub value : V
  pub set_at : ℕ
  pub ttl : ℕ

abbrev pub stored : {V : Type 0} → V → ℕ → ℕ → Stored V
stored v now ttl = record { value = v; set_at = now; ttl = ttl }

pub record Items (V : Type 0) : Type 0 where
  pub span : ℕ
  pub items : List (Bytes × Stored V)

abbrev pub alive : {V : Type 0} → ℕ → ℕ → Option (Stored V) → Option V
alive span now none = none
alive span now (some s) = if lives span s.set_at s.ttl now then some s.value else none

pub alive_if :
    {V : Type 0} (span now : ℕ) (b : Bool) (o p : Option (Stored V))
    → alive span now (if b then o else p) ≡ (if b then alive span now o else alive span now p)
alive_if span now true o p = refl
alive_if span now false o p = refl

pub alive_later :
    {V : Type 0} (span before now : ℕ) (o : Option (Stored V))
    → before ≤ now
    → (alive span now o ≡ none) ⊎ (alive span now o ≡ alive span before o)
unfolding lives
alive_later span before now none le = inl refl
alive_later span before now (some s) le = ground (arith, le)

pub alive-some :
    {V : Type 0} (span now : ℕ) (key : Bytes) (v : V) (entries : List (Bytes × Stored V))
    → alive span now (find key entries) ≡ some v
    → has_text key (keys_of entries) ≡ true
alive-some span now key v entries h = elim (Option-cases (find key entries)) [
  | inl e ↦ absurd (ground (arith, e, h))
  | inr (s, e) ↦ has_text-keys_of key s entries e
]

pub nothing_found :
    {V : Type 0} (span now : ℕ) (k : Bytes) → alive {V = V} span now (find k []) ≡ none
unfolding find
nothing_found span now k = refl

abbrev pub maps : GoCache
maps = record {
  Cache = Items;
  fresh = λ d. record { span = d; items = [] };
  timeout = λ c. c.span;
  get = λ now k c. alive c.span now (find k c.items);
  set = λ now k v ttl c. record c { items = put k (stored v now ttl) c.items };
  delete = λ k c. record c { items = remove_key k c.items };
  flush = λ c. record c { items = [] };
  keys = λ now c. keys_of c.items;
  get-fresh = λ now d k. nothing_found d now k;
  get-set = λ before now ttl k at v c le.
      rw (find-put k at (stored v before ttl) c.items)
        (alive_if c.span now (eq_text k at) (some (stored v before ttl)) (find at c.items));
  get-delete = λ now k at c.
      rw (find-remove_key k at c.items) (alive_if c.span now (eq_text k at) none (find at c.items));
  get-flush = λ now k c. nothing_found c.span now k;
  get-keys = λ now k v c h. alive-some c.span now k v c.items h;
  get-later = λ before now k c le. alive_later c.span before now (find k c.items) le;
}
