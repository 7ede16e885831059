-- ===== src/Fs/Cache/Less.antt =====
-- Answers of the caches that are as before or gone.
use go_irodsclient.Base.{
  ◌≡◌, refl, ◌∙◌, Bool, true, false, Option, none, if◌then◌else◌, ◌⊎◌, inl, inr,
}
use go_irodsclient.Fs.Cache.Seen.{Seen}

-- Answers that are as before or gone.
pub record Less (t s : Seen) : Type 0 where
  pub enabled : t.enabled ≡ s.enabled
  pub immediate : t.immediate ≡ s.immediate
  pub entry : (t.entry ≡ none) ⊎ (t.entry ≡ s.entry)
  pub negative : t.negative ≡ s.negative
  pub dir : (t.dir ≡ none) ⊎ (t.dir ≡ s.dir)
  pub metadata : (t.metadata ≡ none) ⊎ (t.metadata ≡ s.metadata)
  pub acl : (t.acl ≡ none) ⊎ (t.acl ≡ s.acl)

pub record Gone (s : Seen) : Type 0 where
  pub entry : s.entry ≡ none
  pub dir : s.dir ≡ none
  pub metadata : s.metadata ≡ none
  pub acl : s.acl ≡ none

none_or {ℓ} :
    {A : Type ℓ} {u t s : Option A}
    → (u ≡ none) ⊎ (u ≡ t)
    → (t ≡ none) ⊎ (t ≡ s)
    → (u ≡ none) ⊎ (u ≡ s)
none_or (inl e) h = inl e
none_or (inr e) (inl f) = inl (e ∙ f)
none_or (inr e) (inr f) = inr (e ∙ f)

pub gone_or {ℓ} : {A : Type ℓ} {t s : Option A} → (t ≡ none) ⊎ (t ≡ s) → s ≡ none → t ≡ none
gone_or (inl e) h = e
gone_or (inr e) h = e ∙ h

pub Less-refl : (s : Seen) → Less s s
Less-refl s = record {
  enabled = refl;
  immediate = refl;
  entry = inr refl;
  negative = refl;
  dir = inr refl;
  metadata = inr refl;
  acl = inr refl;
}

pub Less-trans : {u t s : Seen} → Less u t → Less t s → Less u s
Less-trans h k = record {
  enabled = h.enabled ∙ k.enabled;
  immediate = h.immediate ∙ k.immediate;
  entry = none_or h.entry k.entry;
  negative = h.negative ∙ k.negative;
  dir = none_or h.dir k.dir;
  metadata = none_or h.metadata k.metadata;
  acl = none_or h.acl k.acl;
}

pub Gone-Less : {t s : Seen} → Less t s → Gone s → Gone t
Gone-Less h k = record {
  entry = gone_or h.entry k.entry;
  dir = gone_or h.dir k.dir;
  metadata = gone_or h.metadata k.metadata;
  acl = gone_or h.acl k.acl;
}

pub without_dir : (b : Bool) (s : Seen) → Less (if b then record s { dir = none } else s) s
without_dir true s = record {
  enabled = refl;
  immediate = refl;
  entry = inr refl;
  negative = refl;
  dir = inl refl;
  metadata = inr refl;
  acl = inr refl;
}
without_dir false s = Less-refl s

pub without_acl : (b : Bool) (s : Seen) → Less (if b then record s { acl = none } else s) s
without_acl true s = record {
  enabled = refl;
  immediate = refl;
  entry = inr refl;
  negative = refl;
  dir = inr refl;
  metadata = inr refl;
  acl = inl refl;
}
without_acl false s = Less-refl s

pub without_entry : (b : Bool) (s : Seen) → Less (if b then record s { entry = none } else s) s
without_entry true s = record {
  enabled = refl;
  immediate = refl;
  entry = inl refl;
  negative = refl;
  dir = inr refl;
  metadata = inr refl;
  acl = inr refl;
}
without_entry false s = Less-refl s
