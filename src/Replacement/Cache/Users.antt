-- ===== src/Replacement/Cache/Users.antt =====
-- core/replacement/CacheReplacement.cpp: the counts of the users of a key.
use rdfcache_k.Prelude.{◌≡◌, find_value, some, ℕ}
use rdfcache_k.Replacement.Cache.{CacheReplacement}

-- No key has a count of zero.
abbrev pub CountsUsers : {S : Type 0} → CacheReplacement S → Type 0
CountsUsers c = (key : ℕ) → find_value c.in_use key ≡ some 0 → ⊥
