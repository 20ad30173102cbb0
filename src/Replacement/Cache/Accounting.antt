-- ===== src/Replacement/Cache/Accounting.antt =====
-- core/replacement/CacheReplacement.cpp: the sizes of the keys in memory, added up.
use rdfcache_k.Prelude.{
  not, ◌||◌, find-erase_ne, ◌&&◌, ◌==◌, erase_key, find-assign_ne, find-assign_self, ◌≢◌, assign,
  ◌≡◌, ◌+◌, ℕ, List, refl, [], ◌∷◌, true, false, arith,
}
use rdfcache_k.Replacement.Strategy.{Strategy}
use rdfcache_k.Replacement.Cache.{insert, size_of, size_or_zero, contains, remove}

-- The sizes of these keys together.
unfoldable pub total_size : List (ℕ × ℕ) → List ℕ → ℕ
total_size sizes [] = 0
total_size sizes (k ∷ ks) = size_of sizes k + total_size sizes ks

-- No key stands twice.
unfoldable pub AreDistinct : List ℕ → Type 0
AreDistinct [] = Unit {0}
AreDistinct (k ∷ ks) = (contains ks k ≡ false) × AreDistinct ks

-- Two maps give a key the same size.
abbrev pub SameSizes : List (ℕ × ℕ) → List (ℕ × ℕ) → Type 0
SameSizes m n = (k : ℕ) → size_of m k ≡ size_of n k

pub size-assign_self : (m : List (ℕ × ℕ)) (k v : ℕ) → size_of (assign m k v) k ≡ v
unfolding size_of size_or_zero
size-assign_self m k v = rw (find-assign_self m k v) refl

pub size-assign_ne : (m : List (ℕ × ℕ)) (k j v : ℕ) → j ≢ k → size_of (assign m k v) j ≡ size_of m j
unfolding size_of
size-assign_ne m k j v h = rw (find-assign_ne m k j v h) refl

pub size-erase_ne : (m : List (ℕ × ℕ)) (k j : ℕ) → j ≢ k → size_of (erase_key m k) j ≡ size_of m j
unfolding size_of
size-erase_ne m k j h = rw (find-erase_ne m k j h) refl

pub total-same :
    (m n : List (ℕ × ℕ)) (ks : List ℕ)
    → ((j : ℕ) → contains ks j ≡ true → size_of m j ≡ size_of n j)
    → total_size m ks ≡ total_size n ks
unfolding total_size contains
total-same m n [] h = refl
total-same m n (k ∷ ks) h =
    omega (arith, h k (ground arith), total-same m n ks (λ j c. h j (ground (arith, c))))

pub total-insert :
    {S : Type 0} (strategy : Strategy S) (s : S) (m : List (ℕ × ℕ)) (ks : List ℕ) (key : ℕ)
    → total_size m (insert strategy s ks key) ≡ size_of m key + total_size m ks
unfolding insert total_size
total-insert strategy s m [] key = refl
total-insert strategy s m (k ∷ ks) key = ground (arith, total-insert strategy s m ks key)

pub contains-insert :
    {S : Type 0} (strategy : Strategy S) (s : S) (ks : List ℕ) (key j : ℕ)
    → contains (insert strategy s ks key) j ≡ (j == key || contains ks j)
unfolding insert contains
contains-insert strategy s [] key j = refl
contains-insert strategy s (k ∷ ks) key j = ground (arith, contains-insert strategy s ks key j)

pub AreDistinct-insert :
    {S : Type 0} (strategy : Strategy S) (s : S) (ks : List ℕ) (key : ℕ)
    → AreDistinct ks
    → contains ks key ≡ false
    → AreDistinct (insert strategy s ks key)
unfolding insert AreDistinct contains
AreDistinct-insert strategy s [] key d h = (refl, tt)
AreDistinct-insert strategy s (k ∷ ks) key d h = ground (
  arith,
  contains-insert strategy s ks key k,
  AreDistinct-insert strategy s ks key d.1 (ground arith),
)

pub contains-remove :
    (ks : List ℕ) (key j : ℕ)
    → AreDistinct ks
    → contains (remove ks key) j ≡ (contains ks j && not (j == key))
unfolding remove contains AreDistinct
contains-remove [] key j d = refl
contains-remove (k ∷ ks) key j d = ground (arith, contains-remove ks key j d.1, d.0)

pub AreDistinct-remove : (ks : List ℕ) (key : ℕ) → AreDistinct ks → AreDistinct (remove ks key)
unfolding remove contains AreDistinct
AreDistinct-remove [] key d = tt
AreDistinct-remove (k ∷ ks) key d =
    ground (arith, contains-remove ks key k d.1, AreDistinct-remove ks key d.1)

pub total-remove :
    (m : List (ℕ × ℕ)) (ks : List ℕ) (key : ℕ)
    → contains ks key ≡ true
    → size_of m key + total_size m (remove ks key) ≡ total_size m ks
unfolding remove contains total_size
total-remove m [] key h = absurd (ground arith)
total-remove m (k ∷ ks) key h = ground (arith, total-remove m ks key)
