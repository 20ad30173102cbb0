-- ===== src/K2Tree/Mixed/Topology.antt =====
-- The bits that K2TreeMixed.cpp writes for the nodes above the cut, as a sequence in preorder.
pub mod Marks
pub mod Written
pub mod Parsed
use rdfcache_k.Prelude.{
  ℕ, zero, suc, ◌+◌, ◌-◌, ◌*◌, ◌/◌, ◌%◌, ◌≤◌, ◌<◌, ◌≡◌, refl, subst, ◌∙◌, Bool, true, false, Option,
  none, some, List, [], ◌∷◌, ◌++◌, length, length-append, get_elem?, arith,
}
use rdfcache_k.Prelude.Bits.{test_bit}
use rdfcache_k.K2Tree.Mixed.{K2Node, to_list, sum_children, count_k2nodes_wchildren}

abbrev pub is_some : {A : Type 0} → Option A → Bool
is_some none = false
is_some (some a) = true

abbrev pub presence : {A : Type 0} → List (Option A) → List Bool
presence [] = []
presence (c ∷ cs) = is_some c ∷ presence cs

abbrev pub children_bits : {A : Type 0} → (A → List Bool) → List (Option A) → List Bool
children_bits bits [] = []
children_bits bits (none ∷ cs) = children_bits bits cs
children_bits bits (some c ∷ cs) = bits c ++ children_bits bits cs

-- Four bits for each node, then those of its children.
unfoldable pub topology : (r : ℕ) → K2Node r → List Bool
topology zero node = []
topology (suc r) node = presence (to_list node) ++ children_bits (topology r) (to_list node)

pub length-children_bits :
    {A : Type 0} (bits : A → List Bool) (size : A → ℕ)
    → ((a : A) → length (bits a) ≡ 4 * size a)
    → (cs : List (Option A)) → length (children_bits bits cs) ≡ 4 * sum_children size cs
unfolding sum_children
length-children_bits bits size h [] = refl
length-children_bits bits size h (none ∷ cs) = length-children_bits bits size h cs
length-children_bits bits size h (some c ∷ cs) = omega (
  arith,
  h c,
  length-append (bits c) (children_bits bits cs),
  length-children_bits bits size h cs,
)

pub length-topology :
    (r : ℕ) (node : K2Node r) → length (topology r node) ≡ 4 * count_k2nodes_wchildren r node
unfolding topology count_k2nodes_wchildren
length-topology zero node = refl
length-topology (suc r) node = omega (
  arith,
  length-children_bits (topology r) (count_k2nodes_wchildren r) (length-topology r) (to_list node),
)

-- Bit `p` of a vector of words, the highest bit of each word first.
abbrev pub bit_of : Option ℕ → ℕ → Bool
bit_of none p = false
bit_of (some c) p = test_bit c (31 - p % 32)

unfoldable pub bit_at : List ℕ → ℕ → Bool
bit_at containers p = bit_of (get_elem? containers (p / 32)) p

pub bit_at-some :
    (xs : List ℕ) (p c : ℕ)
    → get_elem? xs (p / 32) ≡ some c
    → bit_at xs p ≡ test_bit c (31 - p % 32)
unfolding bit_at
bit_at-some xs p c e = rw e

-- The bits from `p` on are these.
abbrev pub Holds : (ℕ → Bool) → ℕ → List Bool → Type 0
Holds b p [] = Unit {0}
Holds b p (x ∷ xs) = (b p ≡ x) × Holds b (suc p) xs

pub Holds-agree :
    (b b' : ℕ → Bool) (p : ℕ) (xs : List Bool)
    → ((q : ℕ) → p ≤ q → q < p + length xs → b' q ≡ b q)
    → Holds b p xs
    → Holds b' p xs
Holds-agree b b' p [] h held = tt
Holds-agree b b' p (x ∷ xs) h held = (
  h p (omega arith) (omega arith) ∙ held.0,
  Holds-agree b b' (suc p) xs (λ q l r. h q (omega arith) (omega arith)) held.1,
)

pub Holds-append :
    (b : ℕ → Bool) (p : ℕ) (xs ys : List Bool)
    → Holds b p xs
    → Holds b (p + length xs) ys
    → Holds b p (xs ++ ys)
Holds-append b p [] ys h k = subst (λ q. Holds b q ys) (omega arith) k
Holds-append b p (x ∷ xs) ys h k =
    (h.0, Holds-append b (suc p) xs ys h.1 (subst (λ q. Holds b q ys) (omega arith) k))

pub Holds-split :
    (b : ℕ → Bool) (p : ℕ) (xs ys : List Bool)
    → Holds b p (xs ++ ys)
    → Holds b p xs × Holds b (p + length xs) ys
Holds-split b p [] ys h = (tt, subst (λ q. Holds b q ys) (omega arith) h)
Holds-split b p (x ∷ xs) ys h =
    let rest = Holds-split b (suc p) xs ys h.1 in
    ((h.0, rest.0), subst (λ q. Holds b q ys) (omega arith) rest.1)
