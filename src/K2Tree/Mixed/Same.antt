-- ===== src/K2Tree/Mixed/Same.antt =====
-- core/k2tree/K2TreeMixed.cpp: the comparison of the levels above the cut, and equality.
use rdfcache_k.K2Tree.Block.{Block}
use rdfcache_k.Prelude.{
  subst, ap, ◌↔◌, if◌then◌else◌, ◌>>=◌, length, ◌≡◌, suc, ◌&&◌, ℕ, Result, List, Option, Bool, refl,
  ok, err, undefined, not, some, none, [], ◌∷◌, true, false, zero, suc, arith,
}
use rdfcache_k.K2Tree.Mixed.{K2Node, Quad, to_list}
use rdfcache_k.K2Tree.Block.Same.{same_blocks, same_blocks_iff}

unfoldable pub same_bool : Bool → Bool → Bool
same_bool true b = b
same_bool false b = not b

unfoldable pub is_child : {A : Type 0} → Option A → Bool
is_child none = false
is_child (some a) = true

-- The first loop: both nodes have the same children.
unfoldable pub same_presence : {A : Type 0} → List (Option A) → List (Option A) → Bool
same_presence (c ∷ cs) (d ∷ ds) = same_bool (is_child c) (is_child d) && same_presence cs ds
same_presence _ _ = true

-- The second loop, which returns at the first difference.
unfoldable pub same_each :
    {A : Type 0} → (A → A → Result Bool) → List (Option A) → List (Option A) → Result Bool
same_each same (none ∷ cs) (none ∷ ds) = same_each same cs ds
same_each same (none ∷ cs) (some d ∷ ds) = ok false
same_each same (some c ∷ cs) (none ∷ ds) = ok false
same_each same (some c ∷ cs) (some d ∷ ds) =
    let rest = same_each same cs ds in do b ← same c d; if b then rest else ok false
same_each same _ _ = ok true

-- A null block at the cut is dereferenced.
unfoldable pub same_block_children : Option Block → Option Block → Result Bool
same_block_children (some b) (some c) = ok (same_blocks b c)
same_block_children _ _ = err undefined

unfoldable pub same_k2node : (r : ℕ) → K2Node r → K2Node r → Result Bool
same_k2node zero lhs rhs = same_block_children lhs rhs
same_k2node (suc r) lhs rhs =
    if same_presence (to_list lhs) (to_list rhs)
    then same_each (same_k2node r) (to_list lhs) (to_list rhs)
    else ok false

-- Every node at the cut has its block.
abbrev pub AllPresent : {A : Type 0} → (A → Type 0) → List (Option A) → Type 0
AllPresent P [] = Unit {0}
AllPresent P (none ∷ cs) = AllPresent P cs
AllPresent P (some c ∷ cs) = P c × AllPresent P cs

abbrev pub HasBlock : Option Block → Type 0
HasBlock none = ⊥
HasBlock (some b) = Unit {0}

unfoldable pub HasBlocks : (r : ℕ) → K2Node r → Type 0
HasBlocks zero node = HasBlock node
HasBlocks (suc r) node = AllPresent (HasBlocks r) (to_list node)

-- A comparison that answers, and answers whether the two are equal.
abbrev Decides : {A : Type 0} → Result Bool → A → A → Type 0
Decides res x y = (b : Bool) × (res ≡ ok b) × ((b ≡ true) ↔ (x ≡ y))

presence_self : {A : Type 0} (cs : List (Option A)) → same_presence cs cs ≡ true
unfolding same_presence same_bool is_child
presence_self [] = refl
presence_self (none ∷ cs) = presence_self cs
presence_self (some c ∷ cs) = presence_self cs

if_ok : (b' b : Bool) → (if b' then ok b else ok false) ≡ ok (if b' then b else false)
if_ok true b = refl
if_ok false b = refl

module _ {A : Type 0} (P : A → Type 0) (same : A → A → Result Bool)
    (decides : (x y : A) → P x → P y → Decides (same x y) x y) where
  both :
      {c d : A} {cs ds : List (Option A)} (b b' : Bool)
      → (b' ≡ true) ↔ (c ≡ d)
      → (b ≡ true) ↔ (cs ≡ ds)
      → ((if b' then b else false) ≡ true) ↔ (some c ∷ cs ≡ some d ∷ ds)
  both b b' h k = (λ t. ground (arith, h, k), λ e. ground (arith, h, k))

  none_both :
      {cs ds : List (Option A)} (b : Bool)
      → (b ≡ true) ↔ (cs ≡ ds)
      → (b ≡ true) ↔ (none ∷ cs ≡ none ∷ ds)
  none_both b h = (λ t. ground (arith, h), λ e. ground (arith, h))

  each-Decides :
      (cs ds : List (Option A))
      → length cs ≡ length ds
      → AllPresent P cs
      → AllPresent P ds
      → Decides (same_each same cs ds) cs ds
  unfolding same_each
  each-Decides [] [] e h k = (true, refl, (λ _. refl, λ _. refl))
  each-Decides [] (d ∷ ds) e h k = absurd (omega arith)
  each-Decides (c ∷ cs) [] e h k = absurd (omega arith)
  each-Decides (none ∷ cs) (none ∷ ds) e h k =
      let (b, eq, same_rest) = each-Decides cs ds (omega arith) h k in
      (b, eq, none_both b same_rest)
  each-Decides (none ∷ cs) (some d ∷ ds) e h k =
      (false, refl, (λ t. ground arith, λ e'. ground arith))
  each-Decides (some c ∷ cs) (none ∷ ds) e h k =
      (false, refl, (λ t. ground arith, λ e'. ground arith))
  each-Decides (some c ∷ cs) (some d ∷ ds) e h k =
      let (b, eq, same_rest) = each-Decides cs ds (omega arith) h.1 k.1 in
      let (b', eq', same_child) = decides c d h.0 k.0 in
      ((if b' then b else false), rw (eq', eq) (if_ok b' b), both b b' same_child same_rest)

to_list_injective : {A : Type 0} (p q : Quad A) → to_list p ≡ to_list q → p ≡ q
to_list_injective p q e = ground (arith, e)

quad-Decides :
    {A : Type 0} {res : Result Bool} (p q : Quad A)
    → Decides res (to_list p) (to_list q)
    → Decides res p q
quad-Decides p q (b, e, (there, back)) =
    (b, e, (λ t. to_list_injective p q (there t), λ t. back (ap to_list t)))

guarded-Decides :
    {A : Type 0} {x y : A} (p : Bool) (res : Result Bool)
    → Decides res x y
    → (p ≡ false → x ≡ y → ⊥)
    → Decides (if p then res else ok false) x y
guarded-Decides true res h different = h
guarded-Decides false res h different =
    (false, refl, (λ t. ground arith, λ e. absurd (different refl e)))

-- On trees whose nodes at the cut have their blocks, the comparison answers, and it answers `true`
-- exactly when the two trees are equal.
pub same_k2node_iff :
    (r : ℕ) (lhs rhs : K2Node r)
    → HasBlocks r lhs
    → HasBlocks r rhs
    → (b : Bool) × (same_k2node r lhs rhs ≡ ok b) × ((b ≡ true) ↔ (lhs ≡ rhs))
unfolding same_k2node HasBlocks same_block_children
same_k2node_iff zero none rhs h k = absurd h
same_k2node_iff zero (some b) none h k = absurd k
same_k2node_iff zero (some b) (some c) h k = (
  same_blocks b c,
  refl,
  (λ t. ground (arith, same_blocks_iff b c), λ e. ground (arith, same_blocks_iff b c)),
)
same_k2node_iff (suc r) lhs rhs h k =
    guarded-Decides (same_presence (to_list lhs) (to_list rhs)) _
      (quad-Decides lhs rhs (
        each-Decides (HasBlocks r) (same_k2node r) (same_k2node_iff r) (to_list lhs) (to_list rhs)
          refl h k))
      (λ e t.
        subst (λ c. same_presence (to_list lhs) (to_list c) ≡ false → ⊥) t
          (λ f. ground (arith, presence_self (to_list lhs))) e)
