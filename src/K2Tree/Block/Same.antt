-- ===== src/K2Tree/Block/Same.antt =====
-- core/k2tree/block_serialization.cpp: the comparison of two trees of blocks, and equality.
use rdfcache_k.Prelude.{
  subst, refl, [], ◌∷◌, List, ℕ, Bool, true, false, ◌==◌, ◌&&◌, if◌then◌else◌, length, ◌≡◌, ◌↔◌,
  arith,
}
use rdfcache_k.K2Tree.Block.{Block, Frontier, block, no_children, child, preorders}

-- The loop over two arrays of the same size.
unfoldable pub same_words : List ℕ → List ℕ → Bool
same_words (x ∷ xs) (y ∷ ys) = x == y && same_words xs ys
same_words _ _ = true

unfoldable pub same_bvs : Block → Block → Bool
same_bvs (block n vs f) (block n' vs' f') =
    if length vs == length vs' && n == n' then same_words vs vs' else false

unfoldable pub same_block_topologies : Block → Block → Bool
same_block_topologies (block n vs f) (block n' vs' f') =
    n == n' && same_bvs (block n vs f) (block n' vs' f')

-- The frontier of the left block against the right block, with the loop over the children.
unfoldable pub same_block_frontiers : (Frontier → Bool) → Frontier → Block → Bool
same_block_frontiers same_rest f (block n' vs' f') =
    if length (preorders f) == length (preorders f')
    then (if same_words (preorders f) (preorders f') then same_rest f' else false)
    else false

unfoldable mutual
  pub same_blocks : Block → Block → Bool
  same_blocks (block n vs f) r =
      same_block_frontiers (same_children f) f r && same_block_topologies (block n vs f) r

  pub same_children : Frontier → Frontier → Bool
  same_children (child p b f) (child q c g) = same_blocks b c && same_children f g
  same_children _ _ = true

same_words_iff :
    (xs ys : List ℕ)
    → length xs ≡ length ys
    → (same_words xs ys ≡ true → xs ≡ ys) × (xs ≡ ys → same_words xs ys ≡ true)
unfolding same_words
same_words_iff [] [] e = (λ _. refl, λ _. refl)
same_words_iff [] (y ∷ ys) e = absurd (omega arith)
same_words_iff (x ∷ xs) [] e = absurd (omega arith)
same_words_iff (x ∷ xs) (y ∷ ys) e =
    let ih = same_words_iff xs ys (omega arith) in
    (λ h. ground (arith, ih), λ h. ground (arith, ih))

same_block_topologies_iff :
    (n n' : ℕ) (vs vs' : List ℕ) (f f' : Frontier)
    → (same_block_topologies (block n vs f) (block n' vs' f') ≡ true) ↔ ((n ≡ n') × (vs ≡ vs'))
unfolding same_block_topologies same_bvs
same_block_topologies_iff n n' vs vs' f f' =
    (λ h. ground (arith, same_words_iff vs vs'), λ (e, e'). ground (arith, same_words_iff vs vs'))

same_block_frontiers-true :
    (rest : Frontier → Bool) (f f' : Frontier) (n' : ℕ) (vs' : List ℕ)
    → same_block_frontiers rest f (block n' vs' f') ≡ true
    → (length (preorders f) ≡ length (preorders f'))
      × (same_words (preorders f) (preorders f') ≡ true)
      × (rest f' ≡ true)
unfolding same_block_frontiers
same_block_frontiers-true rest f f' n' vs' h = ground arith

and-true : (b c : Bool) → b && c ≡ true → (b ≡ true) × (c ≡ true)
and-true b c h = ground arith

child-eq :
    {p q : ℕ} {b c : Block} {f g : Frontier} → p ≡ q → b ≡ c → f ≡ g → child p b f ≡ child q c g
child-eq h e e' = rw (h, e, e')

block-eq :
    {n n' : ℕ} {vs vs' : List ℕ} {f f' : Frontier}
    → n ≡ n'
    → vs ≡ vs'
    → f ≡ f'
    → block n vs f ≡ block n' vs' f'
block-eq h e e' = rw (h, e, e')

cons-words :
    (p q : ℕ) (ps qs : List ℕ)
    → same_words (p ∷ ps) (q ∷ qs) ≡ true
    → (p ≡ q) × (same_words ps qs ≡ true)
unfolding same_words
cons-words p q ps qs h = ground arith

mutual
  unfolding same_blocks preorders

  same_blocks→eq : (l r : Block) → same_blocks l r ≡ true → l ≡ r
  same_blocks→eq (block n vs f) (block n' vs' f') h =
      let (frontiers, topologies) = and-true _ _ h in
      let (e, w, rest) = same_block_frontiers-true (same_children f) f f' n' vs' frontiers in
      let (en, ev) = (same_block_topologies_iff n n' vs vs' f f').0 topologies in
      block-eq en ev (same_children→eq f f' e w rest)

  same_children→eq :
      (f g : Frontier)
      → length (preorders f) ≡ length (preorders g)
      → same_words (preorders f) (preorders g) ≡ true
      → same_children f g ≡ true
      → f ≡ g
  same_children→eq no_children no_children e w h = refl
  same_children→eq no_children (child q c g) e w h = absurd (omega arith)
  same_children→eq (child p b f) no_children e w h = absurd (omega arith)
  same_children→eq (child p b f) (child q c g) e w h =
      let (heads, tails) = cons-words p q (preorders f) (preorders g) w in
      let (blocks, rest) = and-true (same_blocks b c) (same_children f g) h in
      child-eq heads (same_blocks→eq b c blocks) (same_children→eq f g (omega arith) tails rest)

mutual
  unfolding same_blocks same_block_frontiers

  same_blocks_self : (l : Block) → same_blocks l l ≡ true
  same_blocks_self (block n vs f) = ground (
    arith,
    same_children_self f,
    same_words_iff (preorders f) (preorders f),
    same_block_topologies_iff n n vs vs f f,
  )

  same_children_self : (f : Frontier) → same_children f f ≡ true
  same_children_self no_children = refl
  same_children_self (child p b f) = ground (arith, same_blocks_self b, same_children_self f)

-- Two blocks compare as the same exactly when they are equal: the same size, words, frontier
-- preorders and, recursively, the same child blocks.
pub same_blocks_iff : (l r : Block) → (same_blocks l r ≡ true) ↔ (l ≡ r)
same_blocks_iff l r =
    (same_blocks→eq l r, λ e. subst (λ b. same_blocks l b ≡ true) e (same_blocks_self l))
