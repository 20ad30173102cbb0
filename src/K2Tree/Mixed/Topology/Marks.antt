-- ===== src/K2Tree/Mixed/Topology/Marks.antt =====
-- The four bits of one node: what `mark_children` of K2TreeMixed.cpp sets, and no other.
use mathlib.Core.Path.{subst₂}
use native.Mathlib.Decide.{ℕ_discrete}
use rdfcache_k.Prelude.{
  ℕ, suc, ◌+◌, ◌-◌, ◌*◌, ◌/◌, ◌%◌, ◌≤◌, ◌<◌, ◌≡◌, refl, sym, subst, ◌∙◌, ap, Bool, false, Option,
  none, some, ◌⊎◌, List, [], ◌∷◌, length, get_elem?, set, get_elem?-set_self, get_elem?-set_ne,
  arith, bit_or, ◌^◌, IsU32,
}
use rdfcache_k.Prelude.Bits.{test_bit, test_bit-bit_or, bit_or-lt-pow}
use rdfcache_k.K2Tree.Mixed.Write.{mark_children}
use rdfcache_k.K2Tree.Mixed.Topology.{presence, bit_at, bit_at-some, Holds}

length-presence : {A : Type 0} (cs : List (Option A)) → length (presence cs) ≡ length cs
length-presence [] = refl
length-presence (c ∷ cs) = ap suc (length-presence cs)

-- The same bits at another place.
Holds-shift :
    (b b' : ℕ → Bool) (p p' : ℕ) (xs : List Bool)
    → ((i : ℕ) → i < length xs → b' (p' + i) ≡ b (p + i))
    → Holds b p xs
    → Holds b' p' xs
Holds-shift b b' p p' [] h held = tt
Holds-shift b b' p p' (x ∷ xs) h held = (
  subst₂ (λ s t. b' s ≡ b t) (omega arith) (omega arith) (h 0 (omega arith)) ∙ held.0,
  Holds-shift b b' (suc p) (suc p') xs
      (λ i l. subst₂ (λ s t. b' s ≡ b t) (omega arith) (omega arith) (h (suc i) (omega arith)))
      held.1,
)

pub mark_children_outside :
    {A : Type 0} (cs : List (Option A)) (start c p : ℕ)
    → start + length cs ≤ 32
    → p < 32
    → (p < start) ⊎ (start + length cs ≤ p)
    → test_bit (mark_children cs start c) (31 - p) ≡ test_bit c (31 - p)
unfolding mark_children
mark_children_outside [] start c p fits h out = refl
mark_children_outside (none ∷ cs) start c p fits h out =
    mark_children_outside cs (start + 1) c p (omega arith) h (omega arith)
mark_children_outside (some x ∷ cs) start c p fits h out =
    mark_children_outside cs (start + 1) (bit_or c (2 ^ (31 - start))) p (omega arith) h
      (omega arith)
    ∙ ground (arith, test_bit-bit_or (31 - start) (31 - p) c)

pub mark_children-Holds :
    {A : Type 0} (cs : List (Option A)) (start c : ℕ)
    → start + length cs ≤ 32
    → ((p : ℕ) → start ≤ p → p < start + length cs → test_bit c (31 - p) ≡ false)
    → Holds (λ p. test_bit (mark_children cs start c) (31 - p)) start (presence cs)
unfolding mark_children
mark_children-Holds [] start c fits clear = tt
mark_children-Holds (none ∷ cs) start c fits clear = (
  mark_children_outside cs (start + 1) c start (omega arith) (omega arith) (omega arith)
      ∙ clear start (omega arith) (omega arith),
  subst (λ q. Holds (λ p. test_bit (mark_children cs (start + 1) c) (31 - p)) q (presence cs))
      (omega arith)
      (mark_children-Holds cs (start + 1) c (omega arith)
        (λ p l r. clear p (omega arith) (omega arith))),
)
mark_children-Holds (some x ∷ cs) start c fits clear =
    let c' = bit_or c (2 ^ (31 - start)) in
    (
      mark_children_outside cs (start + 1) c' start (omega arith) (omega arith) (omega arith)
          ∙ ground (arith, test_bit-bit_or (31 - start) (31 - start) c),
      subst (λ q. Holds (λ p. test_bit (mark_children cs (start + 1) c') (31 - p)) q (presence cs))
          (omega arith)
          (mark_children-Holds cs (start + 1) c' (omega arith) (λ p l r.
            ground (
              arith,
              test_bit-bit_or (31 - start) (31 - p) c,
              clear p (omega arith) (omega arith),
            ))),
    )

pub mark_children-IsU32 :
    {A : Type 0} (cs : List (Option A)) (start c : ℕ) → IsU32 c → IsU32 (mark_children cs start c)
unfolding mark_children
mark_children-IsU32 [] start c h = h
mark_children-IsU32 (none ∷ cs) start c h = mark_children-IsU32 cs (start + 1) c h
mark_children-IsU32 (some x ∷ cs) start c h =
    mark_children-IsU32 cs (start + 1) (bit_or c (2 ^ (31 - start)))
      (bit_or-lt-pow 32 c (31 - start) h (omega arith))

bit_at_same :
    (xs ys : List ℕ) (p : ℕ)
    → get_elem? xs (p / 32) ≡ get_elem? ys (p / 32)
    → bit_at xs p ≡ bit_at ys p
unfolding bit_at
bit_at_same xs ys p e = rw e

-- The marks stored back into the vector.
abbrev pub marked : {A : Type 0} → List (Option A) → List ℕ → ℕ → ℕ → List ℕ
marked cs containers location c =
    set containers (4 * location / 32) (mark_children cs (4 * location % 32) c)

bit_at-marked :
    {A : Type 0} (cs : List (Option A)) (containers : List ℕ) (location c p : ℕ)
    → 4 * location / 32 < length containers
    → p / 32 ≡ 4 * location / 32
    → bit_at (marked cs containers location c) p
      ≡ test_bit (mark_children cs (4 * location % 32) c) (31 - p % 32)
bit_at-marked cs containers location c p room e =
    bit_at-some _ p _ (rw e (get_elem?-set_self containers (4 * location / 32) _ room))

pub marked_outside :
    {A : Type 0} (cs : List (Option A)) (containers : List ℕ) (location c p : ℕ)
    → length cs ≡ 4
    → 4 * location / 32 < length containers
    → get_elem? containers (4 * location / 32) ≡ some c
    → (p < 4 * location) ⊎ (4 * location + 4 ≤ p)
    → bit_at (marked cs containers location c) p ≡ bit_at containers p
marked_outside cs containers location c p four room found out =
    elim (ℕ_discrete (p / 32) (4 * location / 32)) [
      | yes e ↦
          bit_at-marked cs containers location c p room e
          ∙ mark_children_outside cs (4 * location % 32) c (p % 32) (omega arith) (omega arith)
              (omega arith)
          ∙ sym (bit_at-some containers p c (rw e found))
      | no e ↦
          bit_at_same _ containers p
            (get_elem?-set_ne containers (4 * location / 32) (p / 32) _ (λ q. e (sym q)))
    ]

pub marked-Holds :
    {A : Type 0} (cs : List (Option A)) (containers : List ℕ) (location c : ℕ)
    → length cs ≡ 4
    → 4 * location / 32 < length containers
    → get_elem? containers (4 * location / 32) ≡ some c
    → ((p : ℕ) → 4 * location ≤ p → bit_at containers p ≡ false)
    → Holds (bit_at (marked cs containers location c)) (4 * location) (presence cs)
marked-Holds cs containers location c four room found clear =
    let start = 4 * location % 32 in
    let base = 4 * location / 32 * 32 in
    Holds-shift (λ p. test_bit (mark_children cs start c) (31 - p)) _ start (4 * location)
      (presence cs)
      (λ i h.
        bit_at-marked cs containers location c (4 * location + i) room
          (omega (arith, length-presence cs))
        ∙ ap (λ q. test_bit (mark_children cs start c) (31 - q))
            (omega (arith, length-presence cs)))
      (mark_children-Holds cs start c (omega arith) (λ p l r.
        ap (λ q. test_bit c (31 - q)) (omega arith)
        ∙ sym (
            bit_at-some containers (base + p) c
              (subst (λ q. get_elem? containers q ≡ some c) (omega arith) found))
        ∙ clear (base + p) (omega arith)))
