-- ===== src/ExternalSort/Orders.antt =====
-- algorithms/triple_external_sort.hpp: what sorting means, and permutations of lists.
use rdfcache_k.Prelude.{
  map, suc, ◌≡◌, List, [], ◌∷◌, ◌++◌, refl, sym, ap, ◌∙◌, subst, All, length, Bool, true, false,
  inl, inr, ◌⊎◌,
}
use mathlib.Core.List.{Permᴰ as Perm}

module _ {A : Type 0} where
  -- An element of a list, at some place.
  unfoldable pub Among : A → List A → Type 0
  Among a [] = ⊥
  Among a (x ∷ xs) = (a ≡ x) ⊎ Among a xs

  pub All-Among {κ} : (P : A → Type κ) (xs : List A) (a : A) → All P xs → Among a xs → P a
  unfolding Among
  All-Among P [] a h m = absurd m
  All-Among P (x ∷ xs) a h (inl e) = subst P (sym e) h.0
  All-Among P (x ∷ xs) a h (inr m) = All-Among P xs a h.1 m

  pub All-Perm {κ} : (P : A → Type κ) {xs ys : List A} → Perm xs ys → All P xs → All P ys
  All-Perm P Perm.nil h = h
  All-Perm P (Perm.cons e d) h = (subst P e h.0, All-Perm P d h.1)
  All-Perm P (Perm.swap e f) h = (subst P f h.1.0, (subst P e h.0, h.1.1))
  All-Perm P (Perm.trans d e) h = All-Perm P e (All-Perm P d h)

  pub Among-Perm : (a : A) {xs ys : List A} → Perm xs ys → Among a xs → Among a ys
  unfolding Among
  Among-Perm a Perm.nil m = m
  Among-Perm a (Perm.cons e d) (inl h) = inl (h ∙ e)
  Among-Perm a (Perm.cons e d) (inr m) = inr (Among-Perm a d m)
  Among-Perm a (Perm.swap e f) (inl h) = inr (inl (h ∙ e))
  Among-Perm a (Perm.swap e f) (inr (inl h)) = inl (h ∙ f)
  Among-Perm a (Perm.swap e f) (inr (inr m)) = inr (inr m)
  Among-Perm a (Perm.trans d e) m = Among-Perm a e (Among-Perm a d m)

  pub Among-tail : (a x : A) (xs : List A) → (a ≡ x → ⊥) → Among a (x ∷ xs) → Among a xs
  unfolding Among
  Among-tail a x xs h (inl e) = absurd (h e)
  Among-tail a x xs h (inr m) = m

  pub length-Perm : {xs ys : List A} → Perm xs ys → length xs ≡ length ys
  length-Perm Perm.nil = refl
  length-Perm (Perm.cons e d) = ap suc (length-Perm d)
  length-Perm (Perm.swap e f) = refl
  length-Perm (Perm.trans d e) = length-Perm d ∙ length-Perm e

  unfoldable pub concat : List (List A) → List A
  concat [] = []
  concat (xs ∷ xss) = xs ++ concat xss

  pub All-left {κ} : (P : A → Type κ) (xs ys : List A) → All P (xs ++ ys) → All P xs
  All-left P [] ys h = tt
  All-left P (x ∷ xs) ys h = (h.0, All-left P xs ys h.1)

  pub All-right {κ} : (P : A → Type κ) (xs ys : List A) → All P (xs ++ ys) → All P ys
  All-right P [] ys h = h
  All-right P (x ∷ xs) ys h = All-right P xs ys h.1

  pub All-mono {κ μ} :
      (P : A → Type κ) (Q : A → Type μ) (xs : List A) → ((a : A) → P a → Q a) → All P xs → All Q xs
  All-mono P Q [] f h = tt
  All-mono P Q (x ∷ xs) f h = (f x h.0, All-mono P Q xs f h.1)

module _ {A : Type 0} (less : A → A → Bool) where
  -- The comparator does not put `y` in front of `x`.
  abbrev pub Before : A → A → Type 0
  Before x y = less y x ≡ false

  -- The comparator puts one of the two in front of the other.
  abbrev pub Apart : A → A → Type 0
  Apart x y = (less x y ≡ true) ⊎ (less y x ≡ true)

  -- No two elements, at different places, are equal for the comparator.
  unfoldable pub Distinct : List A → Type 0
  Distinct [] = Unit {0}
  Distinct (x ∷ xs) = All (Apart x) xs × Distinct xs

  Apart-sym : (x y : A) → Apart x y → Apart y x
  Apart-sym x y (inl h) = inr h
  Apart-sym x y (inr h) = inl h

  All-same : (x y : A) (xs : List A) → x ≡ y → All (Apart x) xs → All (Apart y) xs
  All-same x y xs e h = subst (λ v. All (Apart v) xs) e h

  Apart-same : (x y x' y' : A) → x ≡ x' → y ≡ y' → Apart x y → Apart y' x'
  Apart-same x y x' y' e f h = Apart-sym x' y' (subst (Apart x') f (subst (λ v. Apart v y) e h))

  pub Distinct-Perm : {xs ys : List A} → Perm xs ys → Distinct xs → Distinct ys
  unfolding Distinct
  Distinct-Perm Perm.nil h = h
  Distinct-Perm (Perm.cons e d) h =
      (All-Perm (Apart _) d (All-same _ _ _ e h.0), Distinct-Perm d h.1)
  Distinct-Perm (Perm.swap e f) h =
      ((Apart-same _ _ _ _ e f h.0.0, All-same _ _ _ f h.1.0), (All-same _ _ _ e h.0.1, h.1.1))
  Distinct-Perm (Perm.trans d e) h = Distinct-Perm e (Distinct-Perm d h)

  pub Distinct-left : (xs ys : List A) → Distinct (xs ++ ys) → Distinct xs
  unfolding Distinct
  Distinct-left [] ys h = tt
  Distinct-left (x ∷ xs) ys h = (All-left (Apart x) xs ys h.0, Distinct-left xs ys h.1)

  pub Distinct-right : (xs ys : List A) → Distinct (xs ++ ys) → Distinct ys
  unfolding Distinct
  Distinct-right [] ys h = h
  Distinct-right (x ∷ xs) ys h = Distinct-right xs ys h.1

  unfoldable pub Sorted : List A → Type 0
  Sorted [] = Unit {0}
  Sorted (x ∷ xs) = All (Before x) xs × Sorted xs

module _ {A B : Type 0} where
  pub map-Perm : (f : A → B) {xs ys : List A} → Perm xs ys → Perm (map f xs) (map f ys)
  map-Perm f Perm.nil = Perm.nil
  map-Perm f (Perm.cons e d) = Perm.cons (ap f e) (map-Perm f d)
  map-Perm f (Perm.swap e g) = Perm.swap (ap f e) (ap f g)
  map-Perm f (Perm.trans d e) = Perm.trans (map-Perm f d) (map-Perm f e)
