-- ===== src/ExternalSort/Merge/Source.antt =====
-- algorithms/triple_external_sort.hpp: what is left of a file while it is merged.
use rdfcache_k.Prelude.{
  inr, inl, Bool-cases, ℕ, suc, ◌+◌, ◌<◌, ◌≡◌, refl, sym, ◌∙◌, subst, arith, List, [], ◌∷◌, ◌++◌,
  append-nil, append_assoc, Option, none, some, Bool, true, false, ltb, lt→ltb, if◌then◌else◌,
  length, Result, ok, All, add64,
}
use rdfcache_k.Stream.{IStream}
use rdfcache_k.ExternalSort.Triples.{TripleValue, FileData, unread}
use rdfcache_k.ExternalSort.Triples.Bytes.{IsTriple, triples_bytes, read_triple-bytes}
use rdfcache_k.ExternalSort.Merge.{refill, MergeSource, fill_block, pop_front, next_from}

-- The stream has the triples that are left to read.
unfoldable pub Unread : Option IStream → FileData → List TripleValue → Type 0
Unread none fd us = us ≡ []
Unread (some is) fd us = (is ≡ triples_bytes us) × (fd.size ≡ fd.current_triple + length us)

-- These triples are left: those of the block and those of the file.
pub record Holds (s : MergeSource) (rest : List TripleValue) : Type 0 where
  pub later : List TripleValue
  pub parts : rest ≡ s.block ++ later
  pub in_file : Unread s.opened_file s.file_data later
  pub fit : All IsTriple later

-- What `fill_block` makes of a block and the triples of the stream.
pub record IsFilled (block us : List TripleValue) (size : ℕ) (r : Result MergeSource) : Type 0 where
  pub source : MergeSource
  pub result : r ≡ ok source
  pub holds : Holds source (block ++ us)
  more : List TripleValue
  extends : source.block ≡ block ++ more
  pub same_size : (source.file_data).size ≡ size

closed-Unread :
    (b : Bool) (is : IStream) (fd : FileData)
    → is ≡ triples_bytes []
    → fd.size ≡ fd.current_triple + 0
    → Unread (if b then none else some is) fd []
unfolding Unread
closed-Unread true is fd e f = refl
closed-Unread false is fd e f = (e, f)

module _ (u : TripleValue) (us block : List TripleValue) (block_size accumulated : ℕ)
    (fd : FileData) (h : IsTriple u) where
  fill_block-step :
      ltb accumulated block_size ≡ true
      → fill_block (suc (length us)) block_size accumulated block (triples_bytes (u ∷ us)) fd
        ≡ fill_block
            (length us)
            block_size
            (add64 accumulated 24)
            (block ++ u ∷ [])
            (triples_bytes us)
            (record fd { current_triple = fd.current_triple + 1 })
  unfolding fill_block triples_bytes
  fill_block-step t = rw (read_triple-bytes fd u (triples_bytes us) h, t) refl

  fill_block-stop :
      ltb accumulated block_size ≡ false
      → fill_block (suc (length us)) block_size accumulated block (triples_bytes (u ∷ us)) fd
        ≡ ok (record { block = block; opened_file = some (triples_bytes (u ∷ us)); file_data = fd })
  unfolding fill_block triples_bytes
  fill_block-stop f = rw (read_triple-bytes fd u (triples_bytes us) h, f) refl

-- One triple later.
IsFilled-later :
    (u : TripleValue) (us block : List TripleValue) (size : ℕ) (r : Result MergeSource)
    → IsFilled (block ++ u ∷ []) us size r
    → IsFilled block (u ∷ us) size r
IsFilled-later u us block size r h = record {
  source = h.source;
  result = h.result;
  holds = subst (Holds h.source) (append_assoc block (u ∷ []) us) h.holds;
  more = u ∷ h.more;
  extends = h.extends ∙ append_assoc block (u ∷ []) h.more;
  same_size = h.same_size;
}

pub fill_block-IsFilled :
    (us block : List TripleValue) (block_size accumulated : ℕ) (fd : FileData)
    → All IsTriple us
    → fd.size ≡ fd.current_triple + length us
    → IsFilled block us fd.size
        (fill_block (length us) block_size accumulated block (triples_bytes us) fd)
unfolding fill_block
fill_block-IsFilled [] block block_size accumulated fd h e = record {
  source = record {
    block = block;
    opened_file = if ltb accumulated block_size then none else some (triples_bytes []);
    file_data = fd;
  };
  result = refl;
  holds = record {
    later = [];
    parts = refl;
    in_file = closed-Unread (ltb accumulated block_size) (triples_bytes []) fd refl e;
    fit = tt;
  };
  more = [];
  extends = sym (append-nil block);
  same_size = refl;
}
fill_block-IsFilled (u ∷ us) block block_size accumulated fd h e =
    elim (Bool-cases (ltb accumulated block_size)) [
      | inl t ↦ rw (fill_block-step u us block block_size accumulated fd h.0 t) (
          IsFilled-later u us block fd.size _ (
            fill_block-IsFilled us (block ++ u ∷ []) block_size (add64 accumulated 24) _ h.1
              (omega arith)))
      | inr f ↦ rw (fill_block-stop u us block block_size accumulated fd h.0 f) (record {
        source = record {
          block = block;
          opened_file = some (triples_bytes (u ∷ us));
          file_data = fd;
        };
        result = refl;
        holds = record {
          later = u ∷ us;
          parts = refl;
          in_file = unfold Unread in (refl, e);
          fit = h;
        };
        more = [];
        extends = sym (append-nil block);
        same_size = refl;
      })
    ]

-- The first of some triples.
unfoldable pub head_of : {A : Type 0} → List A → Option A
head_of [] = none
head_of (x ∷ xs) = some x

unfoldable pub tail_of : {A : Type 0} → List A → List A
tail_of [] = []
tail_of (x ∷ xs) = xs

-- The first of what is left is taken, and the others are left then.
pub record IsTaken (rest : List TripleValue) (r : Result (Option TripleValue × MergeSource))
    : Type 0 where
  pub source : MergeSource
  pub result : r ≡ ok (head_of rest, source)
  pub holds : Holds source (tail_of rest)

pop_front-IsTaken :
    (s : MergeSource) (t : TripleValue) (ts rest : List TripleValue)
    → s.block ≡ t ∷ ts
    → Holds s rest
    → IsTaken rest (ok (pop_front (t ∷ ts) s))
unfolding pop_front head_of tail_of
pop_front-IsTaken s t ts rest e h =
    let whole : rest ≡ t ∷ (ts ++ h.later) = h.parts ∙ rw e refl in
    rw whole (record {
      source = record s { block = ts };
      result = refl;
      holds = record { later = h.later; parts = refl; in_file = h.in_file; fit = h.fit };
    })

unread-left : (fd : FileData) (n : ℕ) → fd.size ≡ fd.current_triple + n → unread fd ≡ n
unfolding unread
unread-left fd n e = omega arith

refill-IsTaken :
    (us : List TripleValue) (is : IStream) (fd : FileData) (block_size : ℕ)
    → 0 < block_size
    → All IsTriple us
    → Unread (some is) fd us
    → IsTaken us (refill block_size is fd)
unfolding refill Unread
refill-IsTaken [] is fd block_size some_room h (e, f) = rw (unread-left fd 0 f) (
    unfold fill_block in
    (record {
      source = record {
        block = [];
        opened_file = if ltb 0 block_size then none else some is;
        file_data = fd;
      };
      result = unfold pop_front in unfold head_of in refl;
      holds =
          unfold tail_of in
          (record {
            later = [];
            parts = refl;
            in_file = closed-Unread (ltb 0 block_size) is fd e f;
            fit = tt;
          });
    }))
refill-IsTaken (u ∷ us) is fd block_size some_room h (e, f) =
    let next : FileData = record fd { current_triple = fd.current_triple + 1 } in
    let filled = fill_block-IsFilled us (u ∷ []) block_size (add64 0 24) next h.1 (omega arith) in
    rw
      (
        unread-left fd (suc (length us)) f,
        e,
        fill_block-step u us [] block_size 0 fd h.0 (lt→ltb 0 block_size some_room),
        filled.result,
      )
      (subst (λ b. IsTaken (u ∷ us) (ok (pop_front b filled.source))) (sym filled.extends)
        (pop_front-IsTaken filled.source u filled.more (u ∷ us) filled.extends filled.holds))

pub next_from-IsTaken :
    (s : MergeSource) (rest block : List TripleValue) (file : Option IStream) (block_size : ℕ)
    → 0 < block_size
    → s.block ≡ block
    → s.opened_file ≡ file
    → Holds s rest
    → IsTaken rest (next_from block_size block file s)
unfolding next_from Unread
next_from-IsTaken s rest (t ∷ ts) file block_size some_room e f h =
    pop_front-IsTaken s t ts rest e h
next_from-IsTaken s rest [] none block_size some_room e f h =
    let empty : h.later ≡ [] = subst (λ o. Unread o s.file_data h.later) f h.in_file in
    let whole : rest ≡ [] = h.parts ∙ rw (e, empty) refl in
    rw whole (record {
      source = s;
      result = unfold head_of in refl;
      holds = unfold tail_of in subst (Holds s) whole h;
    })
next_from-IsTaken s rest [] (some is) block_size some_room e f h =
    let left : Unread (some is) s.file_data h.later =
      subst (λ o. Unread o s.file_data h.later) f h.in_file in
    let whole : rest ≡ h.later = h.parts ∙ rw e refl in
    rw whole (refill-IsTaken h.later is s.file_data block_size some_room h.fit left)
