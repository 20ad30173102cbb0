-- ===== src/NodeIds/Sequence/Positions.antt =====
-- core/nodeids/NodesSequence.cpp: ids and positions, and the file of the sequence.
use rdfcache_k.Stream.Laws.{read_u64-bytes, write_u64-at_end, at_end}
use rdfcache_k.Prelude.{
  append_assoc, length, append-nil, ap, sym, IsU64, ◌++◌, Option, ◌↔◌, subst, ◌≡◌, ◌<◌, ◌≢◌,
  get_elem?, All, ℕ, suc, zero, [], ◌∷◌, some, none, List, arith, ok, refl,
}
use rdfcache_k.Stream.{u64_bytes, read_u64, read_items}
use rdfcache_k.NodeIds.Sequence.{
  NidsErrCode, not_found_nodeid, lower_bound, id_at, get_id, get_real_id, real_id_at,
  from_input_stream, write_values, serialize,
}

-- Each value is below those behind it.
unfoldable pub IsAscending : List ℕ → Type 0
IsAscending [] = Unit {0}
IsAscending (v ∷ vs) = All (λ w. v < w) vs × IsAscending vs

All-get_elem? : (P : ℕ → Type 0) (vs : List ℕ) (i v : ℕ) → All P vs → get_elem? vs i ≡ some v → P v
All-get_elem? P [] i v h e = absurd (ground arith)
All-get_elem? P (w ∷ vs) zero v h e = subst P (ground arith) h.0
All-get_elem? P (w ∷ vs) (suc i) v h e = All-get_elem? P vs i v h.1 e

lower_bound-get_elem? :
    (vs : List ℕ) (i v : ℕ) → IsAscending vs → get_elem? vs i ≡ some v → lower_bound vs v ≡ i
unfolding lower_bound IsAscending
lower_bound-get_elem? [] i v h e = absurd (ground arith)
lower_bound-get_elem? (w ∷ vs) zero v h e = ground arith
lower_bound-get_elem? (w ∷ vs) (suc i) v h e =
    ground (arith, lower_bound-get_elem? vs i v h.1 e, All-get_elem? (λ x. w < x) vs i v h.0 e)

id_at-found :
    (value p i : ℕ) (o : Option ℕ)
    → i ≢ not_found_nodeid
    → id_at value p o ≡ i
    → (o ≡ some value) × (p ≡ i)
unfolding id_at
id_at-found value p i none ne e = absurd (ne (sym e))
id_at-found value p i (some v) ne e = ground (arith, ne)

real_id_at-found : (o : Option ℕ) (value : ℕ) → real_id_at o ≡ (value, none) → o ≡ some value
unfolding real_id_at
real_id_at-found none value e = absurd (ground arith)
real_id_at-found (some v) value e = ap some (ap (λ (r : ℕ × Option NidsErrCode). r.0) e)

-- In an ascending sequence, a position that is no error code is the id of a value exactly when the
-- value stands at it.
pub get_id_iff :
    (values : List ℕ) (value i : ℕ)
    → IsAscending values
    → i ≢ not_found_nodeid
    → (get_id values value ≡ i) ↔ (get_real_id values i ≡ (value, none))
unfolding get_id id_at get_real_id real_id_at
get_id_iff values value i h ne = (
  (λ e.
      let (found, here) = id_at-found value (lower_bound values value) i _ ne e in
      rw (← here, found) refl),
  (λ e.
      let found = real_id_at-found (get_elem? values i) value e in
      rw (lower_bound-get_elem? values i value h found, found) (ground arith)),
)

values_bytes : List ℕ → List ℕ
values_bytes [] = []
values_bytes (v ∷ vs) = u64_bytes v ++ values_bytes vs

write_values-at_end : (c vs : List ℕ) → write_values (at_end c) vs ≡ at_end (c ++ values_bytes vs)
unfolding write_values values_bytes
write_values-at_end c [] = rw append-nil
write_values-at_end c (v ∷ vs) =
    rw (write_u64-at_end c v, write_values-at_end (c ++ u64_bytes v) vs, append_assoc)

read_values-bytes :
    (vs rest : List ℕ)
    → All IsU64 vs
    → read_items read_u64 (length vs) (values_bytes vs ++ rest) ≡ ok (vs, rest)
unfolding read_items values_bytes
read_values-bytes [] rest h = refl
read_values-bytes (v ∷ vs) rest h = rw (
  append_assoc (u64_bytes v) (values_bytes vs) rest,
  read_u64-bytes v (values_bytes vs ++ rest) h.0,
  read_values-bytes vs rest h.1,
)

-- A sequence of words, its length a word too, is read back from what `serialize` adds to a stream.
pub from_input_stream-serialize :
    (c values rest : List ℕ)
    → IsU64 (length values)
    → All IsU64 values
    → (bytes : List ℕ) × (serialize values (at_end c) ≡ at_end (c ++ bytes))
      × (from_input_stream (bytes ++ rest) ≡ ok (values, rest))
unfolding serialize from_input_stream
from_input_stream-serialize c values rest n h = (
  u64_bytes (length values) ++ values_bytes values,
  rw (
    write_u64-at_end c (length values),
    write_values-at_end (c ++ u64_bytes (length values)) values,
    append_assoc,
  ),
  rw
      (
        append_assoc (u64_bytes (length values)) (values_bytes values) rest,
        read_u64-bytes (length values) (values_bytes values ++ rest) n,
      )
      (read_values-bytes values rest h),
)
