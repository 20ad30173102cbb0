-- ===== src/ExternalSort/Examples.antt =====
-- Tests of the external sort, with a library that sorts by insertion and a queue that is searched.
use rdfcache_k.ExternalSort.Split.Parts.{IsComplete}
use rdfcache_k.Workers.{
  stop_worker, run_worker, run_on, take_task, leave, move, queue_is_empty, has_lock, any_worker,
  all_workers, is_finished, is_joining, is_adding, new_pool, act, act_all, Action,
}
use rdfcache_k.ExternalSort.Split.Whole.{external_sort_triples-nil, external_sort_triples-sorts}
use rdfcache_k.ExternalSort.Split.{mem_budget_bound, Schedule, external_sort_triples}
use rdfcache_k.ExternalSort.Parallel.{
  same_tasks, tasks_from, sort_task, wait_workers, run_tasks, is_end, push_next, merge_segments,
  starts_of, push_heads, sort_range, segment_starts, segment_ends, sort_with_pool, parallel_sort,
}
use rdfcache_k.Prelude.{
  ◌≤◌, subst, ◌++◌, suc, zero, suc, undefined, diverges, err, ℕ, ◌≡◌, refl, arith, List, [], ◌∷◌,
  Option, none, some, Bool, Bool-cases, inl, inr, if◌then◌else◌, ltb, length, map, All, ok, IsU64,
}
use mathlib.Core.List.{Permᴰ as Perm}
use mathlib.Core.List.Permᴰ as Perm
use rdfcache_k.ExternalSort.Triples.{TripleValue}
use rdfcache_k.ExternalSort.Triples.Bytes.{IsTriple, file_bytes}
use rdfcache_k.ExternalSort.Orders.{Distinct, Before, Sorted, concat, All-Perm, All-mono}
use rdfcache_k.ExternalSort.Library.{Entry, SortLibrary, IsTop, IsSortLibrary}
use rdfcache_k.ExternalSort.Merge.Pass.{IsRun}
use rdfcache_k.ExternalSort.Passes.{merge_files}
use rdfcache_k.ExternalSort.Passes.Divergence.{merge_files-diverges}

abbrev by_first : TripleValue → TripleValue → Bool
by_first a b = ltb a.first b.first

abbrev insert_triple : TripleValue → List TripleValue → List TripleValue
insert_triple t [] = t ∷ []
insert_triple t (u ∷ us) =
    let rest = insert_triple t us in if by_first u t then u ∷ rest else t ∷ u ∷ us

abbrev insertion_sort : List TripleValue → List TripleValue
insertion_sort [] = []
insertion_sort (t ∷ ts) = insert_triple t (insertion_sort ts)

abbrev better : Entry → Option (Entry × List Entry) → Entry × List Entry
better e none = (e, [])
better e (some (m, rest)) = if by_first m.0 e.0 then (m, e ∷ rest) else (e, m ∷ rest)

abbrev pop_least : List Entry → Option (Entry × List Entry)
pop_least [] = none
pop_least (e ∷ q) = some (better e (pop_least q))

abbrev searching : SortLibrary
searching = record { sort = insertion_sort; pop_top = pop_least }

by_first_trans :
    (a b c : TripleValue) → Before by_first a b → Before by_first b c → Before by_first a c
by_first_trans a b c h k = ground arith

insert_triple-Perm : (t : TripleValue) (ts : List TripleValue) → Perm (t ∷ ts) (insert_triple t ts)
insert_triple-Perm t [] = Perm.refl _
insert_triple-Perm t (u ∷ us) = elim (Bool-cases (by_first u t)) [
  | inl e ↦ rw e (Perm.trans (Perm.swap refl refl) (Perm.cons refl (insert_triple-Perm t us)))
  | inr e ↦ rw e (Perm.refl _)
]

insert_triple-Sorted :
    (t : TripleValue) (ts : List TripleValue)
    → Sorted by_first ts
    → Sorted by_first (insert_triple t ts)
unfolding Sorted
insert_triple-Sorted t [] h = (tt, tt)
insert_triple-Sorted t (u ∷ us) h = elim (Bool-cases (by_first u t)) [
  | inl e ↦
      (let first : Before by_first u t = ground arith in
        rw e (
          All-Perm (Before by_first u) (insert_triple-Perm t us) (first, h.0),
          insert_triple-Sorted t us h.1,
        ))
  | inr e ↦ rw e (
    (e, All-mono (Before by_first u) (Before by_first t) us (λ v k. by_first_trans t u v e k) h.0),
    h,
  )
]

insertion_sort-Perm : (ts : List TripleValue) → Perm ts (insertion_sort ts)
insertion_sort-Perm [] = Perm.nil
insertion_sort-Perm (t ∷ ts) =
    Perm.trans (Perm.cons refl (insertion_sort-Perm ts)) (insert_triple-Perm t (insertion_sort ts))

insertion_sort-Sorted : (ts : List TripleValue) → Sorted by_first (insertion_sort ts)
insertion_sort-Sorted [] = unfold Sorted in tt
insertion_sort-Sorted (t ∷ ts) =
    insert_triple-Sorted t (insertion_sort ts) (insertion_sort-Sorted ts)

better-IsTop :
    (e x : Entry) (q : List Entry) (r : Option (Entry × List Entry))
    → IsTop by_first (x ∷ q) r
    → IsTop by_first (e ∷ x ∷ q) (some (better e r))
better-IsTop e x q r h = rw h.result (elim (Bool-cases (by_first (h.top).0 e.0)) [
  | inl t ↦
      (let first : Before by_first (h.top).0 e.0 = ground arith in
        rw t (record {
          top = h.top;
          rest = e ∷ h.rest;
          result = refl;
          elements = Perm.trans (Perm.cons refl h.elements) (Perm.swap refl refl);
          least = (first, h.least);
        }))
  | inr f ↦ rw f (record {
    top = e;
    rest = h.top ∷ h.rest;
    result = refl;
    elements = Perm.cons refl h.elements;
    least = (
      f,
      All-mono (λ (z : Entry). Before by_first (h.top).0 z.0)
          (λ (z : Entry). Before by_first e.0 z.0) h.rest
          (λ z k. by_first_trans e.0 (h.top).0 z.0 f k) h.least,
    );
  })
])

pop_least-IsTop : (e : Entry) (q : List Entry) → IsTop by_first (e ∷ q) (pop_least (e ∷ q))
pop_least-IsTop e [] = record {
  top = e;
  rest = [];
  result = refl;
  elements = Perm.refl _;
  least = tt;
}
pop_least-IsTop e (x ∷ q) = better-IsTop e x q (pop_least (x ∷ q)) (pop_least-IsTop x q)

searching-IsSortLibrary : IsSortLibrary by_first searching
searching-IsSortLibrary = record {
  irrefl = λ a. ground arith;
  trans = by_first_trans;
  sort-Perm = insertion_sort-Perm;
  sort-Sorted = insertion_sort-Sorted;
  pop_top-empty = refl;
  pop_top-IsTop = λ e q distinct. pop_least-IsTop e q;
}

abbrev triple : ℕ → TripleValue
triple n = record { first = n; second = 1; third = 2 }

triple-IsTriple : (n : ℕ) → IsU64 n → IsTriple (triple n)
triple-IsTriple n h = record { first_fits = h; second_fits = omega arith; third_fits = omega arith }

abbrev two_runs : List (List TripleValue)
two_runs = (triple 2 ∷ triple 5 ∷ []) ∷ (triple 3 ∷ []) ∷ []

two_runs-IsRun : All (IsRun by_first) two_runs
two_runs-IsRun = (
  record {
    fit = (triple-IsTriple 2 (omega arith), (triple-IsTriple 5 (omega arith), tt));
    sorted = unfold Sorted in ((refl, tt), (tt, tt));
    size_fits = omega arith;
  },
  (
    record {
      fit = (triple-IsTriple 3 (omega arith), tt);
      sorted = unfold Sorted in (tt, tt);
      size_fits = omega arith;
    },
    tt,
  ),
)

two_runs-fit : IsU64 (length (concat two_runs))
two_runs-fit = unfold concat in omega arith

merge_files-diverges_example : merge_files searching 9 1 48 (map file_bytes two_runs) ≡ err diverges
merge_files-diverges_example =
    merge_files-diverges by_first searching searching-IsSortLibrary 48 (omega arith) 9 two_runs
      (omega arith) two_runs-IsRun two_runs-fit

abbrev unsorted : List TripleValue
unsorted = triple 5 ∷ triple 3 ∷ triple 9 ∷ triple 2 ∷ []

unsorted-IsTriple : All IsTriple unsorted
unsorted-IsTriple = (
  triple-IsTriple 5 (omega arith),
  (
    triple-IsTriple 3 (omega arith),
    (triple-IsTriple 9 (omega arith), (triple-IsTriple 2 (omega arith), tt)),
  ),
)

unsorted-Distinct : Distinct by_first unsorted
unfolding Distinct
unsorted-Distinct = (
  (inr refl, (inl refl, (inr refl, tt))),
  ((inl refl, (inr refl, tt)), ((inr refl, tt), (tt, tt))),
)

abbrev adds : ℕ → ℕ → List Action
adds task zero = []
adds task (suc n) = Action.add_task task ∷ adds (suc task) n

-- A worker goes from the test of the loop through a task to the next test.
abbrev rounds : ℕ → List Action
rounds zero = []
rounds (suc n) = Action.run 0 ∷ Action.run 0 ∷ Action.run 0 ∷ Action.run 0 ∷ Action.run 0 ∷ rounds n

-- Two workers are stopped when all tasks have been added. Then one of them runs the tasks.
abbrev one_by_one : Schedule
one_by_one file workers tasks =
    adds 0 tasks
    ++ (Action.stop 0 ∷ Action.stop 1 ∷ Action.all_stopped ∷ rounds tasks)
    ++ (Action.run 0 ∷ Action.run 1 ∷ [])

-- The data is cut into segments that are sorted by the pool and merged.
sorts_in_segments :
    parallel_sort searching (one_by_one 0) unsorted 2 48
    ≡ ok (triple 2 ∷ triple 3 ∷ triple 5 ∷ triple 9 ∷ [])
unfolding parallel_sort sort_with_pool segment_ends segment_starts run_tasks sort_task sort_range
    push_heads starts_of merge_segments push_next is_end wait_workers tasks_from same_tasks act_all
    act new_pool is_adding is_joining is_finished all_workers any_worker has_lock queue_is_empty
    move leave take_task run_on run_worker stop_worker
sorts_in_segments = refl

-- If the threads do not act, the caller waits.
waits_for_pool : parallel_sort searching (λ workers tasks. []) unsorted 2 48 ≡ err diverges
unfolding parallel_sort sort_with_pool segment_ends segment_starts wait_workers tasks_from act_all
    new_pool is_joining
waits_for_pool = refl

ends_one_by_one :
    (file n : ℕ)
    → n ≤ 4
    → (ran : List ℕ) × (wait_workers (act_all (one_by_one file 2 n) (new_pool 2)) (tasks_from 0 n)
        ≡ ok ran)
unfolding wait_workers tasks_from same_tasks act_all act new_pool is_adding is_joining is_finished
    all_workers any_worker has_lock queue_is_empty move leave take_task run_on run_worker
    stop_worker
ends_one_by_one file zero h = ([], refl)
ends_one_by_one file (suc zero) h = (0 ∷ [], refl)
ends_one_by_one file (suc (suc zero)) h = (1 ∷ 0 ∷ [], refl)
ends_one_by_one file (suc (suc (suc zero))) h = (2 ∷ 1 ∷ 0 ∷ [], refl)
ends_one_by_one file (suc (suc (suc (suc zero)))) h = (3 ∷ 2 ∷ 1 ∷ 0 ∷ [], refl)
ends_one_by_one file (suc (suc (suc (suc (suc n))))) h = absurd (omega arith)

bound_of_200 : mem_budget_bound 200 48 ≡ 80
unfolding mem_budget_bound
bound_of_200 = refl

one_by_one-IsComplete : IsComplete one_by_one 2 (mem_budget_bound 200 48)
one_by_one-IsComplete = record {
  ends = λ file w n several below few.
      let two : 2 ≡ w = omega arith in
      subst
        (λ v.
          (ran : List ℕ) × (wait_workers (act_all (one_by_one file v n) (new_pool v))
              (tasks_from 0 n)
            ≡ ok ran))
        two (ends_one_by_one file n (omega (arith, bound_of_200)));
}

external_sort_triples-sorts_example :
    (out : List TripleValue) × (external_sort_triples searching one_by_one 2 48 2 200 48
        (file_bytes unsorted)
      ≡ ok (file_bytes out))
    × Perm unsorted out
    × IsRun by_first out
external_sort_triples-sorts_example =
    external_sort_triples-sorts by_first searching searching-IsSortLibrary unsorted one_by_one 2 48
      2 200 48 one_by_one-IsComplete unsorted-Distinct (omega arith) (omega arith) (omega arith)
      (omega arith) (omega arith) unsorted-IsTriple (omega arith) (omega arith)

external_sort_triples-nil_example :
    external_sort_triples searching one_by_one 4 48 2 64 48 (file_bytes []) ≡ err undefined
external_sort_triples-nil_example = external_sort_triples-nil searching one_by_one 4 48 2 64 48
