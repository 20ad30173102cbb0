-- ===== src/ExternalSort/Parallel.antt =====
-- algorithms/triple_external_sort.hpp: `parallel_sort`.
pub mod Bounds
pub mod Parts
pub mod Tasks
pub mod Segments
pub mod Merging
pub mod Sorting
use rdfcache_k.Workers.{
  is_finished, new_pool, all_workers, act_all, is_joining, Action, ParallelWorkerPool,
}
use Prim.Native.Nat.{min}
use rdfcache_k.Prelude.{
  ◌&&◌, ℕ, zero, suc, ◌+◌, ◌-◌, List, [], ◌∷◌, ◌++◌, Bool, true, false, ◌||◌, ◌==◌, ltb, leb,
  if◌then◌else◌, length, take, drop, get_elem?, Option, none, some, Result, ok, err, undefined,
  diverges, ◌>>=◌, or_fail, add64,
}
use rdfcache_k.ExternalSort.Triples.{TripleValue}
use rdfcache_k.ExternalSort.Library.{Entry, SortLibrary}

-- The loop that cuts the data, with `n` rounds left from the place `i`.
unfoldable pub segment_starts : ℕ → ℕ → ℕ → ℕ → List ℕ
segment_starts zero i acc_size segment_size = []
segment_starts (suc n) i acc_size segment_size =
    let full = segment_starts n (suc i) 0 segment_size in
    let rest = segment_starts n (suc i) (add64 acc_size 24) segment_size in
    if leb segment_size (add64 acc_size 24) then i ∷ full else rest

-- `offsets` without the zero in front, which has the elements of `offsets_set`.
unfoldable pub segment_ends : List TripleValue → ℕ → List ℕ
segment_ends triples segment_size =
    segment_starts (length triples - 1) 1 24 segment_size ++ length triples ∷ []

-- `offsets_set.find(i) != offsets_set.end()`.
unfoldable pub is_end : List ℕ → ℕ → Bool
is_end [] i = false
is_end (e ∷ ends) i = i == e || is_end ends i

-- `pqueue.push({data[i], i})` for the starts of the segments.
unfoldable pub push_heads : List ℕ → List TripleValue → Result (List Entry)
push_heads [] triples = ok []
push_heads (i ∷ starts) triples = do
  triple ← or_fail (get_elem? triples i) undefined
  q ← push_heads starts triples
  ok ((triple, i) ∷ q)

-- The places where a segment starts: all of `offsets` but the last one.
unfoldable pub starts_of : ℕ → List ℕ → List ℕ
starts_of start [] = []
starts_of start (e ∷ ends) = start ∷ starts_of e ends

-- `add_task` is called for so many tasks, from the first one on.
unfoldable pub tasks_from : ℕ → ℕ → List ℕ
tasks_from task zero = []
tasks_from task (suc n) = task ∷ tasks_from (suc task) n

unfoldable pub same_tasks : List ℕ → List ℕ → Bool
same_tasks [] [] = true
same_tasks [] (t ∷ ts) = false
same_tasks (t ∷ ts) [] = false
same_tasks (t ∷ ts) (u ∷ us) = t == u && same_tasks ts us

-- The caller goes on behind `wait_workers` once it has added the tasks and stopped the workers, and all
-- of them have finished: the tasks that were run, the last one first. It waits if the threads do not come
-- so far.
unfoldable pub wait_workers : Option ParallelWorkerPool → List ℕ → Result (List ℕ)
wait_workers none tasks = err diverges
wait_workers (some p) tasks =
    if is_joining p.caller
      && (all_workers (λ w. is_finished w.phase) p.workers && same_tasks p.added tasks)
    then ok p.ran
    else err diverges

module _ (lib : SortLibrary) where
  -- A task of the pool.
  unfoldable pub sort_range : ℕ → ℕ → List TripleValue → List TripleValue
  sort_range start end triples =
      take start triples ++ (lib.sort (take (end - start) (drop start triples)) ++ drop end triples)

  -- The task of the given number, which sorts the range between two of the places.
  unfoldable pub sort_task : ℕ → List ℕ → ℕ → List TripleValue → List TripleValue
  sort_task start [] task triples = triples
  sort_task start (e ∷ ends) zero triples = sort_range start e triples
  sort_task start (e ∷ ends) (suc task) triples = sort_task e ends task triples

  -- The tasks that were run, the last one first. They work on ranges that do not meet, so the data is
  -- what it would be if each of them was run at once.
  unfoldable pub run_tasks : List ℕ → List ℕ → List TripleValue → List TripleValue
  run_tasks ends [] triples = triples
  run_tasks ends (task ∷ tasks) triples = sort_task 0 ends task (run_tasks ends tasks triples)

  -- The queue after the top is taken out, unless its segment has come to an end.
  unfoldable pub push_next : Bool → ℕ → List TripleValue → List Entry → Result (List Entry)
  push_next true next triples q = ok q
  push_next false next triples q = do
    triple ← or_fail (get_elem? triples next) undefined
    ok ((triple, next) ∷ q)

  -- `while (!pqueue.empty())`, which each triple enters once.
  unfoldable pub merge_segments :
      ℕ → List ℕ → List TripleValue → List Entry → Result (List TripleValue)
  merge_segments zero ends triples q = elim (lib.pop_top q) [ none ↦ ok [] | some r ↦ err diverges ]
  merge_segments (suc n) ends triples q = elim (lib.pop_top q) [
    | none ↦ ok []
    | some (top, rest) ↦ do
      q' ← push_next (is_end ends (suc top.1)) (suc top.1) triples rest
      out ← merge_segments n ends triples q'
      ok (top.0 ∷ out)
  ]

  -- The part with the pool, whose threads are interleaved in the way that is given.
  unfoldable pub sort_with_pool :
      List Action → ℕ → List ℕ → List TripleValue → Result (List TripleValue)
  sort_with_pool actions workers ends triples = do
    ran ← wait_workers (act_all actions (new_pool workers)) (tasks_from 0 (length ends))
    let sorted = run_tasks ends ran triples
    q ← push_heads (starts_of 0 ends) sorted
    merge_segments (length triples) ends sorted q

  -- The space that is reserved is a quotient by the triples that fit in a segment. The interleaving
  -- depends on the numbers of workers and of tasks.
  unfoldable pub parallel_sort :
      ((workers tasks : ℕ) → List Action) → List TripleValue → ℕ → ℕ → Result (List TripleValue)
  parallel_sort schedule triples max_workers segment_size =
      let ends = segment_ends triples segment_size in
      let workers = min max_workers (length ends) in
      let actions = schedule workers (length ends) in
      if ltb segment_size 24
      then err undefined
      else (if workers == 1
          then ok (lib.sort triples)
          else sort_with_pool actions workers ends triples)
