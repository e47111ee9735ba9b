-- ===== src/Utilities/Queues.antt =====
-- The list and queue helpers of lib/utilities.c: removal while iterating, queues put together, and the
-- first element of a list taken off.
use rmlint.Common.{ℕ, ◌+◌, Bool, List, [], ◌∷◌, ◌++◌, Option, none, some, if◌then◌else◌}

module _ {ℓ} {A : Type ℓ} where
  -- rm_util_queue_foreach_remove: the queue and the number of elements removed. The test is shown the
  -- queue as it stands when it is called; `kept` is what the iteration has passed.
  unfoldable pub queue_foreach_remove : (A → List A → Bool) → List A → List A → List A × ℕ
  queue_foreach_remove func kept [] = (kept, 0)
  queue_foreach_remove func kept (x ∷ xs) =
      let removed : List A × ℕ = queue_foreach_remove func kept xs in
      let stays : List A × ℕ = queue_foreach_remove func (kept ++ (x ∷ [])) xs in
      if func x (kept ++ (x ∷ xs)) then (removed.0, removed.1 + 1) else stays

  -- rm_util_list_foreach_remove and rm_util_slist_foreach_remove: the test is shown the element only
  unfoldable pub list_foreach_remove : (A → Bool) → List A → List A × ℕ
  list_foreach_remove func [] = ([], 0)
  list_foreach_remove func (x ∷ xs) =
      let rest = list_foreach_remove func xs in
      if func x then (rest.0, rest.1 + 1) else (x ∷ rest.0, rest.1)

  -- rm_util_queue_push_tail_queue: what becomes of the destination and of the source
  unfoldable pub queue_push_tail_queue : List A → List A → List A × List A
  queue_push_tail_queue dest src = (dest ++ src, [])

  -- rm_util_slist_pop
  unfoldable pub slist_pop : List A → List A × Option A
  slist_pop [] = ([], none)
  slist_pop (x ∷ xs) = (xs, some x)
