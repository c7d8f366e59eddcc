-- ===== src/Task/Tests.antt =====
-- The first calls of kernel/task/id.c.
use rendezv_os.Base.{◌≢◌, some, arith}
use rendezv_os.Task.Id.{
  IdManager, init_id_manager, get_new_id, after_calls, invalid_id, get_new_id-distinct,
}

abbrev stale : IdManager
stale = record { id = 77 }

get_new_id-distinct_example :
    ((get_new_id (after_calls 1 (init_id_manager (some stale)))).0
      ≢ (get_new_id (after_calls 4 (init_id_manager (some stale)))).0)
    × ((get_new_id (after_calls 1 (init_id_manager (some stale)))).0 ≢ invalid_id)
get_new_id-distinct_example = get_new_id-distinct stale 1 4 (omega arith) (omega arith)
