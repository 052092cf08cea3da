-- ===== src/Db/MemStore/Run/Always.antt =====
-- What holds of the store at all times.
use acpp.Prelude.{◌+◌, ◌<◌, i64_sign, refl, List, [], ◌∷◌, length, arith}
use acpp.Db.MemStore.{MemStore, new_mem_store}
use acpp.Db.MemStore.Valid.{IsValid}
use acpp.Db.MemStore.Run.{Call, call, run}
use acpp.Db.MemStore.Run.Steps.{call-IsValid}
use acpp.Db.MemStore.Run.Growth.{call-logs}

module _ {C : Type 0} where
  new_mem_store-IsValid : IsValid (new_mem_store {C = C})
  unfolding new_mem_store
  new_mem_store-IsValid = record {
    sessions_kept = tt;
    projects_named = tt;
    logs_numbered = tt;
    next_number = refl;
  }

  pub from_IsValid :
      (cs : List (Call C)) (m : MemStore C)
      → length m.logs + length cs < i64_sign
      → IsValid m
      → IsValid (run m cs)
  unfolding run
  from_IsValid [] m b v = v
  from_IsValid (c ∷ cs) m b v =
      from_IsValid cs (call m c) (omega (arith, call-logs m c)) (call-IsValid m c (omega arith) v)

  -- After any fewer than 2^63 calls on a new store, each session stands under its id and has its project,
  -- each project stands under its name, and the log entries have the ids from 1 on.
  pub run-IsValid : (cs : List (Call C)) → length cs < i64_sign → IsValid (run new_mem_store cs)
  unfolding new_mem_store
  run-IsValid cs b = from_IsValid cs new_mem_store (omega arith) new_mem_store-IsValid
