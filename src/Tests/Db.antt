-- ===== src/Tests/Db.antt =====
-- db/: the theorems at concrete stores.
use acpp.Prelude.{
  ◌==◌, Bool-cases, inl, inr, ltb, if◌then◌else◌, text_eq, Bytes, codes, ℕ, ◌+◌, ◌≡◌, refl, some,
  List, [], ◌∷◌, arith, drop, length,
}
use acpp.Db.Map.{insert, lookup, values}
use acpp.Db.Order.{sort_by}
use acpp.Db.MemStore.{SessionRow, MemStore, new_mem_store}
use acpp.Db.MemStore.Sessions.{complete_running_sessions}
use acpp.Db.MemStore.Run.{Call, completes_running, inserts_session, inserts_log, run}
use acpp.Db.MemStore.Run.Always.{run-IsValid}
use acpp.Db.MemStore.Valid.{IsValid}
use acpp.Db.MemStore.Listing.{list_sessions, list_projects, project_less, project_rows}
use acpp.Db.MemStore.Stats.{daily_rows, chosen, expected, daily_rows_lem}
use acpp.Db.MemStore.Listing.Pages.{Reorders, swap, unchanged, Apart, read_pages, read_pages_lem}
use acpp.Db.MemStore.Listing.OnePass.{summary, list_projects_lem}

abbrev adds : Bytes → Bytes → ℕ → Call ℕ
adds id project created =
    inserts_session id (codes "web") (codes "/bin/claude") (codes "/src") [] [] [] project [] 0
      created

-- Two sessions of one project, the first one complete, and two log entries.
abbrev calls : List (Call ℕ)
calls =
    adds (codes "s1") (codes "p") 5
    ∷ inserts_log (codes "s1") (codes "prompt") [] 6
    ∷ completes_running 7
    ∷ adds (codes "s2") (codes "p") 8
    ∷ inserts_log (codes "s2") (codes "prompt") [] 9
    ∷ []

abbrev store : MemStore ℕ
store = run new_mem_store calls

run-IsValid_example : IsValid store
run-IsValid_example = run-IsValid calls (omega arith)

store-IsValid : IsValid store
store-IsValid = run-IsValid calls (omega arith)

abbrev restarted : MemStore ℕ × ℕ
restarted = complete_running_sessions store 10

count_test : restarted.1 ≡ 1
unfolding complete_running_sessions run new_mem_store insert text_eq
count_test = refl

two_logs : length store.logs + 1 ≡ 3
unfolding run new_mem_store
two_logs = refl

two_sessions : length store.sessions ≡ 2
unfolding run new_mem_store insert text_eq
two_sessions = refl

-- The call at offset 1 meets the two sessions the other way round.
abbrev exchange : List (SessionRow ℕ) → List (SessionRow ℕ)
exchange (a ∷ b ∷ []) = b ∷ a ∷ []
exchange ss = ss

abbrev orders : ℕ → List (SessionRow ℕ) → List (SessionRow ℕ)
orders n ss = if n == 0 then ss else exchange ss

orders-Reorders : (n : ℕ) → Reorders (values store.sessions) (orders n (values store.sessions))
unfolding run new_mem_store insert text_eq values
orders-Reorders n = elim (Bool-cases (n == 0)) [ inl e ↦ rw e (unchanged _) | inr e ↦ rw e (swap) ]

store-Apart : Apart (values store.sessions)
unfolding run new_mem_store insert text_eq values
store-Apart = ((refl, tt), (tt, tt))

read_pages_lem_example :
    read_pages orders store 1 2 0 ≡ some (drop 0 (list_sessions (λ ss. ss) store))
read_pages_lem_example =
    read_pages_lem orders store 1 2 0 orders-Reorders store-Apart (omega arith)
      (omega (arith, two_sessions))

list_projects_lem_example :
    list_projects store
    ≡ sort_by project_less (project_rows (summary (values store.sessions)) (values store.projects))
list_projects_lem_example = list_projects_lem store

-- The text of a day.
abbrev day_of : ℕ → Bytes
day_of t = if ltb t 6 then codes "1" else codes "2"

daily_rows_lem_example :
    lookup (daily_rows ◌+◌ 0 day_of 2 [] (values store.sessions) []) (codes "2")
    ≡ expected ◌+◌ 0 day_of
        (codes "2")
        (chosen ◌+◌ 0 day_of 2 [] (codes "2") (values store.sessions))
daily_rows_lem_example = daily_rows_lem ◌+◌ 0 day_of 2 [] (codes "2") (values store.sessions)
