-- ===== src/Tests/Conversations.antt =====
-- router/: the theorems at a router with a few conversations.
use acpp.Prelude.{
  All, Bytes, codes, text_eq, ℕ, ◌+◌, ◌≤◌, ◌==◌, ◌≡◌, refl, Bool, true, false, ◌⊎◌, Option, some,
  List, [], ◌∷◌, ◌++◌, if◌then◌else◌, ok, err,
}
use acpp.Types.{SessionOpts}
use acpp.Db.Map.{lookup, insert, remove}
use acpp.Router.Conversations.{
  Message, new_session_response, initialize_response, other, Event, conversation_created,
  conversation_closed, process_closed, cleaned_up, Hooks, SessionState, Router, new_router,
  close_refused, state_of, active,
}
use acpp.Router.Conversations.Messages.{deliver}
use acpp.Router.Conversations.Messages.Order.{Passes, told, shown, follow_ups, told-deliver}
use acpp.Router.Conversations.Lifecycle.{Start, close_conversation, started_meta, new_state}
use acpp.Router.Conversations.Lifecycle.Ending.{try_close}
use acpp.Router.Conversations.Lifecycle.Starting.{create, restart}
use acpp.Router.Conversations.Counts.{closes, begins, total, ends}
use acpp.Router.Conversations.Valid.{IsValid, new_router-IsValid}
use acpp.Router.Conversations.Run.{
  Call, creates, gets, sends, restarts, closes_conversation, tries_close, exits, run, call,
  one_close, from_IsValid,
}
use acpp.Router.Conversations.Failed.{create_fails, restart_fails}
use acpp.Router.Conversations.Closing.{close_conversation_lem, Consents, Vetoes, try_close_lem}

-- The first hook triggers a prompt at every message; the second drops nothing and vetoes a close.
abbrev hooks : Hooks ℕ
hooks = record {
  outgoing = λ k meta msg. ([], some msg, k + 1);
  incoming = λ k meta msg. (if k == 0 then codes "go on" ∷ [] else [], some msg, k);
  can_close = λ k. if k == 0 then [] else codes "uncommitted changes";
}

abbrev always : List Event → ℕ → Bool
always es p = true

abbrev never : List Event → ℕ → Bool
never es p = false

abbrev options : SessionOpts
options = record {
  project_id = codes "p";
  agent = codes "claude";
  cwd = codes "/src";
  env = [];
  source = codes "web";
  sandbox_type = [];
  sandbox_profiles = [];
  ro_binds = [];
  rw_binds = [];
  resume_session_id = [];
  location = [];
}

abbrev start : Start ℕ
start = record {
  opts = options;
  pid = 41;
  remote = false;
  location = codes "localhost";
  base_dir = codes "/src";
  hooks = 0 ∷ 1 ∷ [];
  notices = codes "hello" ∷ [];
}

abbrev calls : List (Call ℕ)
calls =
    creates (codes "a") start
    ∷ gets 0 (initialize_response [])
    ∷ gets 0 (new_session_response (codes "s1"))
    ∷ sends (codes "a") (other (codes "hi"))
    ∷ tries_close (codes "a")
    ∷ restarts (codes "a") (codes "b")
    ∷ closes_conversation (codes "b") false
    ∷ exits 0
    ∷ []

one_close_example :
    let r = run always hooks new_router calls in
    closes (codes "b") r.trace + (if active r (codes "b") then 1 else 0) ≤ 1
unfolding total run call ends text_eq lookup insert remove
one_close_example =
    one_close always hooks calls (codes "b") (refl, (tt, (tt, (tt, (tt, (refl, (tt, (tt, tt))))))))

abbrev one_run : Router ℕ
one_run = run always hooks new_router (creates (codes "a") start ∷ [])

abbrev first_state : SessionState ℕ
first_state = new_state start (started_meta start (codes "a")) (some 0)

state_there : state_of one_run (codes "a") ≡ some (0, first_state)
unfolding run state_of lookup insert text_eq new_state create
state_there = refl

one_run-IsValid : IsValid one_run
unfolding total
one_run-IsValid =
    from_IsValid always hooks new_router (creates (codes "a") start ∷ []) (refl, tt)
      new_router-IsValid

create_fails_example :
    let r = (create never one_run (codes "b") start).0 in
    (begins (codes "b") r.trace ≡ begins (codes "b") one_run.trace + 1)
    × (closes (codes "b") r.trace ≡ closes (codes "b") one_run.trace)
    × (active r (codes "b") ≡ false)
    × (close_conversation r (codes "b") [] false ≡ r)
unfolding create
create_fails_example = create_fails never one_run (codes "b") start [] false refl

restart_fails_example :
    let r = (restart never one_run (codes "a") (codes "b")).0 in
    (r.trace
      ≡ one_run.trace
        ++ conversation_created
            (record first_state.meta { conversation_id = codes "b"; session_id = [] })
          ∷ [])
    × (active r (codes "b") ≡ true)
    × (active r (codes "a") ≡ false)
    × (close_conversation r (codes "a") [] false ≡ r)
unfolding text_eq restart run lookup insert create
restart_fails_example =
    restart_fails never one_run (codes "a") (codes "b") 0 first_state [] false one_run-IsValid
      state_there refl refl

close_conversation_lem_example :
    let r = close_conversation one_run (codes "a") [] true in
    (r.trace
      ≡ one_run.trace
        ++ conversation_closed first_state.meta [] ∷ process_closed 0 ∷ cleaned_up 0 true ∷ [])
    × (active r (codes "a") ≡ false)
    × (lookup r.sessions (codes "c") ≡ lookup one_run.sessions (codes "c"))
    × (close_conversation r (codes "a") [] false ≡ r)
unfolding text_eq new_state
close_conversation_lem_example =
    close_conversation_lem one_run (codes "a") [] [] true false 0 first_state (codes "c")
      state_there refl refl refl

try_close_lem_example :
    (All (Consents hooks) first_state.hooks
      × (try_close hooks one_run (codes "a")
          ≡ (close_conversation one_run (codes "a") [] false, ok tt)))
    ⊎ ((reason : Bytes) × Vetoes hooks first_state.hooks reason
        × (try_close hooks one_run (codes "a") ≡ (one_run, err (close_refused reason))))
try_close_lem_example = try_close_lem hooks one_run (codes "a") 0 first_state state_there

refused :
    try_close hooks one_run (codes "a")
    ≡ (one_run, err (close_refused (codes "uncommitted changes")))
unfolding try_close run lookup insert text_eq create
refused = refl

told-deliver_example :
    (prompts : List Bytes) × (out : Option Message) × (ks : List ℕ) × (Passes hooks first_state.meta
        first_state.hooks
        (other (codes "done"))
        prompts
        out
        ks
      × (told
            (deliver always hooks one_run 0 first_state.meta first_state.hooks
              (other (codes "done"))).trace
          ≡ (told one_run.trace ++ shown first_state.meta out)
            ++ follow_ups first_state.meta prompts))
unfolding run create new_state
told-deliver_example =
    told-deliver always hooks one_run 0 first_state first_state.meta (other (codes "done")) refl
