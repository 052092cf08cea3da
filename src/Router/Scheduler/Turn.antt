-- ===== src/Router/Scheduler/Turn.antt =====
-- A turn of a job, from the tick to its end, when nothing comes between the steps of the tick.
use acpp.Prelude.{◌≡◌, true, false, none, some, List, [], ◌∷◌, if◌then◌else◌}
use acpp.Db.Map.{lookup}
use acpp.Types.{ConversationMeta}
use acpp.Router.Scheduler.{
  ScheduledJob, Scheduler, World, Outcome, skipped, no_prompt, no_router, not_created, failed, sent,
  is_running,
}

-- What each outcome of a tick that found `job` free says of the state `s'` after it and of the closed conversations.
pub Settled :
    World → Scheduler → ScheduledJob → (Scheduler × List ConversationMeta) × Outcome → Type 0
Settled w s job ((s', closed), skipped) = ⊥
Settled w s job ((s', closed), no_prompt) =
    w.read_file job.prompt ≡ none
    × (is_running s' job.name ≡ false × (s'.inflight ≡ s.inflight × closed ≡ []))
Settled w s job ((s', closed), no_router) =
    w.has_router ≡ false
    × (is_running s' job.name ≡ false × (s'.inflight ≡ s.inflight × closed ≡ []))
Settled w s job ((s', closed), not_created) =
    is_running s' job.name ≡ false × (s'.inflight ≡ s.inflight × closed ≡ [])
Settled w s job ((s', closed), failed meta) =
    is_running s' job.name ≡ false
    × (lookup s'.inflight meta.conversation_id ≡ none
        × closed ≡ (if job.reuse_session then [] else meta ∷ []))
Settled w s job ((s', closed), sent meta) =
    is_running s' job.name ≡ true
    × (lookup s'.inflight meta.conversation_id ≡ some job × closed ≡ [])
