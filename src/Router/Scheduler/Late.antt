-- ===== src/Router/Scheduler/Late.antt =====
-- A tick that still waits for its session while another tick of the job starts.
use acpp.Prelude.{Bytes, text_eq, ◌≡◌, ap, ◌∙◌, true, false, none, some}
use acpp.Db.Map.{lookup, lookup-insert, lookup-remove, lookup-remove_other}
use acpp.Types.{ConversationMeta}
use acpp.Router.Scheduler.{
  ScheduledJob, Scheduler, World, conversation_closed, holds, is_running, mark_running, hand_off,
  finish, ends_turn, receive, finish_found, submit, gave_up,
}

-- The states: the first tick waits; its conversation closes; a second tick waits.
pub first_waits : Scheduler → ScheduledJob → ConversationMeta → Scheduler
unfolding hand_off mark_running
first_waits s job meta = hand_off (mark_running s job) meta job

pub first_closed : Scheduler → ScheduledJob → ConversationMeta → Scheduler
unfolding first_waits receive
first_closed s job meta = (receive (first_waits s job meta) meta conversation_closed).0

pub second_waits : Scheduler → ScheduledJob → ConversationMeta → ConversationMeta → Scheduler
unfolding first_closed first_waits
second_waits s job meta meta' = first_waits (first_closed s job meta) job meta'

found_job :
    (s : Scheduler) (job : ScheduledJob) (meta : ConversationMeta)
    → lookup (first_waits s job meta).inflight meta.conversation_id ≡ some job
unfolding first_waits hand_off mark_running
found_job s job meta = lookup-insert s.inflight meta.conversation_id job

-- The close frees the job. When then the wait of the first tick fails, it frees the job a second
-- time, while the conversation of the second tick is in flight.
pub late_failure_frees :
    (w : World) (s : Scheduler) (job : ScheduledJob) (meta meta' : ConversationMeta)
    (prompt : Bytes)
    → text_eq meta.conversation_id meta'.conversation_id ≡ false
    → let r = submit w (second_waits s job meta meta') meta job prompt none in
      is_running (first_closed s job meta) job.name ≡ false
      × (is_running (second_waits s job meta meta') job.name ≡ true
          × (is_running r.0.0 job.name ≡ false
              × lookup r.0.0.inflight meta'.conversation_id ≡ some job))
unfolding submit gave_up second_waits first_closed receive finish_found finish is_running holds
    hand_off mark_running ends_turn
late_failure_frees w s job meta meta' prompt h = (
  ap (λ o. is_running (finish_found (first_waits s job meta) meta o).0 job.name)
        (found_job s job meta)
      ∙ ap holds (lookup-remove (first_waits s job meta).running job.name),
  (
    ap holds (lookup-insert (first_closed s job meta).running job.name true),
    (
      ap holds (lookup-remove (second_waits s job meta meta').running job.name),
      lookup-remove_other (second_waits s job meta meta').inflight meta.conversation_id
            meta'.conversation_id h
          ∙ lookup-insert (first_closed s job meta).inflight meta'.conversation_id job,
    ),
  ),
)
