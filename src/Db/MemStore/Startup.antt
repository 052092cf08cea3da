-- ===== src/Db/MemStore/Startup.antt =====
-- `CompleteRunningSessions`, which a server calls when it starts.
use mathlib.Core.Path.{subst}
use acpp.Prelude.{
  All, Bytes, text_eq, ℕ, suc, ◌≡◌, refl, ap, false, Bool-cases, inl, inr, some, [], ◌∷◌,
  if◌then◌else◌,
}
use acpp.Db.Map.{Map, lookup}
use acpp.Db.MemStore.{SessionRow, MemStore}
use acpp.Db.MemStore.Sessions.{is_live, completed, complete_all, complete_running_sessions}

module _ {C : Type 0} where
  pub IsOver : Bytes × SessionRow C → Type 0
  IsOver e = is_live e.1 ≡ false

  pub live_count : Map (SessionRow C) → ℕ
  live_count [] = 0
  live_count ((id, s) ∷ m) = if is_live s then suc (live_count m) else live_count m

  pub settled : ℕ → SessionRow C → SessionRow C
  settled now s = if is_live s then completed now s else s

  completed-is_live : (now : ℕ) (s : SessionRow C) → is_live (completed now s) ≡ false
  unfolding completed is_live text_eq
  completed-is_live now s = refl

  complete_all-IsOver : (now : ℕ) (m : Map (SessionRow C)) → All IsOver (complete_all now m).0
  unfolding complete_all IsOver
  complete_all-IsOver now [] = tt
  complete_all-IsOver now ((id, s) ∷ m) = elim (Bool-cases (is_live s)) [
    | inl e ↦ rw e (completed-is_live now s, complete_all-IsOver now m)
    | inr e ↦ rw e (e, complete_all-IsOver now m)
  ]

  complete_all-live_count :
      (now : ℕ) (m : Map (SessionRow C)) → (complete_all now m).1 ≡ live_count m
  unfolding complete_all live_count
  complete_all-live_count now [] = refl
  complete_all-live_count now ((id, s) ∷ m) = elim (Bool-cases (is_live s)) [
    | inl e ↦ rw e (ap suc (complete_all-live_count now m))
    | inr e ↦ rw e (complete_all-live_count now m)
  ]

  complete_all-lookup :
      (now : ℕ) (m : Map (SessionRow C)) (id : Bytes) (s : SessionRow C)
      → lookup m id ≡ some s
      → lookup (complete_all now m).0 id ≡ some (settled now s)
  unfolding complete_all lookup settled
  complete_all-lookup now [] id s h = cc
  complete_all-lookup now ((k, t) ∷ m) id s h = elim (Bool-cases (text_eq k id)) [
    | inl e ↦
        let h' : some t ≡ some s = rw e at h in
        let same : t ≡ s = cc in
        elim (Bool-cases (is_live t)) [
          | inl l ↦
              rw (l, e)
                (subst (λ u. some (completed now t) ≡ some (settled now u)) same (rw l refl))
          | inr l ↦ rw (l, e) (subst (λ u. some t ≡ some (settled now u)) same (rw l refl))
        ]
    | inr e ↦
        let h' : lookup m id ≡ some s = rw e at h in
        elim (Bool-cases (is_live t)) [
          | inl l ↦ rw (l, e) (complete_all-lookup now m id s h')
          | inr l ↦ rw (l, e) (complete_all-lookup now m id s h')
        ]
  ]

  -- After the start no session is pending or running, the count is that of the sessions that were, they
  -- are complete since now, and any other session is as it was.
  pub complete_running_sessions_lem :
      (m : MemStore C) (now : ℕ)
      → let r = complete_running_sessions m now in
        All IsOver r.0.sessions
        × (r.1 ≡ live_count m.sessions
            × ((id : Bytes) (s : SessionRow C)
                → lookup m.sessions id ≡ some s
                → lookup r.0.sessions id ≡ some (settled now s)))
  unfolding complete_running_sessions
  complete_running_sessions_lem m now = (
    complete_all-IsOver now m.sessions,
    (complete_all-live_count now m.sessions, complete_all-lookup now m.sessions),
  )
