-- ===== src/Arena/Plan.antt =====
-- arena/plan.go: the checks of a plan.
pub mod Checked
use acpp.Prelude.{
  All, Bytes, codes, text_eq, ℕ, suc, ◌≡◌, refl, Bool, true, false, Bool-cases, inl, inr, Option,
  none, some, List, [], ◌∷◌, if◌then◌else◌,
}
use acpp.Arena.{mem}

pub record Resource : Type 0 where
  pub src : Bytes
  pub dest : Bytes

pub record Agent : Type 0 where
  pub name : Bytes
  pub agent : Bytes

pub record Evaluation : Type 0 where
  pub prompt : Bytes
  pub sandbox : Bytes
  pub profiles : Bytes

pub record Plan : Type 0 where
  pub name : Bytes
  pub resources : List Resource
  pub prompt : Bytes
  pub agents : List Agent
  pub artifacts : List Bytes
  pub evaluation : Evaluation

pub data Error : Type 0 where
  no_name no_prompt no_agents : Error
  agent_unnamed : ℕ → Error
  no_command duplicate_name : Bytes → Error
  no_source : ℕ → Error

pub dest_or_default : Resource → Bytes
dest_or_default r = if text_eq r.dest [] then codes "." else r.dest

check_resources : ℕ → List Resource → Option Error
check_resources i [] = none
check_resources i (r ∷ rs) =
    let rest = check_resources (suc i) rs in if text_eq r.src [] then some (no_source i) else rest

check_agents : ℕ → List Bytes → List Agent → Option Error
unfolding mem
check_agents i seen [] = none
check_agents i seen (a ∷ as_) =
    let rest = check_agents (suc i) (a.name ∷ seen) as_ in
    if text_eq a.name []
    then some (agent_unnamed i)
    else if text_eq a.agent []
    then some (no_command a.name)
    else if mem a.name seen
    then some (duplicate_name a.name)
    else rest

first_error : Option Error → Option Error → Option Error
first_error none e = e
first_error (some e) f = some e

-- The agents, of which there must be one, and then the resources.
check_lists : List Agent → List Resource → Option Error
unfolding check_agents check_resources first_error
check_lists [] rs = some no_agents
check_lists (a ∷ as_) rs = first_error (check_agents 0 [] (a ∷ as_)) (check_resources 0 rs)

unfoldable pub validate : Plan → Option Error
unfolding check_lists
validate p =
    if text_eq p.name []
    then some no_name
    else if text_eq p.prompt []
    then some no_prompt
    else check_lists p.agents p.resources
