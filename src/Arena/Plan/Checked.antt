-- ===== src/Arena/Plan/Checked.antt =====
-- What holds of a plan that passes its checks.
use acpp.Prelude.{
  All, Bytes, text_eq, ℕ, suc, ◌≡◌, ◌≢◌, refl, true, false, Bool-cases, inl, inr, Option, none,
  some, List, [], ◌∷◌,
}
use acpp.Arena.{mem}
use acpp.Arena.Plan.{
  Plan, Agent, Resource, Error, validate, check_agents, check_resources, first_error, check_lists,
}

abbrev pub IsGiven : Bytes → Type 0
IsGiven s = text_eq s [] ≡ false

-- No two agents have one name.
abbrev pub Distinct : List Agent → Type 0
Distinct [] = Unit
Distinct (a ∷ as_) = All (λ b. text_eq a.name b.name ≡ false) as_ × Distinct as_

pub record Checked (p : Plan) : Type 0 where
  pub named : IsGiven p.name
  pub prompted : IsGiven p.prompt
  pub some_agent : p.agents ≢ []
  pub agents_set : All (λ a. IsGiven a.name × IsGiven a.agent) p.agents
  pub distinct : Distinct p.agents
  pub sources_set : All (λ r. IsGiven r.src) p.resources

split_fresh :
    (n : Bytes) (seen : List Bytes) (as_ : List Agent)
    → All (λ b. mem b.name (n ∷ seen) ≡ false) as_
    → All (λ b. text_eq n b.name ≡ false) as_ × All (λ b. mem b.name seen ≡ false) as_
unfolding mem
split_fresh n seen [] h = (tt, tt)
split_fresh n seen (b ∷ as_) (p, h) = elim (Bool-cases (text_eq n b.name)) [
  | inl e ↦ let no : true ≡ false = rw e at p in cc
  | inr e ↦
      let p' : mem b.name seen ≡ false = rw e at p in
      let (x, y) = split_fresh n seen as_ h in ((e, x), (p', y))
]

agents_checked :
    (i : ℕ) (seen : List Bytes) (as_ : List Agent)
    → check_agents i seen as_ ≡ none
    → All (λ a. IsGiven a.name × IsGiven a.agent) as_
      × (Distinct as_ × All (λ b. mem b.name seen ≡ false) as_)
unfolding check_agents mem
agents_checked i seen [] h = (tt, (tt, tt))
agents_checked i seen (a ∷ as_) h = elim (Bool-cases (text_eq a.name [])) [
  | inl e ↦ let no : some _ ≡ none = rw e at h in cc
  | inr e ↦ elim (Bool-cases (text_eq a.agent [])) [
    | inl d ↦ let no : some _ ≡ none = rw (e, d) at h in cc
    | inr d ↦ elim (Bool-cases (mem a.name seen)) [
      | inl m ↦ let no : some _ ≡ none = rw (e, d, m) at h in cc
      | inr m ↦
          let h' : check_agents (suc i) (a.name ∷ seen) as_ ≡ none = rw (e, d, m) at h in
          let (set, (apart, fresh)) = agents_checked (suc i) (a.name ∷ seen) as_ h' in
          let (new, unseen) = split_fresh a.name seen as_ fresh in
          (((e, d), set), ((new, apart), (m, unseen)))
    ]
  ]
]

resources_checked :
    (i : ℕ) (rs : List Resource) → check_resources i rs ≡ none → All (λ r. IsGiven r.src) rs
unfolding check_resources
resources_checked i [] h = tt
resources_checked i (r ∷ rs) h = elim (Bool-cases (text_eq r.src [])) [
  | inl e ↦ let no : some _ ≡ none = rw e at h in cc
  | inr e ↦
      let h' : check_resources (suc i) rs ≡ none = rw e at h in (e, resources_checked (suc i) rs h')
]

both_none : (e f : Option Error) → first_error e f ≡ none → e ≡ none × f ≡ none
unfolding first_error
both_none none f h = (refl, h)
both_none (some e) f h = cc

lists_checked :
    (as_ : List Agent) (rs : List Resource)
    → check_lists as_ rs ≡ none
    → as_ ≢ []
      × (All (λ a. IsGiven a.name × IsGiven a.agent) as_
          × (Distinct as_ × All (λ r. IsGiven r.src) rs))
unfolding check_lists
lists_checked [] rs h = cc
lists_checked (a ∷ as_) rs h =
    let (x, y) = both_none (check_agents 0 [] (a ∷ as_)) (check_resources 0 rs) h in
    let (set, (apart, fresh)) = agents_checked 0 [] (a ∷ as_) x in
    ((λ e. cc), (set, (apart, resources_checked 0 rs y)))

-- A plan that passes the checks has a name and a prompt, at least one agent, each with a name of its own
-- and a command, and a source for each resource.
pub validate-Checked : (p : Plan) → validate p ≡ none → Checked p
unfolding validate
validate-Checked p h = elim (Bool-cases (text_eq p.name [])) [
  | inl e ↦ let no : some _ ≡ none = rw e at h in cc
  | inr e ↦ elim (Bool-cases (text_eq p.prompt [])) [
    | inl d ↦ let no : some _ ≡ none = rw (e, d) at h in cc
    | inr d ↦
        let h' : check_lists p.agents p.resources ≡ none = rw (e, d) at h in
        let (x, (y, (z, w))) = lists_checked p.agents p.resources h' in
        record {
          named = e;
          prompted = d;
          some_agent = x;
          agents_set = y;
          distinct = z;
          sources_set = w;
        }
  ]
]
