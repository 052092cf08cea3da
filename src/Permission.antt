-- ===== src/Permission.antt =====
-- permission/allow_all.go: the answer to a request for permission.
pub mod Decision
use acpp.Prelude.{
  Bytes, codes, has_prefix, Bool, true, false, ◌&&◌, Option, none, some, List, [], ◌∷◌,
  if◌then◌else◌,
}

pub record PermissionOption : Type 0 where
  pub kind : Bytes
  pub name : Bytes
  pub option_id : Bytes

pub data RequestPermissionResponse : Type 0 where
  cancelled : RequestPermissionResponse
  selected : Bytes → RequestPermissionResponse

-- `strings.Contains`
contains : Bytes → Bytes → Bool
contains [] sub = has_prefix [] sub
contains (c ∷ s) sub = if has_prefix (c ∷ s) sub then true else contains s sub

unfoldable pub allows_once : PermissionOption → Bool
unfolding contains
allows_once o = contains o.kind (codes "allow") && contains o.kind (codes "once")

unfoldable pub first_allow_once : List PermissionOption → Option RequestPermissionResponse
unfolding allows_once
first_allow_once [] = none
first_allow_once (o ∷ os) =
    let rest = first_allow_once os in if allows_once o then some (selected o.option_id) else rest

-- `none` is no answer at all.
unfoldable pub decide : List PermissionOption → Option RequestPermissionResponse
unfolding first_allow_once
decide [] = some cancelled
decide (o ∷ os) = first_allow_once (o ∷ os)
