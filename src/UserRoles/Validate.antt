-- ===== src/UserRoles/Validate.antt =====
-- `ValidateRoleInputs` of core/user_roles.go.
pub mod Unique
use cc2wechat.Prelude.{
  ℕ, ◌+◌, String, Bool, true, false, not, ◌&&◌, Option, none, some, List, [], ◌∷◌, ltb, ◌==◌,
  if◌then◌else◌,
}
use cc2wechat.Prelude.Lists.{contains}
use cc2wechat.Prelude.GoMap.{GoMap, get, put}
use cc2wechat.UserRoles.{RoleInput}

pub data RoleError : Type 0 where
  no_roles : RoleError
  empty_user_ids : String → RoleError
  duplicate_user : String → String → String → RoleError
  many_wildcards : RoleError
  unknown_default : String → RoleError

pub data Checked {ℓ} (A : Type ℓ) : Type ℓ where
  ok : A → Checked A
  err : RoleError → Checked A

infixl 5 ◌>>=◌
abbrev pub ◌>>=◌ {ℓ κ} : {A : Type ℓ} {B : Type κ} → Checked A → (A → Checked B) → Checked B
ok a >>= f = f a
err e >>= f = err e

-- `wildcardCount` and `seenUserIDs`.
pub record Seen : Type 0 where
  pub wildcards : ℕ
  pub owners : GoMap String

module _ (to_lower : String → String) where
  -- One round of the inner loop.
  unfoldable pub check_id : String → String → Seen → Checked Seen
  check_id name uid s =
      if uid == "*"
      then ok (record s { wildcards = s.wildcards + 1 })
      else elim (get (to_lower uid) s.owners) [
        | some prev ↦ err (duplicate_user uid prev name)
        | none ↦ ok (record s { owners = put (to_lower uid) name s.owners })
      ]

  unfoldable pub check_ids : String → List String → Seen → Checked Seen
  check_ids name [] s = ok s
  check_ids name (uid ∷ uids) s = do s' ← check_id name uid s; check_ids name uids s'

  unfoldable pub check_role : RoleInput → Seen → Checked Seen
  check_role ri s = elim ri.user_ids [
    | [] ↦ err (empty_user_ids ri.name)
    | uid ∷ uids ↦ check_ids ri.name (uid ∷ uids) s
  ]

  unfoldable pub check_roles : List RoleInput → Seen → Checked Seen
  check_roles [] s = ok s
  check_roles (ri ∷ rest) s = do s' ← check_role ri s; check_roles rest s'

  unfoldable pub has_name : String → List RoleInput → Bool
  has_name name [] = false
  has_name name (ri ∷ rest) = if ri.name == name then true else has_name name rest

  unfoldable pub check_end : String → List RoleInput → Seen → Checked (Unit {0})
  check_end default_role roles s =
      if ltb 1 s.wildcards
      then err many_wildcards
      else if not (default_role == "") && not (has_name default_role roles)
      then err (unknown_default default_role)
      else ok tt

  unfoldable pub validate_role_inputs : String → List RoleInput → Checked (Unit {0})
  validate_role_inputs default_role [] = err no_roles
  validate_role_inputs default_role (ri ∷ rest) = do
    s ← check_roles (ri ∷ rest) (record { wildcards = 0; owners = [] })
    check_end default_role (ri ∷ rest) s
