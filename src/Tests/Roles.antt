-- ===== src/Tests/Roles.antt =====
-- Runs of core/user_roles.go, with ids that are in lower case already.
use cc2wechat.Prelude.{String, ◌≡◌, refl, true, none, some, List, [], ◌∷◌}
use cc2wechat.Prelude.Lists.{contains}
use cc2wechat.Prelude.GoMap.{get, put}
use cc2wechat.Commands.{Candidate}
use cc2wechat.UserRoles.{RoleInput, UserRole, configure, resolve_role, plain_ids}
use cc2wechat.UserRoles.Resolve.{any, lists, called}
use cc2wechat.UserRoles.Order.{Resolution, resolve_role-Resolution}
use cc2wechat.UserRoles.Validate.{
  ok, validate_role_inputs, check_roles, check_role, check_ids, check_id, check_end, has_name,
}
use cc2wechat.UserRoles.Validate.Unique.{owned, resolve_role-validated}

abbrev same : String → String
same s = s

abbrev table : List Candidate
table = record { names = "shell" ∷ "sh" ∷ []; id = "shell" } ∷ []

abbrev roles : List RoleInput
roles =
    record {
      name = "member";
      user_ids = "*" ∷ [];
      disabled_commands = "shell" ∷ [];
      rate_limit = none;
    }
    ∷ record {
      name = "admin";
      user_ids = "ann" ∷ "bob" ∷ [];
      disabled_commands = [];
      rate_limit = none;
    }
    ∷ []

resolve_role-Resolution_example :
    Resolution
      (lists same table "bob")
      "member"
      roles
      (resolve_role same table "bob" (configure same table "member" roles))
resolve_role-Resolution_example = resolve_role-Resolution same table "member" roles "bob"

valid : validate_role_inputs same "member" roles ≡ ok tt
unfolding validate_role_inputs check_roles check_role check_ids check_id get put check_end has_name
valid = refl

bob_listed : any (called "admin" (lists same table "bob")) roles ≡ true
unfolding any lists contains plain_ids
bob_listed = refl

resolve_role-validated_example :
    ((other : String) → any (owned same table "bob" other) roles ≡ true → other ≡ "admin")
    × (role : UserRole) × (resolve_role same table "bob" (configure same table "member" roles)
        ≡ some role)
    × (role.name ≡ "admin")
resolve_role-validated_example =
    resolve_role-validated same table "member" "bob" "admin" roles valid bob_listed
