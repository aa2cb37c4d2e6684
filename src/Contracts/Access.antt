-- ===== src/Contracts/Access.antt =====
-- ParameterizedAccessControl.sol: roles that an account holds in a domain (a network), each with an
-- admin role, and the super admins. The sender is `_msgSender()`.
pub mod Laws
use on_chain_identity_gatewa.Common.{
  ℕ, ◌==◌, Bool, true, false, not, Result, ok, err, if◌then◌else◌,
}
use on_chain_identity_gatewa.Common.Results.{◌>>=◌, ◌>>◌}
use on_chain_identity_gatewa.Contracts.{
  Address, put, Revert, unauthorized, not_super_admin, no_self_admin_removal, renounce_not_for_self,
}

-- `_roleDomain`, as its two nested mappings by domain and role, and `_superAdmins`
pub record Access : Type 0 where
  pub members : ℕ → ℕ → Address → Bool
  pub admin_role : ℕ → ℕ → ℕ
  pub super_admins : Address → Bool

abbrev pub default_admin_role : ℕ
default_admin_role = 0

-- `hasRole`
abbrev pub has_role : ℕ → ℕ → Address → Access → Bool
has_role role domain account s = s.members domain role account

-- `getRoleAdmin`
abbrev pub get_role_admin : ℕ → ℕ → Access → ℕ
get_role_admin role domain s = s.admin_role domain role

-- `isSuperAdmin`
abbrev pub is_super_admin : Address → Access → Bool
is_super_admin account s = s.super_admins account

-- `members[domain][role][account] = held`
abbrev pub set_member : ℕ → ℕ → Address → Bool → Access → Access
set_member role domain account held s = record s {
  members =
      put domain (put role (put account held (s.members domain role)) (s.members domain)) s.members;
}

-- `_setRoleAdmin`
unfoldable pub set_role_admin : (role domain admin_role : ℕ) → Access → Access
set_role_admin role domain admin s = record s {
  admin_role = put domain (put role admin (s.admin_role domain)) s.admin_role;
}

-- `_grantRole`
unfoldable pub grant : (role domain : ℕ) (account : Address) → Access → Access
grant role domain account s =
    if not (has_role role domain account s) then set_member role domain account true s else s

-- `_revokeRole`
unfoldable pub remove : (role domain : ℕ) (account : Address) → Access → Access
remove role domain account s =
    if has_role role domain account s then set_member role domain account false s else s

-- `_checkRole`
abbrev pub check_role : (role domain : ℕ) (account : Address) → Access → Result Revert (Unit {0})
check_role role domain account s =
    if not (has_role role domain account s) then err (unauthorized account domain role) else ok tt

-- `_checkAdmin`
abbrev pub check_admin : Address → Access → Result Revert (Unit {0})
check_admin account s =
    if not (is_super_admin account s) then err (not_super_admin account) else ok tt

-- `grantRole`
unfoldable pub grant_role :
    (sender : Address) (role domain : ℕ) → Address → Access → Result Revert Access
grant_role sender role domain account s = do
  check_role (get_role_admin role domain s) domain sender s
  ok (grant role domain account s)

-- `revokeRole`
unfoldable pub revoke_role :
    (sender : Address) (role domain : ℕ) → Address → Access → Result Revert Access
revoke_role sender role domain account s = do
  check_role (get_role_admin role domain s) domain sender s
  ok (remove role domain account s)

-- `renounceRole`
unfoldable pub renounce_role :
    (sender : Address) (role domain : ℕ) → Address → Access → Result Revert Access
renounce_role sender role domain account s =
    if not (account == sender)
    then err (renounce_not_for_self role account)
    else ok (remove role domain account s)

-- `setSuperAdmin`
unfoldable pub set_super_admin : (sender account : Address) → Access → Result Revert Access
set_super_admin sender account s = do
  check_admin sender s
  ok (record s { super_admins = put account true s.super_admins })

-- `revokeSuperAdmin`
unfoldable pub revoke_super_admin : (sender account : Address) → Access → Result Revert Access
revoke_super_admin sender account s = do
  check_admin sender s
  if account == sender
      then err no_self_admin_removal
      else ok (record s { super_admins = put account false s.super_admins })
