-- ===== src/Contracts/Access/Laws.antt =====
-- What granting and revoking change, for ParameterizedAccessControl.sol.
use on_chain_identity_gatewa.Common.{
  ℕ, ◌==◌, ◌≡◌, ◌≢◌, true, false, not, ◌&&◌, ◌||◌, ok, if◌then◌else◌, arith,
}
use on_chain_identity_gatewa.Contracts.{Address, put}
use on_chain_identity_gatewa.Contracts.Access
use on_chain_identity_gatewa.Contracts.Access.{Access}

-- Membership, after one entry of it was written.
pub grant_lem :
    (role domain r d : ℕ) (account a : Address) (s : Access)
    → Access.has_role r d a (Access.grant role domain account s)
      ≡ ((d == domain && r == role && a == account) || Access.has_role r d a s)
unfolding Access.grant
grant_lem role domain r d account a s = ground arith

pub remove_lem :
    (role domain r d : ℕ) (account a : Address) (s : Access)
    → Access.has_role r d a (Access.remove role domain account s)
      ≡ (not (d == domain && r == role && a == account) && Access.has_role r d a s)
unfolding Access.remove
remove_lem role domain r d account a s = ground arith

pub grant_role-ok :
    (sender : Address) (role domain : ℕ) (account : Address) (s s' : Access)
    → Access.grant_role sender role domain account s ≡ ok s'
    → (Access.has_role (Access.get_role_admin role domain s) domain sender s ≡ true)
      × (s' ≡ Access.grant role domain account s)
unfolding Access.grant_role
grant_role-ok sender role domain account s s' h = ground arith

pub revoke_role-ok :
    (sender : Address) (role domain : ℕ) (account : Address) (s s' : Access)
    → Access.revoke_role sender role domain account s ≡ ok s'
    → (Access.has_role (Access.get_role_admin role domain s) domain sender s ≡ true)
      × (s' ≡ Access.remove role domain account s)
unfolding Access.revoke_role
revoke_role-ok sender role domain account s s' h = ground arith

pub renounce_role-ok :
    (sender : Address) (role domain : ℕ) (account : Address) (s s' : Access)
    → Access.renounce_role sender role domain account s ≡ ok s'
    → (account ≡ sender) × (s' ≡ Access.remove role domain account s)
unfolding Access.renounce_role
renounce_role-ok sender role domain account s s' h = ground arith

-- Granting and revoking change no admin role and no super admin.
pub grant_frame :
    (role domain : ℕ) (account : Address) (s : Access)
    → ((Access.grant role domain account s).admin_role ≡ s.admin_role)
      × ((Access.grant role domain account s).super_admins ≡ s.super_admins)
unfolding Access.grant
grant_frame role domain account s = ground arith

pub remove_frame :
    (role domain : ℕ) (account : Address) (s : Access)
    → ((Access.remove role domain account s).admin_role ≡ s.admin_role)
      × ((Access.remove role domain account s).super_admins ≡ s.super_admins)
unfolding Access.remove
remove_frame role domain account s = ground arith

-- The admin role, after one was set.
pub set_role_admin_lem :
    (role domain admin r d : ℕ) (a : Address) (s : Access)
    → (Access.get_role_admin r d (Access.set_role_admin role domain admin s)
        ≡ (if d == domain && r == role then admin else Access.get_role_admin r d s))
      × (Access.has_role r d a (Access.set_role_admin role domain admin s)
          ≡ Access.has_role r d a s)
      × ((Access.set_role_admin role domain admin s).super_admins ≡ s.super_admins)
unfolding Access.set_role_admin
set_role_admin_lem role domain admin r d a s = ground arith

pub set_super_admin-ok :
    (sender account : Address) (s s' : Access)
    → Access.set_super_admin sender account s ≡ ok s'
    → (Access.is_super_admin sender s ≡ true)
      × (s' ≡ record s { super_admins = put account true s.super_admins })
unfolding Access.set_super_admin
set_super_admin-ok sender account s s' h = ground arith

pub revoke_super_admin-ok :
    (sender account : Address) (s s' : Access)
    → Access.revoke_super_admin sender account s ≡ ok s'
    → (Access.is_super_admin sender s ≡ true)
      × (account ≢ sender)
      × (s' ≡ record s { super_admins = put account false s.super_admins })
unfolding Access.revoke_super_admin
revoke_super_admin-ok sender account s s' h = ground arith
