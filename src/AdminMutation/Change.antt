-- ===== src/AdminMutation/Change.antt =====
-- The changes of src/domain/admin_mutation.rs: the action, risk and resources of each.
use tale.Prelude.{Text, List, [], ◌∷◌, Bool, true, false, Option, none, some, String, ◌≡◌, refl}
use tale.Action.{Risk, reversible, disruptive, destructive_or_secret}
use tale.Action.Id.{
  ActionId, admin_device_rename, admin_device_tags_replace, admin_device_approve,
  admin_device_revoke_approval, admin_device_key_expiry_configure, admin_device_key_expire_now,
  admin_device_delete, admin_routes_replace_approvals, admin_dns_nameservers_replace,
  admin_dns_preferences_edit, admin_dns_search_paths_replace, admin_dns_split_create,
  admin_dns_split_edit, admin_dns_split_remove, admin_user_approve, admin_user_role_change,
  admin_user_suspend, admin_user_restore, admin_user_delete,
}
use tale.Action.Kinds.{
  is_admin_mutation, is_admin_device_mutation, is_admin_dns_mutation, is_admin_user_mutation,
}

pub data AdminResourceKind : Type 0 where
  device device_routes user tailnet_dns : AdminResourceKind

unfoldable pub label : AdminResourceKind → String
label device = "device"
label device_routes = "device routes"
label user = "user"
label tailnet_dns = "tailnet DNS"

pub record AdminResourceLockKey : Type 0 where
  pub profile : Text
  pub kind : AdminResourceKind
  pub resource_id : Text

pub data AdminChange : Type 0 where
  device_rename : Text → AdminChange
  device_tags : List Text → AdminChange
  device_approval : Bool → AdminChange
  device_key_expiry : Bool → AdminChange
  device_expire_now device_delete : AdminChange
  device_route_list : List Text → AdminChange
  dns_nameservers : List Text → AdminChange
  dns_preferences : Bool → AdminChange
  dns_search_paths : List Text → AdminChange
  dns_split_mapping : (domain : Text) (resolvers : Option (List Text)) (create : Bool) → AdminChange
  user_approval : AdminChange
  user_role : Text → AdminChange
  user_suspend user_restore user_delete : AdminChange

unfoldable pub action_id : AdminChange → ActionId
action_id (device_rename _) = admin_device_rename
action_id (device_tags _) = admin_device_tags_replace
action_id (device_approval true) = admin_device_approve
action_id (device_approval false) = admin_device_revoke_approval
action_id (device_key_expiry _) = admin_device_key_expiry_configure
action_id device_expire_now = admin_device_key_expire_now
action_id device_delete = admin_device_delete
action_id (device_route_list _) = admin_routes_replace_approvals
action_id (dns_nameservers _) = admin_dns_nameservers_replace
action_id (dns_preferences _) = admin_dns_preferences_edit
action_id (dns_search_paths _) = admin_dns_search_paths_replace
action_id (dns_split_mapping _ _ true) = admin_dns_split_create
action_id (dns_split_mapping _ (some _) false) = admin_dns_split_edit
action_id (dns_split_mapping _ none false) = admin_dns_split_remove
action_id user_approval = admin_user_approve
action_id (user_role _) = admin_user_role_change
action_id user_suspend = admin_user_suspend
action_id user_restore = admin_user_restore
action_id user_delete = admin_user_delete

unfoldable pub risk : AdminChange → Risk
risk (device_rename _) = reversible
risk device_expire_now = destructive_or_secret
risk device_delete = destructive_or_secret
risk user_suspend = destructive_or_secret
risk user_delete = destructive_or_secret
risk _ = disruptive

unfoldable pub resource_kind : AdminChange → AdminResourceKind
resource_kind (device_route_list _) = device_routes
resource_kind (dns_nameservers _) = tailnet_dns
resource_kind (dns_preferences _) = tailnet_dns
resource_kind (dns_search_paths _) = tailnet_dns
resource_kind (dns_split_mapping _ _ _) = tailnet_dns
resource_kind user_approval = user
resource_kind (user_role _) = user
resource_kind user_suspend = user
resource_kind user_restore = user
resource_kind user_delete = user
resource_kind _ = device

-- Deleting a device locks its routes too.
unfoldable pub lock_keys : AdminChange → Text → Text → List AdminResourceLockKey
unfolding resource_kind
lock_keys device_delete of_profile target_id =
    record { profile = of_profile; kind = device; resource_id = target_id }
    ∷ record { profile = of_profile; kind = device_routes; resource_id = target_id }
    ∷ []
lock_keys change of_profile target_id =
    record { profile = of_profile; kind = resource_kind change; resource_id = target_id } ∷ []

-- What the kinds of actions say of the action of a change to a kind of resource.
abbrev pub agrees : AdminResourceKind → ActionId → Bool
agrees device action = is_admin_device_mutation action
agrees device_routes action = is_admin_mutation action
agrees tailnet_dns action = is_admin_dns_mutation action
agrees user action = is_admin_user_mutation action

-- The action of every change is classed as an administrative mutation, and as one of the kind of
-- resource that the change locks.
pub action_id-agrees :
    (change : AdminChange)
    → (is_admin_mutation (action_id change) ≡ true)
      × (agrees (resource_kind change) (action_id change) ≡ true)
unfolding action_id resource_kind is_admin_mutation
action_id-agrees (device_approval true) = (refl, refl)
action_id-agrees (device_approval false) = (refl, refl)
action_id-agrees (dns_split_mapping _ _ true) = (refl, refl)
action_id-agrees (dns_split_mapping _ (some _) false) = (refl, refl)
action_id-agrees (dns_split_mapping _ none false) = (refl, refl)
action_id-agrees (device_rename _) = (refl, refl)
action_id-agrees _ = (refl, refl)
