-- ===== src/AdminMutation/Messages.antt =====
-- The messages of src/domain/admin_mutation.rs.
use tale.Prelude.{String, true, false, none, some}
use tale.AdminMutation.Change.{
  AdminChange, device_rename, device_tags, device_approval, device_key_expiry, device_expire_now,
  device_delete, device_route_list, dns_nameservers, dns_preferences, dns_search_paths,
  dns_split_mapping, user_approval, user_role, user_suspend, user_restore, user_delete,
}
use tale.AdminMutation.Lifecycle.{
  AdminMutationState, succeeded, succeeded_unverified, outcome_unknown,
}

unfoldable pub completed_message : AdminChange → String
completed_message (device_rename _) = "Device renamed"
completed_message (device_tags _) = "Device tags updated"
completed_message (device_approval true) = "Device approved"
completed_message (device_approval false) = "Device approval removed"
completed_message (device_key_expiry true) = "Device key expiry disabled"
completed_message (device_key_expiry false) = "Device key expiry enabled"
completed_message device_expire_now = "Device key expired"
completed_message device_delete = "Device removed"
completed_message (device_route_list _) = "Route approvals updated"
completed_message (dns_nameservers _) = "Nameservers updated"
completed_message (dns_preferences _) = "DNS preferences updated"
completed_message (dns_search_paths _) = "DNS search paths updated"
completed_message (dns_split_mapping _ _ true) = "Split DNS rule added"
completed_message (dns_split_mapping _ (some _) false) = "Split DNS rule updated"
completed_message (dns_split_mapping _ none false) = "Split DNS rule removed"
completed_message user_approval = "User approved"
completed_message (user_role _) = "User role changed"
completed_message user_suspend = "User suspended"
completed_message user_restore = "User restored"
completed_message user_delete = "User removed"

unfoldable pub failed_message : AdminChange → String
failed_message (device_rename _) = "Couldn’t rename device"
failed_message (device_tags _) = "Couldn’t update device tags"
failed_message (device_approval true) = "Couldn’t approve device"
failed_message (device_approval false) = "Couldn’t remove device approval"
failed_message (device_key_expiry _) = "Couldn’t change device key expiry"
failed_message device_expire_now = "Couldn’t expire device key"
failed_message device_delete = "Couldn’t remove device"
failed_message (device_route_list _) = "Couldn’t update route approvals"
failed_message (dns_nameservers _) = "Couldn’t update nameservers"
failed_message (dns_preferences _) = "Couldn’t update DNS preferences"
failed_message (dns_search_paths _) = "Couldn’t update DNS search paths"
failed_message (dns_split_mapping _ _ true) = "Couldn’t add split DNS rule"
failed_message (dns_split_mapping _ (some _) false) = "Couldn’t update split DNS rule"
failed_message (dns_split_mapping _ none false) = "Couldn’t remove split DNS rule"
failed_message user_approval = "Couldn’t approve user"
failed_message (user_role _) = "Couldn’t change user role"
failed_message user_suspend = "Couldn’t suspend user"
failed_message user_restore = "Couldn’t restore user"
failed_message user_delete = "Couldn’t remove user"

unfoldable pub unconfirmed_message : AdminChange → String
unconfirmed_message (device_rename _) = "Device rename may have succeeded; refresh failed"
unconfirmed_message (device_tags _) = "Tag update may have succeeded; refresh failed"
unconfirmed_message (device_approval _) = "Approval change may have succeeded; refresh failed"
unconfirmed_message (device_key_expiry _) = "Key expiry change may have succeeded; refresh failed"
unconfirmed_message device_expire_now = "Key expiry may have succeeded; refresh failed"
unconfirmed_message device_delete = "Device removal may have succeeded; refresh failed"
unconfirmed_message (device_route_list _) = "Route update may have succeeded; refresh failed"
unconfirmed_message (dns_nameservers _) = "Nameserver update may have succeeded; refresh failed"
unconfirmed_message (dns_preferences _) = "DNS update may have succeeded; refresh failed"
unconfirmed_message (dns_search_paths _) = "Search-path update may have succeeded; refresh failed"
unconfirmed_message (dns_split_mapping _ _ _) =
    "Split DNS change may have succeeded; refresh failed"
unconfirmed_message user_approval = "User approval may have succeeded; refresh failed"
unconfirmed_message (user_role _) = "Role change may have succeeded; refresh failed"
unconfirmed_message user_suspend = "User suspension may have succeeded; refresh failed"
unconfirmed_message user_restore = "User restore may have succeeded; refresh failed"
unconfirmed_message user_delete = "User removal may have succeeded; refresh failed"

unfoldable pub audit_action_class : AdminChange → String
audit_action_class (device_rename _) = "Update name for node"
audit_action_class (device_tags _) = "Update tags for node"
audit_action_class (device_approval true) = "Approve node"
audit_action_class (device_approval false) = "Approve node"
audit_action_class (device_key_expiry true) = "Disable key expiry for node"
audit_action_class (device_key_expiry false) = "Enable key expiry for node"
audit_action_class device_expire_now = "Expire node key"
audit_action_class device_delete = "Delete node"
audit_action_class (device_route_list _) = "Update approved routes for node"
audit_action_class (dns_nameservers _) = "Update DNS configuration for tailnet"
audit_action_class (dns_preferences _) = "Update DNS configuration for tailnet"
audit_action_class (dns_search_paths _) = "Update DNS configuration for tailnet"
audit_action_class (dns_split_mapping _ _ _) = "Update DNS configuration for tailnet"
audit_action_class user_approval = "Approve user"
audit_action_class (user_role _) = "Update role for user"
audit_action_class user_suspend = "Suspend user"
audit_action_class user_restore = "Restore user"
audit_action_class user_delete = "Delete user"

unfoldable pub result_message : AdminChange → AdminMutationState → String
unfolding completed_message unconfirmed_message failed_message
result_message change succeeded = completed_message change
result_message change succeeded_unverified = unconfirmed_message change
result_message change outcome_unknown = unconfirmed_message change
result_message change _ = failed_message change
