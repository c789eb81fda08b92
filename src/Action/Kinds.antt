-- ===== src/Action/Kinds.antt =====
-- The groups of actions that the program asks for, src/action.rs.
use tale.Prelude.{Bool, true, false, ◌||◌}
use tale.Action.Id.{ActionId}
use tale.Action.Id.{
  local_connect, local_disconnect, local_preferences_edit, local_exit_node_select,
  local_routes_edit_advertisements, local_account_switch, local_account_login, local_account_logout,
  local_account_remove, local_ssh_open, local_nc_open, local_syspolicy_reload,
  services_serve_refresh, services_serve_create, services_serve_edit, services_serve_remove,
  services_serve_reset, services_funnel_create, services_funnel_edit, services_funnel_publish,
  services_funnel_unpublish, services_funnel_reset, devices_taildrop_send, devices_taildrop_receive,
  services_drive_refresh, services_drive_share, services_drive_rename, services_drive_unshare,
  services_certificate_obtain, services_metrics_refresh, services_bug_report_create,
  services_drive_enable_alpha, profile_activate, admin_refresh_current, admin_refresh_all,
  view_profiles, view_users, view_routes, view_dns, view_access, view_credentials,
  users_open_devices, routes_open_device, dns_open_local_diagnostics, access_copy_source,
  activity_select_window, activity_open_actor, activity_open_target, settings_inspect_capabilities,
  admin_device_rename, admin_device_tags_replace, admin_device_approve,
  admin_device_revoke_approval, admin_device_key_expiry_configure, admin_device_key_expire_now,
  admin_device_delete, admin_routes_replace_approvals, admin_dns_preferences_edit,
  admin_dns_nameservers_replace, admin_dns_search_paths_replace, admin_dns_split_create,
  admin_dns_split_edit, admin_dns_split_remove, admin_user_approve, admin_user_role_change,
  admin_user_suspend, admin_user_restore, admin_user_delete, admin_policy_edit,
  admin_policy_editor_reopen, admin_policy_candidate_discard, admin_policy_remote_refresh,
  admin_policy_validate, admin_policy_preview, admin_policy_diff, admin_policy_apply,
  admin_policy_workflow_close, admin_credential_auth_key_create, admin_credential_revoke,
  profile_credential_remove, audit_filter_time, audit_filter_actor, audit_filter_action,
  audit_filter_target, audit_open_target, audit_open_policy_diff, batch_review_outcomes,
  overview_health_open_resource, overview_health_run_suggested_action, activity_flows_select_window,
  activity_flows_aggregate, activity_flows_open_device, admin_webhook_create, admin_webhook_edit,
  admin_webhook_test, admin_webhook_rotate_secret, admin_webhook_delete, admin_log_stream_replace,
  admin_log_stream_delete, admin_network_logs_settings, access_explorer_ask,
  access_explorer_open_rule,
}

unfoldable pub needs_local_verification : ActionId → Bool
needs_local_verification local_connect = true
needs_local_verification local_disconnect = true
needs_local_verification local_preferences_edit = true
needs_local_verification local_exit_node_select = true
needs_local_verification local_routes_edit_advertisements = true
needs_local_verification local_account_switch = true
needs_local_verification local_account_remove = true
needs_local_verification local_syspolicy_reload = true
needs_local_verification _ = false

unfoldable pub is_service_write : ActionId → Bool
is_service_write services_serve_create = true
is_service_write services_serve_edit = true
is_service_write services_serve_remove = true
is_service_write services_serve_reset = true
is_service_write services_funnel_create = true
is_service_write services_funnel_edit = true
is_service_write services_funnel_publish = true
is_service_write services_funnel_unpublish = true
is_service_write services_funnel_reset = true
is_service_write devices_taildrop_send = true
is_service_write devices_taildrop_receive = true
is_service_write services_drive_share = true
is_service_write services_drive_rename = true
is_service_write services_drive_unshare = true
is_service_write services_certificate_obtain = true
is_service_write services_bug_report_create = true
is_service_write _ = false

-- The `matches!` of `is_mutating`.
is_other_mutating : ActionId → Bool
is_other_mutating local_account_login = true
is_other_mutating local_account_logout = true
is_other_mutating _ = false

unfoldable pub is_mutating : ActionId → Bool
unfolding is_other_mutating needs_local_verification is_service_write
is_mutating a = needs_local_verification a || (is_other_mutating a || is_service_write a)

unfoldable pub is_admin_device_mutation : ActionId → Bool
is_admin_device_mutation admin_device_rename = true
is_admin_device_mutation admin_device_tags_replace = true
is_admin_device_mutation admin_device_approve = true
is_admin_device_mutation admin_device_revoke_approval = true
is_admin_device_mutation admin_device_key_expiry_configure = true
is_admin_device_mutation admin_device_key_expire_now = true
is_admin_device_mutation admin_device_delete = true
is_admin_device_mutation _ = false

unfoldable pub is_admin_dns_mutation : ActionId → Bool
is_admin_dns_mutation admin_dns_preferences_edit = true
is_admin_dns_mutation admin_dns_nameservers_replace = true
is_admin_dns_mutation admin_dns_search_paths_replace = true
is_admin_dns_mutation admin_dns_split_create = true
is_admin_dns_mutation admin_dns_split_edit = true
is_admin_dns_mutation admin_dns_split_remove = true
is_admin_dns_mutation _ = false

unfoldable pub is_admin_user_mutation : ActionId → Bool
is_admin_user_mutation admin_user_approve = true
is_admin_user_mutation admin_user_role_change = true
is_admin_user_mutation admin_user_suspend = true
is_admin_user_mutation admin_user_restore = true
is_admin_user_mutation admin_user_delete = true
is_admin_user_mutation _ = false

-- The `matches!` of `is_admin_mutation`.
is_other_admin_mutation : ActionId → Bool
is_other_admin_mutation admin_routes_replace_approvals = true
is_other_admin_mutation admin_policy_candidate_discard = true
is_other_admin_mutation admin_policy_apply = true
is_other_admin_mutation admin_credential_auth_key_create = true
is_other_admin_mutation admin_credential_revoke = true
is_other_admin_mutation profile_credential_remove = true
is_other_admin_mutation _ = false

unfoldable pub is_admin_mutation : ActionId → Bool
unfolding is_other_admin_mutation is_admin_device_mutation is_admin_dns_mutation
    is_admin_user_mutation
is_admin_mutation a =
    is_admin_device_mutation a
    || (is_admin_dns_mutation a || (is_admin_user_mutation a || is_other_admin_mutation a))

-- The `matches!` of `is_admin`.
is_other_admin : ActionId → Bool
is_other_admin profile_activate = true
is_other_admin admin_refresh_current = true
is_other_admin admin_refresh_all = true
is_other_admin view_profiles = true
is_other_admin view_users = true
is_other_admin view_routes = true
is_other_admin view_dns = true
is_other_admin view_access = true
is_other_admin view_credentials = true
is_other_admin users_open_devices = true
is_other_admin routes_open_device = true
is_other_admin dns_open_local_diagnostics = true
is_other_admin access_copy_source = true
is_other_admin activity_select_window = true
is_other_admin activity_open_actor = true
is_other_admin activity_open_target = true
is_other_admin settings_inspect_capabilities = true
is_other_admin admin_policy_edit = true
is_other_admin admin_policy_editor_reopen = true
is_other_admin admin_policy_remote_refresh = true
is_other_admin admin_policy_validate = true
is_other_admin admin_policy_preview = true
is_other_admin admin_policy_diff = true
is_other_admin admin_policy_workflow_close = true
is_other_admin audit_filter_time = true
is_other_admin audit_filter_actor = true
is_other_admin audit_filter_action = true
is_other_admin audit_filter_target = true
is_other_admin audit_open_target = true
is_other_admin audit_open_policy_diff = true
is_other_admin batch_review_outcomes = true
is_other_admin overview_health_open_resource = true
is_other_admin overview_health_run_suggested_action = true
is_other_admin activity_flows_select_window = true
is_other_admin activity_flows_aggregate = true
is_other_admin activity_flows_open_device = true
is_other_admin admin_webhook_create = true
is_other_admin admin_webhook_edit = true
is_other_admin admin_webhook_test = true
is_other_admin admin_webhook_rotate_secret = true
is_other_admin admin_webhook_delete = true
is_other_admin admin_log_stream_replace = true
is_other_admin admin_log_stream_delete = true
is_other_admin admin_network_logs_settings = true
is_other_admin access_explorer_ask = true
is_other_admin access_explorer_open_rule = true
is_other_admin _ = false

unfoldable pub is_admin : ActionId → Bool
unfolding is_other_admin is_admin_mutation
is_admin a = is_admin_mutation a || is_other_admin a

unfoldable pub is_taildrive : ActionId → Bool
is_taildrive services_drive_refresh = true
is_taildrive services_drive_share = true
is_taildrive services_drive_rename = true
is_taildrive services_drive_unshare = true
is_taildrive services_drive_enable_alpha = true
is_taildrive _ = false

-- The `matches!` of `is_local_service`.
is_other_local_service : ActionId → Bool
is_other_local_service services_serve_refresh = true
is_other_local_service services_drive_refresh = true
is_other_local_service services_metrics_refresh = true
is_other_local_service services_drive_enable_alpha = true
is_other_local_service _ = false

unfoldable pub is_local_service : ActionId → Bool
unfolding is_other_local_service is_service_write
is_local_service a = is_service_write a || is_other_local_service a

unfoldable pub is_local_operator : ActionId → Bool
is_local_operator local_connect = true
is_local_operator local_disconnect = true
is_local_operator local_preferences_edit = true
is_local_operator local_exit_node_select = true
is_local_operator local_routes_edit_advertisements = true
is_local_operator local_account_switch = true
is_local_operator local_account_login = true
is_local_operator local_account_logout = true
is_local_operator local_account_remove = true
is_local_operator local_ssh_open = true
is_local_operator local_nc_open = true
is_local_operator local_syspolicy_reload = true
is_local_operator _ = false
