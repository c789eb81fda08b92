-- ===== src/Action/Names.antt =====
-- The names of actions, src/action.rs.
use tale.Prelude.{String, Text, codes, text_eq, find, Option}
use tale.Action.Id.{ActionId, declared}
use tale.Action.Id.{
  app_quit, view_command_line, view_filter, detail_search, device_detail_next_match,
  device_detail_previous_match, view_refresh, view_refresh_all, view_help, view_tasks,
  view_history_back, view_history_forward, collection_move_up, collection_move_down,
  collection_first, collection_last, collection_page_up, collection_page_down, collection_open,
  collection_back, collection_sort, collection_wide_columns, collection_inspect, resource_actions,
  resource_copy, task_stop, task_retry, task_history_toggle, mock_success, mock_failure,
  mock_cancellable, mock_non_cancellable, local_diagnostics, local_probe_connection, local_netcheck,
  local_netcheck_live, local_dns_status, local_dns_query, local_whois, diagnostic_copy,
  local_connect, local_disconnect, local_preferences_edit, local_exit_node_select,
  local_routes_edit_advertisements, local_account_switch, local_account_login, local_account_logout,
  local_account_remove, local_ssh_open, local_nc_open, local_syspolicy_reload, view_services,
  view_diagnostics, section_next, section_previous, services_serve_refresh, services_serve_create,
  services_serve_edit, services_serve_remove, services_serve_reset, services_funnel_create,
  services_funnel_edit, services_funnel_publish, services_funnel_unpublish, services_funnel_reset,
  devices_taildrop_send, devices_taildrop_receive, services_drive_refresh, services_drive_share,
  services_drive_rename, services_drive_unshare, services_certificate_obtain,
  services_metrics_refresh, services_bug_report_create, services_drive_enable_alpha,
  profile_activate, admin_refresh_current, admin_refresh_all, view_profiles, view_users,
  view_routes, view_dns, view_access, view_credentials, users_open_devices, routes_open_device,
  dns_open_local_diagnostics, access_copy_source, activity_select_window, activity_open_actor,
  activity_open_target, settings_inspect_capabilities, admin_device_rename,
  admin_device_tags_replace, admin_device_approve, admin_device_revoke_approval,
  admin_device_key_expiry_configure, admin_device_key_expire_now, admin_device_delete,
  admin_routes_replace_approvals, admin_dns_preferences_edit, admin_dns_nameservers_replace,
  admin_dns_search_paths_replace, admin_dns_split_create, admin_dns_split_edit,
  admin_dns_split_remove, admin_user_approve, admin_user_role_change, admin_user_suspend,
  admin_user_restore, admin_user_delete, admin_policy_edit, admin_policy_editor_reopen,
  admin_policy_candidate_discard, admin_policy_remote_refresh, admin_policy_validate,
  admin_policy_preview, admin_policy_diff, admin_policy_apply, admin_policy_workflow_close,
  admin_credential_auth_key_create, secret_result_copy, secret_result_close,
  admin_credential_revoke, profile_credential_remove, audit_filter_time, audit_filter_actor,
  audit_filter_action, audit_filter_target, audit_open_target, audit_open_policy_diff,
  batch_review_outcomes, overview_health_open_resource, overview_health_run_suggested_action,
  activity_flows_select_window, activity_flows_aggregate, activity_flows_open_device,
  admin_webhook_create, admin_webhook_edit, admin_webhook_test, admin_webhook_rotate_secret,
  admin_webhook_delete, admin_log_stream_replace, admin_log_stream_delete,
  admin_network_logs_settings, saved_view_create, saved_view_replace, saved_view_rename,
  saved_view_delete, saved_view_apply, collection_export, access_explorer_ask,
  access_explorer_open_rule,
}

unfoldable pub as_str : ActionId → String
as_str app_quit = "app.quit"
as_str view_command_line = "view.command_line"
as_str view_filter = "view.filter"
as_str detail_search = "detail.search"
as_str device_detail_next_match = "device_detail.next_match"
as_str device_detail_previous_match = "device_detail.previous_match"
as_str view_refresh = "view.refresh"
as_str view_refresh_all = "view.refresh_all"
as_str view_help = "view.help"
as_str view_tasks = "view.tasks"
as_str view_history_back = "view.history.back"
as_str view_history_forward = "view.history.forward"
as_str collection_move_up = "collection.move_up"
as_str collection_move_down = "collection.move_down"
as_str collection_first = "collection.first"
as_str collection_last = "collection.last"
as_str collection_page_up = "collection.page_up"
as_str collection_page_down = "collection.page_down"
as_str collection_open = "collection.open"
as_str collection_back = "collection.back"
as_str collection_sort = "collection.sort"
as_str collection_wide_columns = "collection.wide_columns"
as_str collection_inspect = "collection.inspect"
as_str resource_actions = "resource.actions"
as_str resource_copy = "resource.copy"
as_str task_stop = "task.stop"
as_str task_retry = "task.retry"
as_str task_history_toggle = "task.history.toggle"
as_str mock_success = "mock.task.success"
as_str mock_failure = "mock.task.failure"
as_str mock_cancellable = "mock.task.cancellable"
as_str mock_non_cancellable = "mock.task.non_cancellable"
as_str local_diagnostics = "local.diagnostics"
as_str local_probe_connection = "local.probe_connection"
as_str local_netcheck = "local.netcheck"
as_str local_netcheck_live = "local.netcheck_live"
as_str local_dns_status = "local.dns_status"
as_str local_dns_query = "local.dns_query"
as_str local_whois = "local.whois"
as_str diagnostic_copy = "diagnostic.copy"
as_str local_connect = "local.connect"
as_str local_disconnect = "local.disconnect"
as_str local_preferences_edit = "local.preferences.edit"
as_str local_exit_node_select = "local.exit_node.select"
as_str local_routes_edit_advertisements = "local.routes.edit_advertisements"
as_str local_account_switch = "local.account.switch"
as_str local_account_login = "local.account.login"
as_str local_account_logout = "local.account.logout"
as_str local_account_remove = "local.account.remove"
as_str local_ssh_open = "local.ssh.open"
as_str local_nc_open = "local.nc.open"
as_str local_syspolicy_reload = "local.syspolicy.reload"
as_str view_services = "view.services"
as_str view_diagnostics = "view.diagnostics"
as_str section_next = "section.next"
as_str section_previous = "section.previous"
as_str services_serve_refresh = "services.serve.refresh"
as_str services_serve_create = "services.serve.create"
as_str services_serve_edit = "services.serve.edit"
as_str services_serve_remove = "services.serve.remove"
as_str services_serve_reset = "services.serve.reset"
as_str services_funnel_create = "services.funnel.create"
as_str services_funnel_edit = "services.funnel.edit"
as_str services_funnel_publish = "services.funnel.publish"
as_str services_funnel_unpublish = "services.funnel.unpublish"
as_str services_funnel_reset = "services.funnel.reset"
as_str devices_taildrop_send = "devices.taildrop.send"
as_str devices_taildrop_receive = "devices.taildrop.receive"
as_str services_drive_refresh = "services.drive.refresh"
as_str services_drive_share = "services.drive.share"
as_str services_drive_rename = "services.drive.rename"
as_str services_drive_unshare = "services.drive.unshare"
as_str services_certificate_obtain = "services.certificate.obtain"
as_str services_metrics_refresh = "services.metrics.refresh"
as_str services_bug_report_create = "services.bugreport.create"
as_str services_drive_enable_alpha = "services.drive.enable_alpha"
as_str profile_activate = "profile.activate"
as_str admin_refresh_current = "admin.refresh.current"
as_str admin_refresh_all = "admin.refresh.all"
as_str view_profiles = "view.profiles"
as_str view_users = "view.users"
as_str view_routes = "view.routes"
as_str view_dns = "view.dns"
as_str view_access = "view.access"
as_str view_credentials = "view.credentials"
as_str users_open_devices = "users.open.devices"
as_str routes_open_device = "routes.open.device"
as_str dns_open_local_diagnostics = "dns.open.local_diagnostics"
as_str access_copy_source = "access.copy_source"
as_str activity_select_window = "activity.select_window"
as_str activity_open_actor = "activity.open_actor"
as_str activity_open_target = "activity.open_target"
as_str settings_inspect_capabilities = "settings.inspect_capabilities"
as_str admin_device_rename = "admin.device.rename"
as_str admin_device_tags_replace = "admin.device.tags.replace"
as_str admin_device_approve = "admin.device.approve"
as_str admin_device_revoke_approval = "admin.device.revoke_approval"
as_str admin_device_key_expiry_configure = "admin.device.key_expiry.configure"
as_str admin_device_key_expire_now = "admin.device.key_expire_now"
as_str admin_device_delete = "admin.device.delete"
as_str admin_routes_replace_approvals = "admin.routes.replace_approvals"
as_str admin_dns_preferences_edit = "admin.dns.preferences.edit"
as_str admin_dns_nameservers_replace = "admin.dns.nameservers.replace"
as_str admin_dns_search_paths_replace = "admin.dns.search_paths.replace"
as_str admin_dns_split_create = "admin.dns.split.create"
as_str admin_dns_split_edit = "admin.dns.split.edit"
as_str admin_dns_split_remove = "admin.dns.split.remove"
as_str admin_user_approve = "admin.user.approve"
as_str admin_user_role_change = "admin.user.role.change"
as_str admin_user_suspend = "admin.user.suspend"
as_str admin_user_restore = "admin.user.restore"
as_str admin_user_delete = "admin.user.delete"
as_str admin_policy_edit = "admin.policy.edit"
as_str admin_policy_editor_reopen = "admin.policy.editor.reopen"
as_str admin_policy_candidate_discard = "admin.policy.candidate.discard"
as_str admin_policy_remote_refresh = "admin.policy.remote.refresh"
as_str admin_policy_validate = "admin.policy.validate"
as_str admin_policy_preview = "admin.policy.preview"
as_str admin_policy_diff = "admin.policy.diff"
as_str admin_policy_apply = "admin.policy.apply"
as_str admin_policy_workflow_close = "admin.policy.workflow.close"
as_str admin_credential_auth_key_create = "admin.credential.auth_key.create"
as_str secret_result_copy = "secret_result.copy"
as_str secret_result_close = "secret_result.close"
as_str admin_credential_revoke = "admin.credential.revoke"
as_str profile_credential_remove = "profile.credential.remove"
as_str audit_filter_time = "audit.filter.time"
as_str audit_filter_actor = "audit.filter.actor"
as_str audit_filter_action = "audit.filter.action"
as_str audit_filter_target = "audit.filter.target"
as_str audit_open_target = "audit.open.target"
as_str audit_open_policy_diff = "audit.open.policy_diff"
as_str batch_review_outcomes = "batch.review_outcomes"
as_str overview_health_open_resource = "overview.health.open_resource"
as_str overview_health_run_suggested_action = "overview.health.run_suggested_action"
as_str activity_flows_select_window = "activity.flows.select_window"
as_str activity_flows_aggregate = "activity.flows.aggregate"
as_str activity_flows_open_device = "activity.flows.open_device"
as_str admin_webhook_create = "admin.webhook.create"
as_str admin_webhook_edit = "admin.webhook.edit"
as_str admin_webhook_test = "admin.webhook.test"
as_str admin_webhook_rotate_secret = "admin.webhook.rotate_secret"
as_str admin_webhook_delete = "admin.webhook.delete"
as_str admin_log_stream_replace = "admin.log_stream.replace"
as_str admin_log_stream_delete = "admin.log_stream.delete"
as_str admin_network_logs_settings = "admin.network_logs.settings"
as_str saved_view_create = "saved_view.create"
as_str saved_view_replace = "saved_view.replace"
as_str saved_view_rename = "saved_view.rename"
as_str saved_view_delete = "saved_view.delete"
as_str saved_view_apply = "saved_view.apply"
as_str collection_export = "collection.export"
as_str access_explorer_ask = "access_explorer.ask"
as_str access_explorer_open_rule = "access_explorer.open_rule"

-- The arms of the match are tried in order.
unfoldable pub parse : Text → Option ActionId
parse value = find (λ a. text_eq value (codes (as_str a))) declared
