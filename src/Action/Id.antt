-- ===== src/Action/Id.antt =====
-- The identifiers of actions, src/action.rs: what `define_action_ids!` expands to.
use tale.Prelude.{List, [], ◌∷◌, ◌++◌}

pub data ActionId : Type 0 where
  app_quit view_command_line view_filter detail_search device_detail_next_match
        device_detail_previous_match view_refresh view_refresh_all view_help view_tasks
        view_history_back view_history_forward collection_move_up collection_move_down
        collection_first collection_last collection_page_up collection_page_down collection_open
        collection_back collection_sort collection_wide_columns collection_inspect resource_actions
        resource_copy task_stop task_retry task_history_toggle mock_success mock_failure
        mock_cancellable mock_non_cancellable local_diagnostics local_probe_connection
        local_netcheck local_netcheck_live local_dns_status local_dns_query local_whois
        diagnostic_copy local_connect local_disconnect local_preferences_edit local_exit_node_select
        local_routes_edit_advertisements local_account_switch local_account_login
        local_account_logout local_account_remove local_ssh_open local_nc_open
        local_syspolicy_reload view_services view_diagnostics section_next section_previous
        services_serve_refresh services_serve_create services_serve_edit services_serve_remove
        services_serve_reset services_funnel_create services_funnel_edit services_funnel_publish
        services_funnel_unpublish services_funnel_reset devices_taildrop_send
        devices_taildrop_receive services_drive_refresh services_drive_share services_drive_rename
        services_drive_unshare services_certificate_obtain services_metrics_refresh
        services_bug_report_create services_drive_enable_alpha profile_activate
        admin_refresh_current admin_refresh_all view_profiles view_users view_routes view_dns
        view_access view_credentials users_open_devices routes_open_device
        dns_open_local_diagnostics access_copy_source activity_select_window activity_open_actor
        activity_open_target settings_inspect_capabilities admin_device_rename
        admin_device_tags_replace admin_device_approve admin_device_revoke_approval
        admin_device_key_expiry_configure admin_device_key_expire_now admin_device_delete
        admin_routes_replace_approvals admin_dns_preferences_edit admin_dns_nameservers_replace
        admin_dns_search_paths_replace admin_dns_split_create admin_dns_split_edit
        admin_dns_split_remove admin_user_approve admin_user_role_change admin_user_suspend
        admin_user_restore admin_user_delete admin_policy_edit admin_policy_editor_reopen
        admin_policy_candidate_discard admin_policy_remote_refresh admin_policy_validate
        admin_policy_preview admin_policy_diff admin_policy_apply admin_policy_workflow_close
        admin_credential_auth_key_create secret_result_copy secret_result_close
        admin_credential_revoke profile_credential_remove audit_filter_time audit_filter_actor
        audit_filter_action audit_filter_target audit_open_target audit_open_policy_diff
        batch_review_outcomes overview_health_open_resource overview_health_run_suggested_action
        activity_flows_select_window activity_flows_aggregate activity_flows_open_device
        admin_webhook_create admin_webhook_edit admin_webhook_test admin_webhook_rotate_secret
        admin_webhook_delete admin_log_stream_replace admin_log_stream_delete
        admin_network_logs_settings saved_view_create saved_view_replace saved_view_rename
        saved_view_delete saved_view_apply collection_export access_explorer_ask
        access_explorer_open_rule :
      ActionId

-- The three groups of the macro's call.
abbrev pub listed_before : List ActionId
listed_before = app_quit ∷ view_command_line ∷ view_filter ∷ []

-- Identifiers that `all` leaves out.
abbrev pub hidden : List ActionId
hidden = detail_search ∷ device_detail_next_match ∷ device_detail_previous_match ∷ []

-- The rest.
abbrev pub listed_after : List ActionId
listed_after =
    view_refresh ∷ view_refresh_all ∷ view_help ∷ view_tasks ∷ view_history_back
    ∷ view_history_forward ∷ collection_move_up ∷ collection_move_down ∷ collection_first
    ∷ collection_last ∷ collection_page_up ∷ collection_page_down ∷ collection_open
    ∷ collection_back ∷ collection_sort ∷ collection_wide_columns ∷ collection_inspect
    ∷ resource_actions ∷ resource_copy ∷ task_stop ∷ task_retry ∷ task_history_toggle ∷ mock_success
    ∷ mock_failure ∷ mock_cancellable ∷ mock_non_cancellable ∷ local_diagnostics
    ∷ local_probe_connection ∷ local_netcheck ∷ local_netcheck_live ∷ local_dns_status
    ∷ local_dns_query ∷ local_whois ∷ diagnostic_copy ∷ local_connect ∷ local_disconnect
    ∷ local_preferences_edit ∷ local_exit_node_select ∷ local_routes_edit_advertisements
    ∷ local_account_switch ∷ local_account_login ∷ local_account_logout ∷ local_account_remove
    ∷ local_ssh_open ∷ local_nc_open ∷ local_syspolicy_reload ∷ view_services ∷ view_diagnostics
    ∷ section_next ∷ section_previous ∷ services_serve_refresh ∷ services_serve_create
    ∷ services_serve_edit ∷ services_serve_remove ∷ services_serve_reset ∷ services_funnel_create
    ∷ services_funnel_edit ∷ services_funnel_publish ∷ services_funnel_unpublish
    ∷ services_funnel_reset ∷ devices_taildrop_send ∷ devices_taildrop_receive
    ∷ services_drive_refresh ∷ services_drive_share ∷ services_drive_rename ∷ services_drive_unshare
    ∷ services_certificate_obtain ∷ services_metrics_refresh ∷ services_bug_report_create
    ∷ services_drive_enable_alpha ∷ profile_activate ∷ admin_refresh_current ∷ admin_refresh_all
    ∷ view_profiles ∷ view_users ∷ view_routes ∷ view_dns ∷ view_access ∷ view_credentials
    ∷ users_open_devices ∷ routes_open_device ∷ dns_open_local_diagnostics ∷ access_copy_source
    ∷ activity_select_window ∷ activity_open_actor ∷ activity_open_target
    ∷ settings_inspect_capabilities ∷ admin_device_rename ∷ admin_device_tags_replace
    ∷ admin_device_approve ∷ admin_device_revoke_approval ∷ admin_device_key_expiry_configure
    ∷ admin_device_key_expire_now ∷ admin_device_delete ∷ admin_routes_replace_approvals
    ∷ admin_dns_preferences_edit ∷ admin_dns_nameservers_replace ∷ admin_dns_search_paths_replace
    ∷ admin_dns_split_create ∷ admin_dns_split_edit ∷ admin_dns_split_remove ∷ admin_user_approve
    ∷ admin_user_role_change ∷ admin_user_suspend ∷ admin_user_restore ∷ admin_user_delete
    ∷ admin_policy_edit ∷ admin_policy_editor_reopen ∷ admin_policy_candidate_discard
    ∷ admin_policy_remote_refresh ∷ admin_policy_validate ∷ admin_policy_preview ∷ admin_policy_diff
    ∷ admin_policy_apply ∷ admin_policy_workflow_close ∷ admin_credential_auth_key_create
    ∷ secret_result_copy ∷ secret_result_close ∷ admin_credential_revoke ∷ profile_credential_remove
    ∷ audit_filter_time ∷ audit_filter_actor ∷ audit_filter_action ∷ audit_filter_target
    ∷ audit_open_target ∷ audit_open_policy_diff ∷ batch_review_outcomes
    ∷ overview_health_open_resource ∷ overview_health_run_suggested_action
    ∷ activity_flows_select_window ∷ activity_flows_aggregate ∷ activity_flows_open_device
    ∷ admin_webhook_create ∷ admin_webhook_edit ∷ admin_webhook_test ∷ admin_webhook_rotate_secret
    ∷ admin_webhook_delete ∷ admin_log_stream_replace ∷ admin_log_stream_delete
    ∷ admin_network_logs_settings ∷ saved_view_create ∷ saved_view_replace ∷ saved_view_rename
    ∷ saved_view_delete ∷ saved_view_apply ∷ collection_export ∷ access_explorer_ask
    ∷ access_explorer_open_rule ∷ []

-- `ActionId::all`.
pub listed : List ActionId
listed = listed_before ++ listed_after

-- The arms of `parse`, in their order.
abbrev pub declared : List ActionId
declared = listed_before ++ (hidden ++ listed_after)
