-- ===== src/Preference.antt =====
-- Requested changes of preferences, src/domain/preference.rs. What the local client reports of its
-- preferences (`ObservedPreference`, `LocalPreferences`) is not modelled here.
use tale.Prelude.{Text, String, Option, Bool, is_some, List, [], ◌∷◌, is_empty, if◌then◌else◌}
use tale.Action.{Risk, reversible}

pub data PreferenceField : Type 0 where
  accept_dns accept_routes shields_up ssh automatic_update update_check report_posture hostname
        nickname web_client :
      PreferenceField

unfoldable pub label : PreferenceField → String
label accept_dns = "accept DNS"
label accept_routes = "accept routes"
label shields_up = "shields up"
label ssh = "Tailscale SSH"
label automatic_update = "automatic update"
label update_check = "update check"
label report_posture = "posture reporting"
label hostname = "hostname"
label nickname = "nickname"
label web_client = "web client"

unfoldable pub flag : PreferenceField → String
flag accept_dns = "accept-dns"
flag accept_routes = "accept-routes"
flag shields_up = "shields-up"
flag ssh = "ssh"
flag automatic_update = "auto-update"
flag update_check = "update-check"
flag report_posture = "report-posture"
flag hostname = "hostname"
flag nickname = "nickname"
flag web_client = "webclient"

pub record PreferenceRequest : Type 0 where
  pub accept_dns : Option Bool
  pub accept_routes : Option Bool
  pub shields_up : Option Bool
  pub ssh : Option Bool
  pub automatic_update : Option Bool
  pub update_check : Option Bool
  pub report_posture : Option Bool
  pub hostname : Option Text
  pub nickname : Option Text
  pub web_client : Option Bool

abbrev push_if : Bool → PreferenceField → List PreferenceField → List PreferenceField
push_if set field rest = if set then field ∷ rest else rest

-- The pushes in their order.
unfoldable pub changed_fields : PreferenceRequest → List PreferenceField
changed_fields r = push_if (is_some r.accept_dns) PreferenceField.accept_dns (
    push_if (is_some r.accept_routes) PreferenceField.accept_routes (
      push_if (is_some r.shields_up) PreferenceField.shields_up (
        push_if (is_some r.ssh) PreferenceField.ssh (
          push_if (is_some r.automatic_update) PreferenceField.automatic_update (
            push_if (is_some r.update_check) PreferenceField.update_check (
              push_if (is_some r.report_posture) PreferenceField.report_posture (
                push_if (is_some r.hostname) PreferenceField.hostname (
                  push_if (is_some r.nickname) PreferenceField.nickname
                    (push_if (is_some r.web_client) PreferenceField.web_client [])))))))))

unfoldable pub is_empty_request : PreferenceRequest → Bool
unfolding changed_fields
is_empty_request r = is_empty (changed_fields r)

unfoldable pub risk : PreferenceRequest → Risk
risk r = reversible
