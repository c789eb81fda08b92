-- ===== src/Filter/Views.antt =====
-- The filter schemas of the views, src/domain/filter.rs.
use tale.Prelude.{List, [], ◌∷◌, Text, codes}
use tale.Filter.Schema.{
  FilterFieldSpec, FilterFieldGroup, FilterSchema, enumeration, snapshot, duration, spec,
  text_operators, enum_operators, age_operators, on_id, on_name, on_online, on_owner, on_os,
  on_path, on_tag, on_last_seen, on_property, on_approval, on_key_expiry, on_client_version,
  on_sharing, on_posture, on_route_role, on_exposure, on_listener, on_port, on_mount, on_backend,
}

abbrev pub online_values : List Text
online_values = codes "true" ∷ codes "false" ∷ codes "unknown" ∷ []

abbrev pub path_values : List Text
path_values =
    codes "direct"
    ∷ codes "derp"
    ∷ codes "peer-relay"
    ∷ codes "idle"
    ∷ codes "no-path"
    ∷ codes "unknown"
    ∷ []

abbrev pub property_values : List Text
property_values =
    codes "exit-node"
    ∷ codes "exit-node-option"
    ∷ codes "subnet-router"
    ∷ codes "ssh"
    ∷ codes "shared"
    ∷ []

abbrev pub approval_values : List Text
approval_values = codes "approved" ∷ codes "pending" ∷ codes "unknown" ∷ []

abbrev pub key_expiry_values : List Text
key_expiry_values = codes "expired" ∷ codes "soon" ∷ codes "disabled" ∷ codes "unknown" ∷ []

abbrev pub sharing_values : List Text
sharing_values = codes "external" ∷ codes "internal" ∷ codes "unknown" ∷ []

abbrev pub posture_values : List Text
posture_values = codes "present" ∷ codes "empty" ∷ codes "unknown" ∷ []

abbrev pub route_role_values : List Text
route_role_values =
    codes "subnet-router"
    ∷ codes "exit-node"
    ∷ codes "exit-node-option"
    ∷ codes "none"
    ∷ codes "unknown"
    ∷ []

abbrev pub exposure_values : List Text
exposure_values = codes "tailnet" ∷ codes "public" ∷ []

abbrev pub listener_values : List Text
listener_values = codes "https" ∷ codes "http" ∷ codes "tcp" ∷ codes "tls-terminated-tcp" ∷ []

abbrev pub device_machine_fields : List FilterFieldSpec
device_machine_fields =
    spec "id" on_id text_operators snapshot "device id"
    ∷ spec "name" on_name text_operators snapshot "host name"
    ∷ spec "owner" on_owner text_operators snapshot "owning user"
    ∷ spec "tag" on_tag text_operators snapshot "acl tag"
    ∷ spec "os" on_os text_operators snapshot "platform"
    ∷ []

abbrev pub device_connection_fields : List FilterFieldSpec
device_connection_fields =
    spec "online" on_online enum_operators (enumeration online_values) "control link"
    ∷ spec "path" on_path enum_operators (enumeration path_values) "data path"
    ∷ spec "last-seen" on_last_seen age_operators duration "seen age"
    ∷ spec "property" on_property enum_operators (enumeration property_values) "capability"
    ∷ []

abbrev pub device_admin_fields : List FilterFieldSpec
device_admin_fields =
    spec "approval" on_approval enum_operators (enumeration approval_values) "approval"
    ∷ spec "key-expiry" on_key_expiry enum_operators (enumeration key_expiry_values) "key expiry"
    ∷ spec "version" on_client_version text_operators snapshot "client build"
    ∷ spec "sharing" on_sharing enum_operators (enumeration sharing_values) "membership"
    ∷ spec "posture" on_posture enum_operators (enumeration posture_values) "posture data"
    ∷ spec "route-role" on_route_role enum_operators (enumeration route_role_values) "route role"
    ∷ []

abbrev pub service_exposure_fields : List FilterFieldSpec
service_exposure_fields =
    spec "exposure" on_exposure enum_operators (enumeration exposure_values) "who can reach it"
    ∷ spec "listener" on_listener enum_operators (enumeration listener_values) "protocol"
    ∷ spec "port" on_port text_operators snapshot "listening port"
    ∷ []

abbrev pub service_target_fields : List FilterFieldSpec
service_target_fields =
    spec "path" on_mount text_operators snapshot "mount path"
    ∷ spec "backend" on_backend text_operators snapshot "what it proxies to"
    ∷ []

abbrev pub device_filter_groups : List FilterFieldGroup
device_filter_groups =
    record { label = codes "Machine"; fields = device_machine_fields }
    ∷ record { label = codes "Connection"; fields = device_connection_fields }
    ∷ record { label = codes "Administration"; fields = device_admin_fields }
    ∷ []

abbrev pub service_filter_groups : List FilterFieldGroup
service_filter_groups =
    record { label = codes "Exposure"; fields = service_exposure_fields }
    ∷ record { label = codes "Target"; fields = service_target_fields }
    ∷ []

abbrev pub device_schema : FilterSchema
device_schema = record {
  free_text = codes "matches name, host, owner, tags, and addresses";
  groups = device_filter_groups;
}

abbrev pub tasks_schema : FilterSchema
tasks_schema = record {
  free_text = codes "matches action, target, state, and summary";
  groups = [];
}

abbrev pub service_schema : FilterSchema
service_schema = record {
  free_text = codes "matches listener, path, and backend";
  groups = service_filter_groups;
}

abbrev pub profiles_schema : FilterSchema
profiles_schema = record {
  free_text = codes "matches profile, tailnet, state, credential, and backend";
  groups = [];
}

abbrev pub config_schema : FilterSchema
config_schema = record { free_text = codes "matches setting, value, and source"; groups = [] }

abbrev pub collection_schema : FilterSchema
collection_schema = record { free_text = codes "matches text in every visible column"; groups = [] }

abbrev pub empty_schema : FilterSchema
empty_schema = record { free_text = codes ""; groups = [] }
