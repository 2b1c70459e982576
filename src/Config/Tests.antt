-- ===== src/Config/Tests.antt =====
-- The theorems on the configuration at concrete ones.
use cluster_monitoring_opera.Base.{String, Option, none, [], ◌≡◌, ◌≢◌, ◌↔◌, Result, ok}
use cluster_monitoring_opera.Config.{TelemeterClientConfig, UserWorkloadConfiguration}
use cluster_monitoring_opera.Config.Defaults.{new_user_config_from_string}
use cluster_monitoring_opera.Config.Laws.{new_user_config_from_string-eq-none}

-- What the decoder makes of the text "null".
abbrev decode_null : String → Result (Option (UserWorkloadConfiguration String))
decode_null content = ok none

abbrev null : String
null = "null"

new_user_config_from_string-eq-none_example :
    (new_user_config_from_string decode_null null ≡ none)
    ↔ ((null ≢ "") × (decode_null null ≡ ok none))
new_user_config_from_string-eq-none_example = new_user_config_from_string-eq-none decode_null null

abbrev client : TelemeterClientConfig String
client = record {
  cluster_id = "2f9a";
  enabled = none;
  telemeter_server_url = "https://infogw.api.openshift.com/";
  token = "secret";
  node_selector = [];
  tolerations = [];
}
