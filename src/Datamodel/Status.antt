-- ===== src/Datamodel/Status.antt =====
-- pkg/agent/datamodel/types.go: the status that the custom script extension reports, each with its zero value.
use agent_baker.Prelude.{[]}
use agent_baker.Text.{Text}
use agent_baker.GoMap.{GoMap}

-- `CSEStatus`
pub record CseStatus : Type 0 where
  pub exit_code : Text
  pub output : Text
  pub error : Text
  pub exec_duration : Text
  pub kernel_start_time : Text
  pub systemd_summary : Text
  pub cse_start_time : Text
  pub guest_agent_start_time : Text
  pub boot_datapoints : GoMap Text

abbrev pub zero_cse_status : CseStatus
zero_cse_status = record {
  exit_code = [];
  output = [];
  error = [];
  exec_duration = [];
  kernel_start_time = [];
  systemd_summary = [];
  cse_start_time = [];
  guest_agent_start_time = [];
  boot_datapoints = [];
}

-- `CSEStatusParsingError`
pub record CseStatusParsingError : Type 0 where
  pub code : Text
  pub message : Text

abbrev pub zero_cse_status_parsing_error : CseStatusParsingError
zero_cse_status_parsing_error = record { code = []; message = [] }
