-- ===== src/Generator/Payload/Roundtrip.antt =====
-- pkg/agent/baker.go: what a node decodes from its custom data.
use agent_baker.Prelude.{false, ◌≡◌, All, some}
use agent_baker.Text.{Text}
use agent_baker.Text.Base64.{base64_encode}
use agent_baker.Datamodel.Cluster.{AgentPoolProfile}
use agent_baker.Datamodel.Bootstrapping.{NodeBootstrappingConfiguration}
use agent_baker.Methods.Pool.{is_windows}
use agent_baker.Generator.SingleLine.{custom_data_object, escape_single_line}
use agent_baker.Generator.SingleLine.Escaped.{normalized}
use agent_baker.Generator.SingleLine.Decoded.{
  IsPrintable, ReadsStrings, get_custom_data_from_json-escape_single_line,
}
use agent_baker.Generator.Payload.{
  Surroundings, linux_custom_data, get_linux_node_custom_data_json_object,
  get_node_bootstrapping_payload,
}

linux_object :
    (env : Surroundings) (config : NodeBootstrappingConfiguration) (rendered : Text)
    → linux_custom_data env config ≡ some rendered
    → get_linux_node_custom_data_json_object env config
      ≡ some (custom_data_object (escape_single_line rendered))
unfolding get_linux_node_custom_data_json_object
linux_object env config rendered f = rw f

-- For a pool that is not Windows and whose template renders to a text of newlines and printable
-- ASCII once its line ends are newlines, and a `json.Unmarshal` that reads strings as RFC 8259
-- says, the payload is the encoding of that very text: the detour through JSON changes nothing
-- but line ends, and does not panic.
pub get_node_bootstrapping_payload_lem :
    (env : Surroundings) (config : NodeBootstrappingConfiguration) (profile : AgentPoolProfile)
    (rendered : Text)
    → ReadsStrings env.json_unmarshal
    → config.agent_pool_profile ≡ some profile
    → is_windows profile ≡ false
    → linux_custom_data env config ≡ some rendered
    → All IsPrintable (normalized rendered)
    → get_node_bootstrapping_payload env config ≡ some (base64_encode (normalized rendered))
unfolding get_node_bootstrapping_payload
get_node_bootstrapping_payload_lem env config profile rendered r e not_windows f printable = rw (
  linux_object env config rendered f,
  e,
  not_windows,
  get_custom_data_from_json-escape_single_line env.json_unmarshal rendered r printable,
)
