-- ===== src/Network/Interfaces.antt =====
-- src/synology_mcp/network.py: `network_list_interfaces` and `network_get_interface`.
use synology_mcp.Base.{
  pos, String, ◌<>◌, ◌==◌, Option, none, some, List, [], ◌∷◌, ◌++◌, map, if◌then◌else◌,
}
use synology_mcp.Base.Dict.{Dict}
use synology_mcp.Json.{Value, Fields, fields, object, array, texts}
use synology_mcp.Errors.{Exc, plain, invalid_param}
use synology_mcp.Platform.{Platform}
use synology_mcp.Config.{Config}
use synology_mcp.Session.{SshClient}
use synology_mcp.Exec.{Exec, pure, throw, lift, ◌>>=◌}
use synology_mcp.Transport.Envelope.{Call, extract_warnings}
use synology_mcp.Helpers.{Envelope, success_envelope}
use synology_mcp.Auth.{call_dsm, get_ssh_client}
use synology_mcp.Network.{
  WebIface, Iface, extract_web_interface_list, web_ifaces, merge_iface, speed_mismatch_warning,
  strip_internal_fields,
}
use synology_mcp.Network.Sysfs.{read_sysfs_for_iface}
use synology_mcp.Network.Ethtool.{ethtool_for_iface}

abbrev pub interface_call : Call
interface_call = record {
  api = "SYNO.Core.Network.Interface";
  method = "list";
  version = pos 1;
  params = [];
}

abbrev pub optional_warning : Option String → List String
optional_warning none = []
optional_warning (some w) = w ∷ []

abbrev pub name_of : Iface → String
name_of iface = iface.name

-- `next((i for i in full_records if i["name"] == name), None)`
unfoldable pub find_iface : String → List Iface → Option Iface
find_iface name [] = none
find_iface name (i ∷ rest) = if i.name == name then some i else find_iface name rest

unfoldable pub mismatch_warnings : ⦃P : Platform⦄ → List Iface → List String
mismatch_warnings [] = []
mismatch_warnings (i ∷ rest) =
    optional_warning (speed_mismatch_warning i.name i) ++ mismatch_warnings rest

module _ ⦃P : Platform⦄ where
  -- the loop over the interfaces, which both tools have: those without a name are left out
  unfoldable pub merge_all : SshClient → List WebIface → Exec (List Iface)
  merge_all ssh [] = pure []
  merge_all ssh (web ∷ rest) =
      let others = merge_all ssh rest in
      if web.name == "" then others else (do
        sysfs ← read_sysfs_for_iface ssh web.name
        full ← lift (merge_iface web sysfs)
        found ← others
        pure (full ∷ found))

  -- what both tools do first
  unfoldable pub full_records : Config → String → Exec (List Iface × Fields × SshClient)
  full_records config host = do
    body ← call_dsm config host interface_call
    webs ← lift (web_ifaces (extract_web_interface_list body))
    ssh ← get_ssh_client config host
    found ← merge_all ssh webs
    pure (found, body, ssh)

  -- `network_list_interfaces` before its envelope is built
  unfoldable pub list_interfaces : Config → String → Exec (List Iface × List String)
  list_interfaces config host = do
    (found, body, ssh) ← full_records config host
    pure (found, extract_warnings body ++ mismatch_warnings found)

  -- `network_list_interfaces`
  unfoldable pub network_list_interfaces : Config → String → Exec Envelope
  network_list_interfaces config host = do
    (found, warnings) ← list_interfaces config host
    pure (
        success_envelope host
          (object (("interfaces", array (map (λ i. object (strip_internal_fields i)) found)) ∷ []))
          warnings)

  unknown_interface : String → String → List Iface → Exc
  unknown_interface host name found =
      plain invalid_param
        ("interface " <> (P.repr_text name <> (" not found on host " <> P.repr_text host)))
        (some host) (fields (("available", texts (map name_of found)) ∷ []))

  detail_envelope : String → String → Fields → Iface → Dict Value → Envelope
  detail_envelope host name body iface ethtool =
      success_envelope host
        (object (strip_internal_fields iface ++ (("ethtool", object ethtool) ∷ [])))
        (extract_warnings body ++ optional_warning (speed_mismatch_warning name iface))

  -- `network_get_interface`
  unfoldable pub network_get_interface : Config → String → String → Exec Envelope
  unfolding unknown_interface detail_envelope
  network_get_interface config host name = do
    (found, body, ssh) ← full_records config host
    elim (find_iface name found) [
      | none ↦ throw (unknown_interface host name found)
      | some iface ↦ (do
        ethtool ← ethtool_for_iface ssh name
        pure (detail_envelope host name body iface ethtool))
    ]
