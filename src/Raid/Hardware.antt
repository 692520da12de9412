-- ===== src/Raid/Hardware.antt =====
-- src/synology_mcp/raid.py: `raid_hardware_info`.
use synology_mcp.Base.{
  ℤ, pos, leb_ℤ, scale, String, ◌==◌, not, Option, none, some, List, [], ◌∷◌, ◌++◌, keep,
  if◌then◌else◌,
}
use synology_mcp.Base.Text
use synology_mcp.Base.Dict.{Dict}
use synology_mcp.Json.{
  Value, text, Fields, get, get_or, truthy, or_value, first_of, object, array, optional,
}
use synology_mcp.Errors.{Result, ok, ◌>>=◌}
use synology_mcp.Builtins.{as_dict, or_empty, int_or_none, to_text}
use synology_mcp.Platform.{Platform}
use synology_mcp.Config.{Config}
use synology_mcp.Exec.{Exec, pure, lift, try_with}
use synology_mcp.Exec as Exec
use synology_mcp.Transport.Envelope.{Call, extract_warnings}
use synology_mcp.Helpers.{Envelope, success_envelope}
use synology_mcp.Auth.{call_dsm}
use synology_mcp.Shares.{optional_int}
use synology_mcp.Network.{Iface, or_string}
use synology_mcp.Network.Interfaces.{list_interfaces}
use synology_mcp.Raid.Mac.{is_mac}

abbrev pub system_call : Call
system_call = record { api = "SYNO.Core.System"; method = "info"; version = pos 1; params = [] }

-- `next((ip for ip in ips if ip), "")`
unfoldable pub primary_ip : List String → String
primary_ip [] = ""
primary_ip (ip ∷ ips) = if ip == "" then primary_ip ips else ip

-- a size in megabytes if it is small, else in bytes
unfoldable pub ram_of_size : ℤ → ℤ
ram_of_size n = if leb_ℤ (pos 16777216) n then n else scale 1048576 n

-- the build number after the first dash of the firmware's version
unfoldable pub build_of_firmware : Value → String
build_of_firmware (text fw) =
    if Text.has_text fw "-"
    then (let (major, dash, tail) = Text.cut 45 fw in (Text.cut 32 tail).0)
    else "unknown"
build_of_firmware _ = "unknown"

module _ ⦃P : Platform⦄ where
  -- `_coerce_mac` of a text
  unfoldable pub coerce_mac : String → Option String
  coerce_mac raw = let s = P.lower (Text.strip raw) in if is_mac s then some s else none

  cpu_part : Fields → String → String
  cpu_part data_ key = Text.strip (to_text (get_or data_ key (text "")))

  -- `_normalize_cpu_model`
  unfoldable pub normalize_cpu_model : Fields → String
  unfolding cpu_part
  normalize_cpu_model data_ =
      let label = Text.join " " (
        keep (λ p. not (p == ""))
          (cpu_part data_ "cpu_vendor"
            ∷ cpu_part data_ "cpu_family"
            ∷ cpu_part data_ "cpu_series"
            ∷ [])) in
      if label == ""
      then to_text (or_value (get data_ "cpu_clock_speed") (text "unknown"))
      else label

  -- `_normalize_dsm_build`
  unfoldable pub normalize_dsm_build : Fields → String
  normalize_dsm_build data_ =
      let raw_build = or_value (get data_ "buildnumber") (get data_ "smallfix_version") in
      if truthy raw_build
      then to_text raw_build
      else build_of_firmware (or_value (get data_ "firmware_ver") (text ""))

  -- the size of the memory in bytes
  unfoldable pub ram_bytes : Fields → Result (Option ℤ)
  ram_bytes data_ = do
    size ← int_or_none (get data_ "ram_size")
    elim size [ some n ↦ ok (some (ram_of_size n)) | none ↦ int_or_none (get data_ "ram") ]

  -- the keys before the table of interfaces
  unfoldable pub system_info : Fields → Result (Dict Value)
  system_info data_ = do
    ram ← ram_bytes data_
    cores ← int_or_none (or_value (get data_ "cpu_cores") (get data_ "cpu_num"))
    ok (
        (
          "model",
          text (to_text (first_of data_ ("model" ∷ "upnp_model_name" ∷ []) (text "unknown"))),
        )
        ∷ (
          "serial",
          text (to_text (first_of data_ ("serial" ∷ "system_serial" ∷ []) (text "unknown"))),
        )
        ∷ (
          "dsm_version",
          text (to_text (first_of data_ ("firmware_ver" ∷ "version" ∷ []) (text "unknown"))),
        )
        ∷ ("dsm_build", text (normalize_dsm_build data_))
        ∷ ("cpu_model", text (normalize_cpu_model data_))
        ∷ ("cpu_cores", optional_int cores)
        ∷ ("ram_total_bytes", optional_int ram)
        ∷ [])

  -- the entry of an interface in the table
  unfoldable pub nic_value : Iface → Result Value
  nic_value iface = do
    speed ← int_or_none (optional_int iface.speed_mbps)
    ok (
        object (
          ("name", text iface.name)
          ∷ ("mac", optional (coerce_mac iface.mac))
          ∷ ("speed_mbps", optional_int speed)
          ∷ ("ip", text (primary_ip iface.ips))
          ∷ ("type", text (or_string (some iface.iface_type) "ethernet"))
          ∷ ("status", text iface.state)
          ∷ []))

  unfoldable pub nic_values : List Iface → Result (List Value)
  nic_values [] = ok []
  nic_values (i ∷ rest) = do nic ← nic_value i; others ← nic_values rest; ok (nic ∷ others)

  -- `except Exception`: any error of the interfaces leaves the table empty
  unfoldable pub nics_or_none : Config → String → Exec (List Iface × List String)
  nics_or_none config host = try_with (list_interfaces config host) pure (λ e. pure ([], []))

  -- `raid_hardware_info`
  unfoldable pub raid_hardware_info : Config → String → Exec Envelope
  raid_hardware_info config host = Exec.◌>>=◌ (call_dsm config host system_call) (λ body.
      Exec.◌>>=◌ (lift (do data_ ← as_dict (or_empty (get body "data")); system_info data_))
        (λ info. Exec.◌>>=◌ (nics_or_none config host) (λ found.
          Exec.◌>>=◌ (lift (nic_values found.0)) (λ nics. pure (
            success_envelope host (object (info ++ (("nics", array nics) ∷ [])))
              (extract_warnings body ++ found.1))))))
