-- ===== src/Tests/Reads.antt =====
-- The tools that read, on one host.
use synology_mcp.Base.{
  ◌<>◌, pos, sub_ℤ, true, false, ◌≡◌, ◌-◌, refl, none, some, List, String, [], ◌∷◌, map,
}
use synology_mcp.Base.Text
use synology_mcp.Base.Dict.{Dict, lookup}
use synology_mcp.Json.{Fields, fields, int, text, object, get_or, or_value, truthy, first_of}
use synology_mcp.Builtins.{int_or_none, to_text}
use synology_mcp.Network.{
  WebIface, Iface, merge_iface, int_field, merged_speed, merged_state, positive,
}
use synology_mcp.Network.Speed.{merge_iface-speed}
use synology_mcp.Network.Sysfs.{read_lines}
use synology_mcp.Network.Sysfs.Last.{last_value, read_lines-last}
use synology_mcp.Raid.{Volume, normalize_volume, sizes_of, level_of, free_size, volume_status}
use synology_mcp.Raid.Sizes.{normalize_volume-size}
use synology_mcp.Raid.Mdstat.{parse_mdstat}
use synology_mcp.Raid.Mdstat.Jumps.{devices_of, parse_mdstat_lem}
use synology_mcp.Snapshot.Sqlite.{escape_printf}
use synology_mcp.Snapshot.Sqlite.Payload.{
  escape_printf-read, printf_text, shell_text, outside, lines_text,
}
use synology_mcp.Tests.World.{friendly}

abbrev mdstat : String
mdstat =
    "Personalities : [raid1]\nmd2 : active raid1 sdb3[1] sda3[0](F)\n      4 blocks [2/1] [U_]\n\nmd0 : active raid1 sda1[0]\n"

parse_mdstat_lem_example : parse_mdstat mdstat ≡ devices_of (Text.splitlines mdstat)
parse_mdstat_lem_example = parse_mdstat_lem mdstat

abbrev sysfs_lines : List String
sysfs_lines = "speed=1000" ∷ "mtu=?" ∷ "speed=100" ∷ []

read_lines-last_example :
    lookup "speed" (read_lines [] sysfs_lines) ≡ last_value "speed" sysfs_lines
read_lines-last_example = read_lines-last "speed" sysfs_lines

abbrev eth0 : WebIface
eth0 = record {
  name = "eth0";
  mac = "";
  mtu = none;
  ips = [];
  state_web = "up";
  speed_mbps_web = some (pos 1000);
  iface_type = "lan";
}

-- the platform of the tests reads every number as 5
abbrev eth0_sysfs : Dict String
eth0_sysfs = ("speed", "5") ∷ []

abbrev eth0_full : Iface
eth0_full = record {
  name = "eth0";
  mac = "";
  mtu = none;
  state = "up";
  speed_mbps = some (pos 5);
  duplex = none;
  carrier = none;
  ips = [];
  iface_type = "lan";
  web_speed = some (pos 1000);
  sysfs_speed = some (pos 5);
}

merge_iface-speed_example : positive (some (pos 5)) ≡ true
unfolding merge_iface int_field int_or_none lookup merged_speed merged_state
merge_iface-speed_example = (merge_iface-speed "eth0" eth0 eth0_sysfs eth0_full refl).0 (pos 5) refl

abbrev volume_row : Fields
volume_row = fields (
    ("vol_path", text "/volume1")
    ∷ ("size", object (("total", int (pos 10)) ∷ ("used", int (pos 4)) ∷ []))
    ∷ [])

abbrev volume : Volume
volume = record {
  name = "/volume1";
  fs = "unknown";
  size_total = some (pos 10);
  size_used = some (pos 4);
  size_free = some (pos 6);
  raid_level = "unknown";
  encrypted = false;
  status = "unknown";
}

normalize_volume-size_example : volume.size_free ≡ some (pos (10 - 4))
unfolding normalize_volume sizes_of get_or int_or_none level_of truthy to_text free_size or_value
    first_of sub_ℤ volume_status
normalize_volume-size_example = (normalize_volume-size [] volume_row volume refl).1 10 4 refl refl

escape_printf-read_example :
    printf_text false (
      shell_text outside
        ("'" <> (Text.join "\\n" (map escape_printf ("a'b\\c" ∷ "x" ∷ [])) <> "\\n'")))
    ≡ some (lines_text ("a'b\\c" ∷ "x" ∷ []))
unfolding Text.text_any
escape_printf-read_example = escape_printf-read "a'b\\c" ("x" ∷ []) (refl, (refl, tt))
