-- ===== src/Network.antt =====
-- src/synology_mcp/network.py: the interfaces that the web API and sysfs tell of, merged.
pub mod Sysfs
pub mod Ethtool
pub mod Speed
pub mod Interfaces
use synology_mcp.Base.{
  ℤ, pos, ltb_ℤ, leb_ℤ, ◌==ℤ◌, String, ◌<>◌, ◌==◌, Bool, true, false, not, ◌||◌, ◌&&◌, Option, none,
  some, List, [], ◌∷◌, ◌++◌, if◌then◌else◌,
}
use synology_mcp.Base.Text
use synology_mcp.Base.Dict.{Dict, lookup}
use synology_mcp.Json.{
  Value, null, text, list, dict, Items, nil, cons, Fields, get, truthy, or_value, first_of, rows,
  dicts, object, texts, optional,
}
use synology_mcp.Errors.{Result, ok, err, ◌>>=◌}
use synology_mcp.Builtins.{int_or_none, to_text, truthy_texts, show_int}
use synology_mcp.Platform.{Platform}
use synology_mcp.Shares.{optional_int}

-- the canonical entry of `_normalize_iface_web`
pub record WebIface : Type 0 where
  pub name : String
  pub mac : String
  pub mtu : Option ℤ
  pub ips : List String
  pub state_web : String
  pub speed_mbps_web : Option ℤ
  pub iface_type : String

-- what `_merge_iface` returns; the last two are the underscored keys
pub record Iface : Type 0 where
  pub name : String
  pub mac : String
  pub mtu : Option ℤ
  pub state : String
  pub speed_mbps : Option ℤ
  pub duplex : Option String
  pub carrier : Option ℤ
  pub ips : List String
  pub iface_type : String
  pub web_speed : Option ℤ
  pub sysfs_speed : Option ℤ

-- the list under the first of the keys that holds one
unfoldable pub first_list : Fields → List String → List Fields
first_list d [] = []
first_list d (key ∷ keys) = elim (get d key) [ list l ↦ dicts l | _ ↦ first_list d keys ]

-- `_extract_web_interface_list`
unfoldable pub extract_web_interface_list : Fields → List Fields
unfolding first_list
extract_web_interface_list body = elim (get body "data") [
  | list l ↦ dicts l
  | dict d ↦ first_list d ("interfaces" ∷ "ifaces" ∷ "items" ∷ [])
  | _ ↦ []
]

-- `n is not None and n > 0`
abbrev pub positive : Option ℤ → Bool
positive none = false
positive (some n) = ltb_ℤ (pos 0) n

-- the speed that is kept: that of sysfs if it is positive, else that of the web API if it is
unfoldable pub merged_speed : Option ℤ → Option ℤ → Option ℤ
merged_speed sys web = if positive sys then sys else if positive web then web else none

-- `n or m`
abbrev pub or_int : Option ℤ → Option ℤ → Option ℤ
or_int none m = m
or_int (some n) m = if n ==ℤ pos 0 then m else some n

-- `s or t`
abbrev pub or_string : Option String → String → String
or_string none t = t
or_string (some s) t = if s == "" then t else s

module _ ⦃P : Platform⦄ where
  address_text : Fields → List String
  address_text item =
      let addr = or_value (get item "address") (get item "addr") in
      if truthy addr then to_text addr ∷ [] else []

  v6_addresses : Items → List String
  unfolding address_text
  v6_addresses nil = []
  v6_addresses (cons (dict item) r) = address_text item ++ v6_addresses r
  v6_addresses (cons (text s) r) = s ∷ v6_addresses r
  v6_addresses (cons _ r) = v6_addresses r

  direct_addresses : Value → List String
  direct_addresses (text s) = if s == "" then [] else s ∷ []
  direct_addresses (list l) = truthy_texts l
  direct_addresses _ = []

  -- `_extract_ips`
  unfoldable pub extract_ips : Fields → List String
  unfolding direct_addresses v6_addresses
  extract_ips raw =
      direct_addresses (get raw "ip") ++ elim (get raw "ipv6") [ list l ↦ v6_addresses l | _ ↦ [] ]

  state_of_text : String → String
  state_of_text s =
      if s == "up" || s == "connected" || s == "1" || s == "active"
      then "up"
      else if s == "down" || s == "disconnected" || s == "0" || s == "inactive"
      then "down"
      else s

  -- `_normalize_state`
  unfoldable pub normalize_state : Value → String
  unfolding state_of_text
  normalize_state null = "unknown"
  normalize_state raw = state_of_text (P.lower (Text.strip (to_text raw)))

  -- `_normalize_iface_web`
  unfoldable pub normalize_iface_web : Fields → Result WebIface
  normalize_iface_web raw = do
    mtu ← int_or_none (get raw "mtu")
    speed ← int_or_none (get raw "speed")
    ok (record {
      name = to_text (first_of raw ("ifname" ∷ "id" ∷ "device" ∷ "name" ∷ []) (text ""));
      mac = P.lower (to_text (first_of raw ("mac" ∷ "hwaddr" ∷ []) (text "")));
      mtu = mtu;
      ips = extract_ips raw;
      state_web = normalize_state (or_value (get raw "status") (get raw "link_status"));
      speed_mbps_web = speed;
      iface_type = to_text (first_of raw ("type" ∷ "interface_type" ∷ []) (text "ethernet"));
    })

  -- `[_normalize_iface_web(i) for i in raw_list]`
  unfoldable pub web_ifaces : List Fields → Result (List WebIface)
  web_ifaces [] = ok []
  web_ifaces (raw ∷ rest) = do
    iface ← normalize_iface_web raw
    others ← web_ifaces rest
    ok (iface ∷ others)

  -- `_int_or_none(sysfs.get(key))`
  unfoldable pub int_field : Dict String → String → Result (Option ℤ)
  int_field sysfs key = int_or_none (optional (lookup key sysfs))

  -- the state of the link
  unfoldable pub merged_state : Option String → String → String
  merged_state none web = web
  merged_state (some s) web = if s == "" then web else if P.lower s == "up" then "up" else "down"

  -- `_merge_iface`
  unfoldable pub merge_iface : WebIface → Dict String → Result Iface
  merge_iface web sysfs = do
    speed_sys ← int_field sysfs "speed"
    mtu ← int_field sysfs "mtu"
    carrier ← int_field sysfs "carrier"
    ok (record {
      name = web.name;
      mac = P.lower (or_string (lookup "address" sysfs) web.mac);
      mtu = or_int mtu web.mtu;
      state = merged_state (lookup "operstate" sysfs) web.state_web;
      speed_mbps = merged_speed speed_sys web.speed_mbps_web;
      duplex = lookup "duplex" sysfs;
      carrier = carrier;
      ips = web.ips;
      iface_type = web.iface_type;
      web_speed = web.speed_mbps_web;
      sysfs_speed = speed_sys;
    })

  mismatch : String → ℤ → ℤ → Option String
  mismatch name web sys =
      if leb_ℤ sys (pos 0) || web ==ℤ sys
      then none
      else some (
          "speed mismatch on "
          <> (name
              <> (": web="
                  <> (show_int web
                      <> ("Mb/s, sysfs=" <> (show_int sys <> "Mb/s (sysfs is canonical)"))))))

  unfoldable pub mismatch_of : String → Option ℤ → Option ℤ → Option String
  unfolding mismatch
  mismatch_of name (some web) (some sys) = mismatch name web sys
  mismatch_of name _ _ = none

  -- `_speed_mismatch_warning`
  unfoldable pub speed_mismatch_warning : String → Iface → Option String
  speed_mismatch_warning name iface = mismatch_of name iface.web_speed iface.sysfs_speed

-- `_strip_internal_fields`: the keys of an interface without the underscored ones
unfoldable pub strip_internal_fields : Iface → Dict Value
strip_internal_fields iface =
    ("name", text iface.name)
    ∷ ("mac", text iface.mac)
    ∷ ("mtu", optional_int iface.mtu)
    ∷ ("state", text iface.state)
    ∷ ("speed_mbps", optional_int iface.speed_mbps)
    ∷ ("duplex", optional iface.duplex)
    ∷ ("carrier", optional_int iface.carrier)
    ∷ ("ips", texts iface.ips)
    ∷ ("type", text iface.iface_type)
    ∷ []
