-- ===== src/Raid/Mdstat.antt =====
-- src/synology_mcp/raid.py: `parse_mdstat` and `raid_state`.
pub mod Lines
pub mod Minutes
pub mod Jumps
use synology_mcp.Base.{
  ℕ, zero, suc, ℤ, pos, negsuc, ◌+◌, ◌*◌, ◌/◌, ◌^◌, ltb, leb, String, ◌==◌, ◌<>◌, Bool, true, false,
  Option, none, some, List, [], ◌∷◌, ◌||◌, ◌&&◌, not, if◌then◌else◌, length,
}
use synology_mcp.Base.Text
use synology_mcp.Json.{
  Value, null, int, float, text, Float, finite, infinite, nan, object, array, optional, truncate,
}
use synology_mcp.Errors.{Result, ok, err, ◌>>=◌, value_error, overflow_error}
use synology_mcp.Builtins.{to_int}
use synology_mcp.Platform.{Platform}
use synology_mcp.Config.{Config}
use synology_mcp.Exec.{Exec, pure, lift}
use synology_mcp.Exec as Exec
use synology_mcp.Transport.Ssh.{run}
use synology_mcp.Helpers.{Envelope, success_envelope}
use synology_mcp.Auth.{get_ssh_client}
use synology_mcp.Shares.{optional_int, round_half_even}
use synology_mcp.Raid.Mdstat.Minutes.{int_of_minutes}
use synology_mcp.Raid.Mdstat.Lines.{
  Header, MemberMatch, ResyncMatch, header_match, member_match, status_match, resync_match,
}

pub record Member : Type 0 where
  pub disk : String
  pub index : ℤ
  pub flag : Option String

-- what the lines after a header have told so far
pub record Progress : Type 0 where
  pub resync_pct : Option Float
  pub resync_speed : Option ℤ
  pub resync_eta : Option ℤ
  pub ud_status : Option String
  pub action : Option String

abbrev pub no_progress : Progress
no_progress = record {
  resync_pct = none;
  resync_speed = none;
  resync_eta = none;
  ud_status = none;
  action = none;
}

pub record Device : Type 0 where
  pub device : String
  pub level : String
  pub state : String
  pub progress : Progress
  pub members : List Member

-- the synthesized state
unfoldable pub md_state : String → Progress → String
md_state word p = elim p.resync_pct [
  | some pct ↦ elim p.action [
    | some a ↦ if a == "recovery" then "recovering" else "resyncing"
    | none ↦ "resyncing"
  ]
  | none ↦ elim p.ud_status [
    | some u ↦
        if Text.has_text u "_" then "degraded" else if word == "active" then "clean" else word
    | none ↦ if word == "active" then "clean" else word
  ]
]

-- the level and the tokens of the members
unfoldable pub level_and_tokens : Header → String × List String
level_and_tokens h = go (Text.split_words h.members)
  where
    go : List String → String × List String
    go [] = (h.level, [])
    go (t ∷ ts) = if Text.starts_with t "raid" then (t, ts) else (h.level, t ∷ ts)

optional_float : Option Float → Value
optional_float none = null
optional_float (some x) = float x

member_value : Member → Value
member_value m =
    object (("disk", text m.disk) ∷ ("index", int m.index) ∷ ("flag", optional m.flag) ∷ [])

member_values : List Member → List Value
unfolding member_value
member_values [] = []
member_values (m ∷ ms) = member_value m ∷ member_values ms

unfoldable pub device_value : Device → Value
unfolding optional_float member_values
device_value d = object (
    ("device", text d.device)
    ∷ ("level", text d.level)
    ∷ ("state", text d.state)
    ∷ ("resync_pct", optional_float d.progress.resync_pct)
    ∷ ("resync_speed_kbps", optional_int d.progress.resync_speed)
    ∷ ("resync_eta_seconds", optional_int d.progress.resync_eta)
    ∷ ("ud_status", optional d.progress.ud_status)
    ∷ ("action", optional d.progress.action)
    ∷ ("members", array (member_values d.members))
    ∷ [])

unfoldable pub device_values : List Device → List Value
device_values [] = []
device_values (d ∷ ds) = device_value d ∷ device_values ds

-- the keyword that is found first, or the one before
unfoldable pub action_of : String → Option String → Option String
action_of low before =
    if Text.has_text low "resync"
    then some "resync"
    else if Text.has_text low "recovery"
    then some "recovery"
    else if Text.has_text low "reshape"
    then some "reshape"
    else if Text.has_text low "check"
    then some "check"
    else before

module _ ⦃P : Platform⦄ where
  to_float : String → Result Float
  to_float s = elim (P.parse_float s) [ none ↦ err value_error | some x ↦ ok x ]

  unfoldable pub read_members : List String → Result (List Member)
  read_members [] = ok []
  read_members (token ∷ tokens) =
      let rest = read_members tokens in
      elim (member_match token) [
        | none ↦ rest
        | some m ↦ (do
          index ← to_int (text m.index)
          others ← rest
          ok (record { disk = m.disk; index = index; flag = m.flag } ∷ others))
      ]

  read_resync : String → Progress → ResyncMatch → Result Progress
  unfolding to_float
  read_resync sub p m = do
    pct ← to_float m.percent
    speed ← to_int (text m.speed)
    minutes ← to_float m.eta
    eta ← int_of_minutes minutes
    ok (record p {
      resync_pct = some pct;
      resync_speed = some speed;
      resync_eta = some eta;
      action = action_of (P.lower sub) p.action;
    })

  with_status : Progress → Option String → Progress
  with_status p none = p
  with_status p (some u) = record p { ud_status = some u }

  -- one round of the inner loop, on a stripped line
  unfoldable pub read_sub : Progress → String → Result Progress
  unfolding read_resync with_status
  read_sub p sub =
      let p' = with_status p (status_match sub) in
      elim (resync_match sub) [ none ↦ ok p' | some m ↦ read_resync sub p' m ]

  -- a blank line and a header end the lines of a device
  unfoldable pub ends_body : String → Bool
  ends_body sub = sub == "" || (elim (header_match sub) [ none ↦ false | some h ↦ true ])

  -- the inner loop: the progress, and the lines from the one that ended it
  unfoldable pub read_body : Progress → List String → Result (Progress × List String)
  read_body p [] = ok (p, [])
  read_body p (line ∷ lines) =
      let sub = Text.strip line in
      elim (ends_body sub) [
        | true ↦ ok (p, line ∷ lines)
        | false ↦ (do p' ← read_sub p sub; read_body p' lines)
      ]

  unfoldable pub device_of : Header → List Member → Progress → Device
  device_of h members p = record {
    device = h.device;
    level = (level_and_tokens h).0;
    state = md_state h.state p;
    progress = p;
    members = members;
  }

  -- the outer loop, whose index moves to where the inner one stopped; `fuel` bounds its rounds
  unfoldable pub parse_lines : ℕ → List String → Result (List Device)
  parse_lines zero lines = ok []
  parse_lines (suc fuel) [] = ok []
  parse_lines (suc fuel) (line ∷ lines) = elim (header_match (Text.strip line)) [
    | none ↦ parse_lines fuel lines
    | some h ↦ (do
      members ← read_members (level_and_tokens h).1
      (p, rest) ← read_body no_progress lines
      others ← parse_lines fuel rest
      ok (device_of h members p ∷ others))
  ]

  -- `parse_mdstat`: each round passes one line at least
  unfoldable pub parse_mdstat : String → Result (List Device)
  parse_mdstat s = let lines = Text.splitlines s in parse_lines (length lines) lines

  -- `raid_state`
  unfoldable pub raid_state : Config → String → Exec Envelope
  raid_state config host = Exec.◌>>=◌ (get_ssh_client config host) (λ ssh.
      Exec.◌>>=◌ (run ssh "cat /proc/mdstat" true) (λ res.
        Exec.◌>>=◌ (lift (parse_mdstat res.stdout)) (λ devices.
          pure
            (success_envelope host (object (("devices", array (device_values devices)) ∷ [])) []))))
