-- ===== src/Linkd/BgpStatus.antt =====
-- linkd/internal/bgpstatus/bgpstatus.go: the parsers of birdc's tables and the cached snapshot. What
-- birdc prints, and whether it succeeds, is an argument, and so is the parser of a time stamp
-- (time.ParseInLocation), which gives the seconds of the text.
pub mod Cache
pub mod Examples
use ietf_scion_testbed.Prelude.{
  ℕ, ℤ, pos, ◌-ℤ◌, ltb_ℤ, Bool, true, false, not, ◌&&◌, ◌||◌, Option, none, some, List, [], ◌∷◌,
  ◌++◌, map, if◌then◌else◌, Bytes, bytes, ◌^◌, suc, zero, negsuc, ◌==◌, bytes_eq, nat_eq, atoi,
  nat_beq, leb, split_lines, fields, cut_prefix, cut_suffix, trim_prefix, Map, lookup, insert,
  has_prefix,
}

pub record Session : Type 0 where
  pub if_id : Bytes
  pub state : Bytes
  pub bfd : Bytes
  pub since : ℤ

pub record Route : Type 0 where
  pub prefix_as : ℤ
  pub if_id : Bytes

pub record Snapshot : Type 0 where
  pub sessions : List Session
  pub routes : List Route

abbrev seconds_or_zero : Option ℤ → ℤ
seconds_or_zero none = pos 0
seconds_or_zero (some t) = t

module _ (parse_time : Bytes → Option ℤ) where
  -- the session of a line, from the fields behind the fourth
  unfoldable pub session_of : Bytes → Bytes → List Bytes → Session
  unfolding trim_prefix
  session_of name state (day ∷ clock ∷ info ∷ rest) = record {
    if_id = trim_prefix name (bytes "bgp_if");
    state = info;
    bfd = [];
    since = seconds_or_zero (parse_time (day ++ b' ' ∷ clock));
  }
  session_of name state (day ∷ clock ∷ []) = record {
    if_id = trim_prefix name (bytes "bgp_if");
    state = state;
    bfd = [];
    since = seconds_or_zero (parse_time (day ++ b' ' ∷ clock));
  }
  session_of name state _ = record {
    if_id = trim_prefix name (bytes "bgp_if");
    state = state;
    bfd = [];
    since = pos 0;
  }

  -- one round of the loop: no session if the line is skipped
  unfoldable pub protocol_line : List Bytes → List Session
  unfolding session_of
  protocol_line (name ∷ proto ∷ table ∷ state ∷ rest) =
      if proto == bytes "BGP" && has_prefix name (bytes "bgp_if")
      then session_of name state rest ∷ []
      else []
  protocol_line _ = []

  unfoldable pub protocol_lines : List Bytes → List Session
  unfolding protocol_line
  protocol_lines [] = []
  protocol_lines (line ∷ lines) = protocol_line (fields line) ++ protocol_lines lines

  unfoldable pub parse_protocols : Bytes → List Session
  unfolding protocol_lines
  parse_protocols out = protocol_lines (split_lines out)

-- the route of a prefix `10.<n>.0.0/16`
unfoldable pub route_of : Bytes → Bytes → List Route
unfolding trim_prefix cut_suffix atoi
route_of prefix session = elim (cut_prefix prefix (bytes "10.")) [
  | none ↦ []
  | some rest ↦ elim (cut_suffix rest (bytes ".0.0/16")) [
    | none ↦ []
    | some as_text ↦ elim (atoi as_text) [
      | none ↦ []
      | some n ↦ record { prefix_as = n; if_id = trim_prefix session (bytes "[bgp_if") } ∷ []
    ]
  ]
]

unfoldable pub route_line : List Bytes → List Route
unfolding route_of
route_line (prefix ∷ kind ∷ session ∷ rest) =
    if kind == bytes "unicast" && has_prefix session (bytes "[bgp_if")
    then route_of prefix session
    else []
route_line _ = []

unfoldable pub route_lines : List Bytes → List Route
unfolding route_line
route_lines [] = []
route_lines (line ∷ lines) = route_line (fields line) ++ route_lines lines

unfoldable pub parse_routes : Bytes → List Route
unfolding route_lines
parse_routes out = route_lines (split_lines out)

-- one round of the loop of `parseBFD`
unfoldable pub bfd_line : Map Bytes Bytes → Map Bytes Bytes → List Bytes → Map Bytes Bytes
bfd_line if_id_by_dev m (ip ∷ dev ∷ state ∷ rest) = elim (lookup dev if_id_by_dev) [
  | none ↦ m
  | some if_id ↦ insert if_id state m
]
bfd_line if_id_by_dev m _ = m

unfoldable pub bfd_lines : Map Bytes Bytes → Map Bytes Bytes → List Bytes → Map Bytes Bytes
unfolding bfd_line
bfd_lines if_id_by_dev m [] = m
bfd_lines if_id_by_dev m (line ∷ lines) =
    bfd_lines if_id_by_dev (bfd_line if_id_by_dev m (fields line)) lines

unfoldable pub parse_bfd : Bytes → Map Bytes Bytes → Map Bytes Bytes
unfolding bfd_lines
parse_bfd out if_id_by_dev = bfd_lines if_id_by_dev [] (split_lines out)

-- `fetched_at` is none while it is the zero time.
pub record Collector : Type 0 where
  pub if_id_by_dev : Map Bytes Bytes
  pub ttl : ℤ
  pub cached : Snapshot
  pub fetched_at : Option ℤ

unfoldable pub invert : Map Bytes Bytes → Map Bytes Bytes → Map Bytes Bytes
invert table [] = table
invert table ((if_id, dev) ∷ rest) = invert (insert dev if_id table) rest

-- Times are in nanoseconds.
unfoldable pub new : Map Bytes Bytes → Collector
unfolding invert
new dev_by_if_id = record {
  if_id_by_dev = invert [] dev_by_if_id;
  ttl = pos 2000000000;
  cached = record { sessions = []; routes = [] };
  fetched_at = none;
}

-- What the three commands print; none if a command fails.
pub record Outputs : Type 0 where
  pub protocols : Option Bytes
  pub bfd : Option Bytes
  pub routes : Option Bytes

abbrev state_or_empty : Option Bytes → Bytes
state_or_empty none = []
state_or_empty (some state) = state

-- `ss[i].BFD = bfdStates[ss[i].IfID]`
unfoldable pub with_bfd : Map Bytes Bytes → Session → Session
with_bfd states s = record s { bfd = state_or_empty (lookup s.if_id states) }

module _ (parse_time : Bytes → Option ℤ) where
  unfoldable pub joined :
      Map Bytes Bytes → Option Bytes → Option Bytes → Option Bytes → Option Snapshot
  unfolding parse_protocols parse_bfd parse_routes with_bfd
  joined if_id_by_dev (some p) (some b) (some r) =
      let states = parse_bfd b if_id_by_dev in
      some (record {
        sessions = map (with_bfd states) (parse_protocols parse_time p);
        routes = parse_routes r;
      })
  joined if_id_by_dev _ _ _ = none

  -- the snapshot that the outputs give, none if a command fails
  unfoldable pub parsed : Map Bytes Bytes → Outputs → Option Snapshot
  unfolding joined
  parsed if_id_by_dev outputs = joined if_id_by_dev outputs.protocols outputs.bfd outputs.routes

  abbrev pub is_fresh : ℤ → Option ℤ → ℤ → Bool
  is_fresh ttl none now = false
  is_fresh ttl (some t) now = ltb_ℤ (now -ℤ t) ttl

  -- a snapshot that was parsed is cached, at the time `done`
  unfoldable pub stored : Collector → ℤ → Option Snapshot → Collector × Option Snapshot
  stored c done none = (c, none)
  stored c done (some s) = (record c { cached = s; fetched_at = some done }, some s)

  -- `Snapshot`, called at `now`; none is an error
  unfoldable pub snapshot : Collector → ℤ → ℤ → Outputs → Collector × Option Snapshot
  unfolding parsed stored
  snapshot c now done outputs =
      if is_fresh c.ttl c.fetched_at now
      then (c, some c.cached)
      else stored c done (parsed c.if_id_by_dev outputs)
