-- ===== src/Start.antt =====
-- How the program starts: reload.js with its arguments, and `run`, `checkOverlay`, `startServices` and
-- `initBootstrap` of Core/peer.js, with `init` and `start` of Topology/DefaultTopologyPlugin.js. The
-- parser of XML is a parameter, and the bodies of downloads are what the sockets give.
pub mod Fetched
use reloadjs.Base.{
  ℕ, Bool, true, false, List, [], ◌∷◌, ◌++◌, Option, none, some, if◌then◌else◌, Text, same,
}
use reloadjs.Node.{Node, Peer}
use reloadjs.Bootstrap.{Address, Bootstrap, peer_list, connect}
use reloadjs.Config.Elements.{Root}
use reloadjs.Config.Overlay.{Outside, Answer, Loading, threw, parse_config, starts_services}

-- A network interface, with its addresses: whether it is one of IPv4, and its text.
pub record Interface : Type 0 where
  pub name : Text
  pub addresses : List (Bool × Text)

unfoldable pub ipv4_addresses : List (Bool × Text) → List Text
ipv4_addresses [] = []
ipv4_addresses ((ipv4, address) ∷ rest) =
    let later = ipv4_addresses rest in if ipv4 then address ∷ later else later

-- What the end of reload.js does: it lists the addresses of all interfaces, or it starts the peer
-- for each address of the interface, as a `return` in `forEach` ends one round only.
pub data Launch : Type 0 where
  listed : List (Text × Text) → Launch
  ran : List Text → Launch

unfoldable pub runs : Text → List Interface → List Text
unfolding ipv4_addresses
runs name [] = []
runs name (i ∷ is) = (if same i.name name then ipv4_addresses i.addresses else []) ++ runs name is

unfoldable pub with_name : Text → List Text → List (Text × Text)
with_name name [] = []
with_name name (a ∷ as') = (name, a) ∷ with_name name as'

unfoldable pub all_addresses : List Interface → List (Text × Text)
unfolding with_name ipv4_addresses
all_addresses [] = []
all_addresses (i ∷ is) = with_name i.name (ipv4_addresses i.addresses) ++ all_addresses is

unfoldable pub launch : Option Text → List Interface → Launch
unfolding runs all_addresses
launch none interfaces = listed (all_addresses interfaces)
launch (some name) interfaces =
    if same name [] then listed (all_addresses interfaces) else ran (runs name interfaces)

-- The configuration of the user; `none` is one without the object `enroll`.
pub record UserConf : Type 0 where
  pub force_local : Bool
  pub enable_http : Option Bool

-- The two requests for the configuration of the overlay, what they have given, and the objects with
-- which `checkOverlay` was called; `none` is one without a root. `crashed` is an exception of these
-- callbacks themselves: what `checkOverlay` does with an object is `check_overlay`.
pub record Fetch : Type 0 where
  pub https : Bool
  pub https_data : Text
  pub http : Bool
  pub http_data : Text
  pub checks : List (Option Root)
  pub crashed : Bool

-- `run`, for the local file.
unfoldable pub run : (Text → Option Root) → UserConf → Text → Fetch
run parse conf file =
    if conf.force_local
    then record {
      https = false;
      https_data = [];
      http = false;
      http_data = [];
      checks = parse file ∷ [];
      crashed = false;
    }
    else record {
      https = true;
      https_data = [];
      http = false;
      http_data = [];
      checks = [];
      crashed = false;
    }

-- A callback of the requests.
pub data FetchEvent : Type 0 where
  https_chunk http_chunk : Text → FetchEvent
  https_end http_end https_error http_error : FetchEvent
  http_status : ℕ → FetchEvent

-- The callback of an error over HTTPS.
unfoldable pub retry_http : Option Bool → Fetch → Fetch
retry_http none s = record s { crashed = true }
retry_http (some true) s = record s { http = true; http_data = [] }
retry_http (some false) s = s

-- A file without a root is only reported.
unfoldable pub check_http : Option Root → Fetch → Fetch
check_http none s = s
check_http (some root) s = record s { checks = s.checks ++ some root ∷ [] }

unfoldable pub on_fetch : (Text → Option Root) → UserConf → FetchEvent → Fetch → Fetch
unfolding retry_http check_http
on_fetch parse conf (https_chunk chunk) s = record s { https_data = s.https_data ++ chunk }
on_fetch parse conf https_end s = record s { checks = s.checks ++ parse s.https_data ∷ [] }
on_fetch parse conf https_error s = retry_http conf.enable_http s
on_fetch parse conf (http_chunk chunk) s = record s { http_data = s.http_data ++ chunk }
on_fetch parse conf http_end s = check_http (parse s.http_data) s
on_fetch parse conf (http_status code) s = s
on_fetch parse conf http_error s = s

-- `checkOverlay`: the parsing, and whether the services start behind it.
unfoldable pub parse_object : Outside → Option Text → Answer → Option Root → Loading
unfolding parse_config
parse_object out overlay_name answer none = threw
parse_object out overlay_name answer (some root) = parse_config out overlay_name answer root

unfoldable pub check_overlay : Outside → Option Text → Answer → Option Root → Bool
unfolding parse_object starts_services
check_overlay out overlay_name answer object =
    starts_services (parse_object out overlay_name answer object)

-- The arguments of the program.
pub record Arguments : Type 0 where
  pub first : Bool
  pub client : Bool
  pub use_cache : Bool
  pub port : Option ℕ

-- What has started: the port of the listener, whether it serves TURN, the fields of the bootstrap
-- object, its calls of peers, and the state of the peer.
pub record Started : Type 0 where
  pub port : ℕ
  pub serves_turn : Bool
  pub is_client : Bool
  pub candidates : List (Option Address)
  pub connecting : Option Bootstrap
  pub node : Node

-- The state behind `setGlobals`, the constructors and `init`, for the cache and the certificate on
-- disk. `modeClient` and `clientMode` are globals that nothing sets.
unfoldable pub first_node : Text → Bool → List Peer → List (Text × Text) → Node
first_node local user_mode_client cache key_store = record {
  local = local;
  joined = false;
  topology_joined = false;
  is_overlay_initiator = false;
  topology_initiator = false;
  mode_client = false;
  client_mode = false;
  user_mode_client = user_mode_client;
  ap = none;
  table = record {
    rtable = [];
    learned_from = [];
    ftable = [];
    update_received = [];
    leaved_nodes = [];
    predecessors = [];
    successors = [];
    finger_successors = [];
  };
  connections = [];
  pending_ping = [];
  update_after_connection = [];
  pending_requests = [];
  cache = cache;
  key_store = key_store;
  done = [];
}

-- The port of the arguments, or else the one of the configuration of the user.
unfoldable pub listener_port : Option ℕ → ℕ → ℕ
listener_port none conf_port = conf_port
listener_port (some port) conf_port = port

-- `startServices`, for the lists of bootstrap peers of the configuration and of the cache, and the
-- state of the peer.
unfoldable pub start_services :
    Arguments → ℕ → Bool → List (Option Address) → List (Option Address) → Node → Started
unfolding listener_port peer_list connect
start_services args conf_port exists nodes cached node = record {
  port = listener_port args.port conf_port;
  serves_turn = args.first;
  is_client = args.client;
  candidates = peer_list exists args.use_cache nodes cached;
  connecting =
      if args.first then none else some (connect (peer_list exists args.use_cache nodes cached));
  node = record node { is_overlay_initiator = args.first; topology_initiator = args.first };
}
