-- ===== src/Runtime.antt =====
-- Steam/steamclient_legacy/LegacySteamRuntime.h and .cpp: the one state behind `Runtime()`, which
-- every entry point reads and writes under its mutex, its limits and its initial value.
-- Numbers of the unsigned types are kept below their bound by the code that computes them. A
-- `char` array that holds a C string is the list of the bytes before its first NUL.
use revive_emu.Base.{
  ℕ, ◌-◌, ◌*◌, ◌%◌, ◌^◌, Bool, false, List, [], zero, suc, ◌∷◌, bit_xor, ◌==◌, if◌then◌else◌,
}
use revive_emu.Base.Map.{Map}
use revive_emu.Base.Bytes.{u32_mod}
use revive_emu.SteamId.{SteamId, nil, instanced_set}
use revive_emu.SteamId.AccountType
use revive_emu.SteamId.Universe

-- kPipe, kUser and the callback numbers.
abbrev pub the_pipe : ℕ
the_pipe = 1

abbrev pub the_user : ℕ
the_user = 1

abbrev pub callback_servers_connected : ℕ
callback_servers_connected = 101

abbrev pub callback_client_approve : ℕ
callback_client_approve = 201

abbrev pub callback_client_steam2_accept : ℕ
callback_client_steam2_accept = 205

abbrev pub max_steam2_sessions : ℕ
max_steam2_sessions = 256

abbrev pub max_queued_callbacks : ℕ
max_queued_callbacks = 1024

abbrev pub max_callback_payload_bytes : ℕ
max_callback_payload_bytes = 4096

-- ClientLifecycleState (LegacySteamLifecycle.h)
pub data Lifecycle : Type 0 where
  new auth_pending authenticated active disconnecting removed : Lifecycle

-- QueuedCallback
pub record QueuedCallback : Type 0 where
  pub user : ℕ
  pub callback : ℕ
  pub payload : List ℕ
  pub account_id : ℕ
  pub steam_id : ℕ
  pub auth_callback : Bool
  pub generation : ℕ

-- Steam2AuthSession
pub record Session : Type 0 where
  pub steam_id : SteamId
  pub ticket_fingerprint : ℕ
  pub ticket_type : ℕ
  pub generation : ℕ
  pub lifecycle : Lifecycle
  pub identity_bound : Bool

-- MasterKeyValue
pub record KeyValue : Type 0 where
  pub used : Bool
  pub key : List ℕ
  pub value : List ℕ

-- MasterServerState; `heartbeat_interval` is the bit pattern of the `int`.
pub record MasterServerState : Type 0 where
  pub is_active : Bool
  pub heartbeat_interval : ℕ
  pub protocol_version : ℕ
  pub dedicated : Bool
  pub region_name : List ℕ
  pub product_name : List ℕ
  pub max_clients : ℕ
  pub password_protected : Bool
  pub game_description : List ℕ
  pub key_values : List KeyValue
  pub master_servers : List (List ℕ)
  pub master_server_count : ℕ
  pub shutdown_notified : Bool
  pub heartbeat_forced : Bool

-- RuntimeState, without its mutex.
pub record RuntimeState : Type 0 where
  pub callbacks : List QueuedCallback
  pub callback_in_flight : Bool
  pub current_callback_user : ℕ
  pub logged_on : Bool
  pub local_ip : ℕ
  pub local_port : ℕ
  pub steam2_users : Map Session
  pub master_server : MasterServerState
  pub bot_counter : ℕ
  pub next_client_generation : ℕ

-- The constructor `Steam2AuthSession()`.
abbrev pub blank_session : Session
blank_session = record {
  steam_id = nil;
  ticket_fingerprint = 0;
  ticket_type = 0;
  generation = 0;
  lifecycle = new;
  identity_bound = false;
}

abbrev pub replicate {ℓ} : {A : Type ℓ} → ℕ → A → List A
replicate zero a = []
replicate (suc n) a = a ∷ replicate n a

-- The constructor `MasterServerState()`.
abbrev pub initial_master_server : MasterServerState
initial_master_server = record {
  is_active = false;
  heartbeat_interval = 2 ^ 32 - 1;
  protocol_version = 0;
  dedicated = false;
  region_name = [];
  product_name = [];
  max_clients = 0;
  password_protected = false;
  game_description = [];
  key_values = replicate 64 (record { used = false; key = []; value = [] });
  master_servers = replicate 16 [];
  master_server_count = 0;
  shutdown_notified = false;
  heartbeat_forced = false;
}

-- The constructor `RuntimeState()`.
abbrev pub initial_state : RuntimeState
initial_state = record {
  callbacks = [];
  callback_in_flight = false;
  current_callback_user = 0;
  logged_on = false;
  local_ip = 0;
  local_port = 0;
  steam2_users = [];
  master_server = initial_master_server;
  bot_counter = 1;
  next_client_generation = 0;
}

-- `MakeServerID`
unfoldable pub make_server_id : RuntimeState → SteamId
make_server_id s =
    let account = bit_xor (bit_xor s.local_ip (s.local_port * 2 ^ 16 % u32_mod)) 0x52455649 in
    instanced_set (if account == 0 then 0x539 else account) 0 Universe.public
      AccountType.anon_game_server
