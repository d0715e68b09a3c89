-- ===== src/Provider/Config.antt =====
-- `ProviderConfig` and `ProviderStats` of src/provider/config.rs. A `String` is the list of its bytes.
use rtp_sip_module.Prelude.{
  ℕ, Bool, true, false, ◌||◌, Option, none, some, List, [], ◌∷◌, ◌++◌, if◌then◌else◌, ◌==◌, length,
  max,
}
use rtp_sip_module.Prelude.Text.{strip_prefix, decimal}

-- `Transport`
pub data Transport : Type 0 where
  udp tcp tls web_socket : Transport

-- `Transport::as_str`: "udp", "tcp", "tls", "ws"
unfoldable pub as_str : Transport → List ℕ
as_str Transport.udp = 117 ∷ 100 ∷ 112 ∷ []
as_str Transport.tcp = 116 ∷ 99 ∷ 112 ∷ []
as_str Transport.tls = 116 ∷ 108 ∷ 115 ∷ []
as_str Transport.web_socket = 119 ∷ 115 ∷ []

-- `Transport::default_port`
unfoldable pub default_port : Transport → ℕ
default_port Transport.udp = 5060
default_port Transport.tcp = 5060
default_port Transport.tls = 5061
default_port Transport.web_socket = 80

-- `ProviderConfig`
pub record ProviderConfig : Type 0 where
  pub id : List ℕ
  pub name : List ℕ
  pub sip_server : List ℕ
  pub sip_port : ℕ
  pub transport : Transport
  pub username : List ℕ
  pub password : List ℕ
  pub realm : Option (List ℕ)
  pub from_domain : Option (List ℕ)
  pub prefixes : List (List ℕ)
  pub priority : ℕ
  pub max_concurrent : Option ℕ
  pub register : Bool
  pub register_interval : ℕ
  pub outbound_proxy : Option (List ℕ)

-- `ProviderConfig::new`, with the defaults
unfoldable pub new : List ℕ → List ℕ → List ℕ → List ℕ → ProviderConfig
new id sip_server username password = record {
  id = id;
  name = id;
  sip_server = sip_server;
  sip_port = 5060;
  transport = Transport.udp;
  username = username;
  password = password;
  realm = none;
  from_domain = none;
  prefixes = [];
  priority = 1;
  max_concurrent = none;
  register = false;
  register_interval = 300;
  outbound_proxy = none;
}

-- `with_prefixes`, `with_priority`, `with_register` and `with_transport`
unfoldable pub with_prefixes : ProviderConfig → List (List ℕ) → ProviderConfig
with_prefixes p prefixes = record p { prefixes = prefixes }

unfoldable pub with_priority : ProviderConfig → ℕ → ProviderConfig
with_priority p priority = record p { priority = priority }

unfoldable pub with_register : ProviderConfig → Bool → ProviderConfig
with_register p register = record p { register = register }

unfoldable pub with_transport : ProviderConfig → Transport → ProviderConfig
unfolding default_port
with_transport p transport = record p {
  transport = transport;
  sip_port = if p.sip_port == 5060 then default_port transport else p.sip_port;
}

-- `sip_uri`: "sips:" for TLS and "sip:" for the others, and a port that is not the default one
unfoldable pub scheme : Transport → List ℕ
scheme Transport.tls = 115 ∷ 105 ∷ 112 ∷ 115 ∷ []
scheme _ = 115 ∷ 105 ∷ 112 ∷ []

unfoldable pub sip_uri : ProviderConfig → List ℕ
unfolding default_port scheme
sip_uri p =
    if p.sip_port == default_port p.transport
    then scheme p.transport ++ (58 ∷ p.sip_server)
    else scheme p.transport ++ (58 ∷ p.sip_server ++ (58 ∷ decimal p.sip_port))

-- `starts_with`
unfoldable pub starts_with : List ℕ → List ℕ → Bool
starts_with destination prefix = elim (strip_prefix prefix destination) [
  | none ↦ false
  | some _ ↦ true
]

-- `matches`
unfoldable pub any_prefix : List (List ℕ) → List ℕ → Bool
unfolding starts_with
any_prefix [] destination = false
any_prefix (prefix ∷ prefixes) destination =
    starts_with destination prefix || any_prefix prefixes destination

unfoldable pub matches : ProviderConfig → List ℕ → Bool
unfolding any_prefix
matches p destination = elim p.prefixes [
  | [] ↦ true
  | prefix ∷ prefixes ↦ any_prefix (prefix ∷ prefixes) destination
]

-- `match_length`
unfoldable pub longest : List (List ℕ) → List ℕ → ℕ
unfolding starts_with
longest [] destination = 0
longest (prefix ∷ prefixes) destination =
    let rest = longest prefixes destination in
    if starts_with destination prefix then max (length prefix) rest else rest

unfoldable pub match_length : ProviderConfig → List ℕ → ℕ
unfolding longest
match_length p destination = longest p.prefixes destination

-- `ProviderStats`
pub record ProviderStats : Type 0 where
  pub active_calls : ℕ
  pub total_calls : ℕ
  pub failed_calls : ℕ
  pub registered : Bool
  pub last_error : Option (List ℕ)

-- `ProviderStats::default`
unfoldable pub default_stats : ProviderStats
default_stats = record {
  active_calls = 0;
  total_calls = 0;
  failed_calls = 0;
  registered = false;
  last_error = none;
}
