-- ===== src/Library.antt =====
-- Go's standard library as far as the configuration, the detector and the panel client call it: a
-- record of operations that their definitions take as an argument.
use game_server_snooze.Common.{ℕ, String, Bool, Option, List}
use game_server_snooze.Common.Int.{ℤ}

-- A *net.UDPAddr or *net.TCPAddr: its IP in text form, and whether it is there, unspecified, loopback.
pub record Address : Type 0 where
  pub ip : String
  pub has_ip : Bool
  pub is_unspecified : Bool
  pub is_loopback : Bool

-- A *url.URL, with the results of its methods.
pub record Url : Type 0 where
  pub scheme : String
  pub host : String
  pub hostname : String
  pub has_user : Bool
  pub path : String
  pub raw_query : String
  pub fragment : String

-- Answers are none where Go returns an error. `is_loopback_ip` is net.ParseIP followed by
-- IsLoopback, false for the nil IP; `matches_server_id` is the regular expression safeServerID.
pub record Library : Type 0 where
  pub trim_space : String → String
  pub split_commas : String → List String
  pub hex_decode : String → Option (List ℕ)
  pub atoi : String → Option ℤ
  pub parse_duration : String → Option ℤ
  pub resolve_udp : String → Option Address
  pub resolve_tcp : String → Option Address
  pub parse_url : String → Option Url
  pub is_loopback_ip : String → Bool
  pub matches_server_id : String → Bool
  pub join_host_port : String → String → String
