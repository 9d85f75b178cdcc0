-- ===== src/Server.antt =====
-- internal/server/identity.go and the checks of handleRequest in internal/server/client_server.go, up
-- to the call of the store. `net.SplitHostPort` and `strings.TrimSpace` are parameters; a header that
-- is missing is the empty string, as Header.Get gives it. What follows is in Client.
pub mod Admit
pub mod Service
pub mod Client
pub mod Decide
pub mod Limit
pub mod Admin
mod Sample
mod Tests
use rateforge.Base.{
  Bool, true, false, ◌||◌, Option, none, some, List, [], ◌∷◌, if◌then◌else◌, Str, codes, str_eq,
  length, ◌==◌, cut,
}
use rateforge.Base.Int.{ℤ, pos, ltb_ℤ}
use rateforge.Time.{Time}
use rateforge.Security.{validate_api_key, validate_tier}
use rateforge.Store.{AllowRequest}

-- What the handler reads of a request.
pub record HttpRequest : Type 0 where
  pub content_length : ℤ
  pub remote_addr : Str
  pub x_forwarded_for : Str
  pub x_real_ip : Str
  pub x_api_key : Str
  pub x_resource_tier : Str

pub data BadRequest : Type 0 where
  body_not_expected missing_identity invalid_identity invalid_tier : BadRequest

pub data Admission : Type 0 where
  bad_request : BadRequest → Admission
  admitted : AllowRequest → Admission

-- `strings.Split(s, ",")[0]`
unfoldable pub first_part : Str → Str
first_part s = elim (cut b',' s) [ none ↦ s | some (part, rest) ↦ part ]

module _ (split_host_port : Str → Option Str) (trim_space : Str → Str) where
  -- The host of the peer, or its whole address where that does not split.
  unfoldable pub peer_host : HttpRequest → Str
  peer_host r = elim (split_host_port r.remote_addr) [ none ↦ r.remote_addr | some host ↦ host ]

  unfoldable pub source_ip : HttpRequest → Bool → Str
  source_ip r trust_proxy =
      let forwarded = trim_space (first_part r.x_forwarded_for) in
      let direct = peer_host r in
      let real = if length r.x_real_ip == 0 then direct else r.x_real_ip in
      if trust_proxy
      then if length r.x_forwarded_for == 0 || length forwarded == 0 then real else forwarded
      else direct

  unfoldable pub client_identity : HttpRequest → Str → Str → Str × Bool
  client_identity r ip mode =
      let api_key = trim_space r.x_api_key in
      if str_eq mode (codes "ip")
      then (ip, true)
      else if str_eq mode (codes "api_key")
      then (api_key, false)
      else if length api_key == 0
      then (ip, true)
      else (api_key, false)

  -- The checks of handleRequest: what it refuses as a bad request, and what it hands to the store.
  unfoldable pub handle_request : HttpRequest → Bool → Str → Time → Admission
  handle_request r trust_proxy mode now =
      let ip = source_ip r trust_proxy in
      let key = (client_identity r ip mode).0 in
      let tier = r.x_resource_tier in
      if ltb_ℤ (pos 0) r.content_length
      then bad_request body_not_expected
      else if length key == 0
      then bad_request missing_identity
      else elim (validate_api_key key) [
        | some e ↦ bad_request invalid_identity
        | none ↦ elim (validate_tier tier) [
          | some e ↦ bad_request invalid_tier
          | none ↦ admitted (record { client_key = key; source_ip = ip; tier = tier; now = now })
        ]
      ]
