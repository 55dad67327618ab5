-- ===== src/Registry.antt =====
-- The connected clients: `Server::g_clients` of HES/inc/server.h, with `Client::register_client` and
-- `Client::unregister_client` of HES/src/client.cpp. A client is the number of its object; of the objects
-- the two flags are kept that another client writes.
pub mod Lookup
pub mod Reach
use atlascode.Prelude.{
  ℕ, Bool, true, false, List, [], ◌∷◌, Option, none, some, Bytes, ◌==◌, if◌then◌else◌, take, find,
  insert, erase, bytes_key,
}

pub record Registry : Type 0 where
  pub g_clients : List (Bytes × ℕ)
  pub duplicate_gateway : ℕ → Bool
  pub allow_reconnect : ℕ → Bool

abbrev pub no_clients : Registry
no_clients = record { g_clients = []; duplicate_gateway = λ p. false; allow_reconnect = λ p. true }

-- The flags of one client written.
abbrev pub write : (ℕ → Bool) → ℕ → Bool → ℕ → Bool
write flags p b q = if q == p then b else flags q

-- The first 16 bytes of the gateway's id.
abbrev pub key_of : Bytes → Bytes
key_of gateway_id = take 16 gateway_id

unfoldable pub register_client : Bytes → ℕ → Registry → Registry
register_client gateway_id new_client r = elim (find r.g_clients (key_of gateway_id)) [
  | none ↦ record r { g_clients = insert r.g_clients (key_of gateway_id) new_client }
  | some old ↦ record {
    g_clients = insert (erase r.g_clients (key_of gateway_id)) (key_of gateway_id) new_client;
    duplicate_gateway = write r.duplicate_gateway old true;
    allow_reconnect = write r.allow_reconnect old false;
  }
]

unfoldable pub unregister_client : Bytes → ℕ → Registry → Registry
unregister_client gateway_id current_client r = elim (find r.g_clients (key_of gateway_id)) [
  | none ↦ r
  | some p ↦
      if p == current_client
      then record r { g_clients = erase r.g_clients (key_of gateway_id) }
      else r
]
