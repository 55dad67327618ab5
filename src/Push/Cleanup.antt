-- ===== src/Push/Cleanup.antt =====
-- `PushData::cleanup_push_profiles` of HES/src/push.cpp.
use mathlib.Core.Option
use atlascode.Prelude.{
  ap, ℕ, ◌-◌, ◌≤◌, ◌≡◌, ◌⊎◌, inl, inr, refl, Bool, false, true, ◌+◌, ◌&&◌, List, [], ◌∷◌, some,
  Bytes, arith, ltb, if◌then◌else◌, Bool-cases, find, bytes_key, bytes_eq,
}
use atlascode.Push.Profiles.{PacketBuffer, PushNodeInfo, clear, clear_block_load, no_blocks}
use atlascode.Push.{PushData}

-- `std::chrono::minutes(2)`
abbrev pub timeout : ℕ
timeout = 120_000_000_000

-- The test of each of the six blocks; a clock that went back gives no age.
abbrev pub is_stale : {T : Type 0} → ℕ → PacketBuffer T → Bool
is_stale now b = ltb 0 b.total_packets_received && ltb timeout (now - b.last_packet_time)

unfoldable pub cleanup_node : ℕ → PushNodeInfo → PushNodeInfo
unfolding clear clear_block_load
cleanup_node now node =
    let ip = node.instantaneous_profile in
    let dlp = node.daily_load_profile in
    let blp = node.block_load_profile in
    let bhp = node.billing_history in
    let on = node.power_on_event in
    let off = node.power_off_event in
    record {
      instantaneous_profile = if is_stale now ip then clear ip else ip;
      daily_load_profile = if is_stale now dlp then clear dlp else dlp;
      block_load_profile = if is_stale now blp then clear_block_load blp else blp;
      billing_history = if is_stale now bhp then clear bhp else bhp;
      power_on_event = if is_stale now on then clear on else on;
      power_off_event = if is_stale now off then clear off else off;
    }

unfoldable pub cleanup_nodes : ℕ → List (Bytes × PushNodeInfo) → List (Bytes × PushNodeInfo)
unfolding cleanup_node
cleanup_nodes now [] = []
cleanup_nodes now ((mac, node) ∷ rest) = (mac, cleanup_node now node) ∷ cleanup_nodes now rest

unfoldable pub cleanup_push_profiles : ℕ → PushData → PushData
unfolding cleanup_nodes
cleanup_push_profiles now st = record st { push_node_info = cleanup_nodes now st.push_node_info }

-- A buffer with no counted packet, or with a last packet that is at most two minutes (in nanoseconds)
-- before now.
abbrev pub IsFresh : {T : Type 0} → ℕ → PacketBuffer T → Type 0
IsFresh now b = (b.total_packets_received ≡ 0) ⊎ (now ≤ b.last_packet_time + 120_000_000_000)

-- A fresh buffer is kept as it is, and one that is not fresh is emptied.
pub data IsSwept {T : Type 0} (now : ℕ) (empty : T) (before after : PacketBuffer T) : Type 0 where
  kept : IsFresh now before → after ≡ before → IsSwept now empty before after
  emptied :
      ¬ (IsFresh now before)
      → after.total_packets_received ≡ 0
      → after.profile_data ≡ empty
      → IsSwept now empty before after

pub record IsClean (now : ℕ) (before after : PushNodeInfo) : Type 0 where
  pub ip : IsSwept now [] before.instantaneous_profile after.instantaneous_profile
  pub dlp : IsSwept now [] before.daily_load_profile after.daily_load_profile
  pub blp : IsSwept now no_blocks before.block_load_profile after.block_load_profile
  pub bhp : IsSwept now [] before.billing_history after.billing_history
  pub on : IsSwept now [] before.power_on_event after.power_on_event
  pub off : IsSwept now [] before.power_off_event after.power_off_event

is_stale-IsFresh :
    {T : Type 0} (now : ℕ) (b : PacketBuffer T) → is_stale now b ≡ false → IsFresh now b
is_stale-IsFresh now b e = elim (Bool-cases (ltb 0 b.total_packets_received)) [
  | inl f ↦ inr (ground arith)
  | inr f ↦ inl (ground arith)
]

is_stale_then_old :
    {T : Type 0} (now : ℕ) (b : PacketBuffer T) → is_stale now b ≡ true → ¬ (IsFresh now b)
is_stale_then_old now b e (inl h) = absurd (ground arith)
is_stale_then_old now b e (inr h) = absurd (ground arith)

module _ {T : Type 0} (now : ℕ) (empty : T) (reset : PacketBuffer T → PacketBuffer T) where
  swept :
      (b : PacketBuffer T)
      → (reset b).total_packets_received ≡ 0
      → (reset b).profile_data ≡ empty
      → IsSwept now empty b (if is_stale now b then reset b else b)
  swept b counted contents = elim (Bool-cases (is_stale now b)) [
    | inl e ↦ rw e (emptied (is_stale_then_old now b e) counted contents)
    | inr e ↦ rw e (kept (is_stale-IsFresh now b e) refl)
  ]

cleanup_node-IsClean : (now : ℕ) (node : PushNodeInfo) → IsClean now node (cleanup_node now node)
unfolding cleanup_node
cleanup_node-IsClean now node = record {
  ip = swept now [] clear node.instantaneous_profile refl refl;
  dlp = swept now [] clear node.daily_load_profile refl refl;
  blp = swept now no_blocks clear_block_load node.block_load_profile refl refl;
  bhp = swept now [] clear node.billing_history refl refl;
  on = swept now [] clear node.power_on_event refl refl;
  off = swept now [] clear node.power_off_event refl refl;
}

find-cleanup_nodes :
    (now : ℕ) (m : List (Bytes × PushNodeInfo)) (mac : Bytes) (node : PushNodeInfo)
    → find m mac ≡ some node
    → find (cleanup_nodes now m) mac ≡ some (cleanup_node now node)
unfolding find cleanup_nodes
find-cleanup_nodes now [] mac node h = absurd (ground arith)
find-cleanup_nodes now ((k, n) ∷ m) mac node h = elim (Bool-cases (bytes_eq k mac)) [
  | inl e ↦ rw e (ap (Option.map (cleanup_node now)) (rw e at h))
  | inr e ↦ rw e (find-cleanup_nodes now m mac node (rw e at h))
]

-- After the cleanup every node is still there. Each of its six buffers with no packet, or whose last
-- packet is at most two minutes old, is unchanged; each other one has no packet and no data left. The
-- database is told nothing.
pub cleanup_push_profiles-IsClean :
    (now : ℕ) (st : PushData) (mac : Bytes) (node : PushNodeInfo)
    → find st.push_node_info mac ≡ some node
    → (after : PushNodeInfo) × (find (cleanup_push_profiles now st).push_node_info mac ≡ some after)
      × IsClean now node after
      × ((cleanup_push_profiles now st).db ≡ st.db)
unfolding cleanup_push_profiles
cleanup_push_profiles-IsClean now st mac node h = (
  cleanup_node now node,
  find-cleanup_nodes now st.push_node_info mac node h,
  cleanup_node-IsClean now node,
  refl,
)
