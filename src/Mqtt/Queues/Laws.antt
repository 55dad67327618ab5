-- ===== src/Mqtt/Queues/Laws.antt =====
-- Laws of the queues of `MQTTClient`.
use atlascode.Prelude.{
  ◌≤◌, inl, inr, List, [], ◌∷◌, Bytes, arith, leb, length, drop, Bool-cases, length-append,
  length-drop,
}
use atlascode.Mqtt.Queues.{max_queue_size, push_bounded, is_kept, remove_commands_by_req_id}

-- No queue is longer than its bound.
pub push_bounded-length :
    (q : List Bytes) (cmd : Bytes)
    → length q ≤ max_queue_size
    → length (push_bounded q cmd) ≤ max_queue_size
unfolding push_bounded
push_bounded-length q cmd h = elim (Bool-cases (leb max_queue_size (length q))) [
  | inl e ↦ rw (e, length-append (drop 1 q) (cmd ∷ []), length-drop 1 q) (ground arith)
  | inr e ↦ rw (e, length-append q (cmd ∷ [])) (ground arith)
]

pub remove_commands-length :
    (q ids : List Bytes) → length (remove_commands_by_req_id q ids) ≤ length q
unfolding remove_commands_by_req_id
remove_commands-length [] ids = omega arith
remove_commands-length (cmd ∷ q) ids =
    let ih = remove_commands-length q ids in
    elim (Bool-cases (is_kept ids cmd)) [
      | inl e ↦ rw e (ground arith)
      | inr e ↦ rw e (ground arith)
    ]
