-- ===== src/Registry/Lookup.antt =====
-- What a lookup of a gateway finds after a login or a logout.
use atlascode.Prelude.{
  ℕ, ◌≡◌, ◌≢◌, refl, sym, ◌∙◌, inl, inr, true, false, List, none, some, Bytes, bytes_eq,
  bytes_eq_sound, ◌==◌, ==_refl, find, erase, find-insert_self, find-insert_other, find-erase_self,
  find-erase_other, bytes_key, Bool-cases, Option-cases, arith,
}
use atlascode.Registry.{Registry, key_of, register_client, unregister_client}

-- What a lookup finds after a login.
pub register-find_self :
    (gateway_id : Bytes) (p : ℕ) (r : Registry)
    → find (register_client gateway_id p r).g_clients (key_of gateway_id) ≡ some p
unfolding register_client
register-find_self gateway_id p r = elim (Option-cases (find r.g_clients (key_of gateway_id))) [
  | inl e ↦ rw (e, register_client) (find-insert_self r.g_clients (key_of gateway_id) p)
  | inr (old, e) ↦
      rw (e, register_client)
        (find-insert_self (erase r.g_clients (key_of gateway_id)) (key_of gateway_id) p)
]

pub register-find_other :
    (gateway_id : Bytes) (p : ℕ) (r : Registry) (k : Bytes)
    → bytes_eq (key_of gateway_id) k ≡ false
    → find (register_client gateway_id p r).g_clients k ≡ find r.g_clients k
unfolding register_client
register-find_other gateway_id p r k h =
    elim (Option-cases (find r.g_clients (key_of gateway_id))) [
      | inl e ↦ rw (e, register_client) (find-insert_other r.g_clients (key_of gateway_id) k p h)
      | inr (old, e) ↦
          rw (e, register_client)
            (find-insert_other (erase r.g_clients (key_of gateway_id)) (key_of gateway_id) k p h
              ∙ find-erase_other r.g_clients (key_of gateway_id) k h)
    ]

erase-find :
    (m : List (Bytes × ℕ)) (a k : Bytes) (q : ℕ) → find (erase m a) k ≡ some q → find m k ≡ some q
erase-find m a k q h = elim (Bool-cases (bytes_eq a k)) [
  | inl e ↦
      let same = bytes_eq_sound a k e in
      let gone : find (erase m k) k ≡ none = find-erase_self m k in
      absurd (ground (arith, rw same at h))
  | inr e ↦ sym (find-erase_other m a k e) ∙ h
]

-- A logout finds at most what was found before.
pub unregister-find :
    (gateway_id : Bytes) (p : ℕ) (r : Registry) (k : Bytes) (q : ℕ)
    → find (unregister_client gateway_id p r).g_clients k ≡ some q
    → find r.g_clients k ≡ some q
unfolding unregister_client
unregister-find gateway_id p r k q h = elim (Option-cases (find r.g_clients (key_of gateway_id))) [
  | inl e ↦ rw (e, unregister_client) at h
  | inr (old, e) ↦ elim (Bool-cases (old == p)) [
    | inl f ↦ erase-find r.g_clients (key_of gateway_id) k q (rw (e, f, unregister_client) at h)
    | inr f ↦ rw (e, f, unregister_client) at h
  ]
]

-- The logout of one client takes no gateway from another.
unregister-find_kept :
    (gateway_id : Bytes) (q : ℕ) (r : Registry) (k : Bytes) (p : ℕ)
    → q ≢ p
    → find r.g_clients k ≡ some p
    → find (unregister_client gateway_id q r).g_clients k ≡ some p
unfolding unregister_client
unregister-find_kept gateway_id q r k p h found =
    elim (Option-cases (find r.g_clients (key_of gateway_id))) [
      | inl e ↦ rw (e, unregister_client) found
      | inr (old, e) ↦ elim (Bool-cases (old == q)) [
        | inr f ↦ rw (e, f, unregister_client) found
        | inl f ↦ elim (Bool-cases (bytes_eq (key_of gateway_id) k)) [
          | inl g ↦
              let same = bytes_eq_sound (key_of gateway_id) k g in
              let both : find r.g_clients k ≡ some old = rw same at e in absurd (ground arith)
          | inr g ↦
              rw (e, f, unregister_client)
                (find-erase_other r.g_clients (key_of gateway_id) k g ∙ found)
        ]
      ]
    ]

-- After a login, the logout of any other client, under whichever id, leaves the gateway with the
-- client that logged in.
pub unregister-register :
    (gateway_id other_id : Bytes) (p q : ℕ) (r : Registry)
    → q ≢ p
    → find
        (unregister_client other_id q (register_client gateway_id p r)).g_clients
        (key_of gateway_id)
      ≡ some p
unregister-register gateway_id other_id p q r h =
    unregister-find_kept other_id q (register_client gateway_id p r) (key_of gateway_id) p h
      (register-find_self gateway_id p r)

displaced :
    (gateway_id : Bytes) (p : ℕ) (r : Registry) (old : ℕ)
    → find r.g_clients (key_of gateway_id) ≡ some old
    → (register_client gateway_id p r).duplicate_gateway old ≡ true
unfolding register_client
displaced gateway_id p r old held = rw (held, register_client, ==_refl old) refl

-- A client that registers for the gateway that it holds marks itself as a duplicate, and still holds
-- the gateway.
pub register_client_again :
    (gateway_id : Bytes) (p : ℕ) (r : Registry)
    → find r.g_clients (key_of gateway_id) ≡ some p
    → ((register_client gateway_id p r).duplicate_gateway p ≡ true)
      × (find (register_client gateway_id p r).g_clients (key_of gateway_id) ≡ some p)
register_client_again gateway_id p r held =
    (displaced gateway_id p r p held, register-find_self gateway_id p r)
