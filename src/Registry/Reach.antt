-- ===== src/Registry/Reach.antt =====
-- Who holds a gateway, over logins and logouts.
use atlascode.Prelude.{
  ℕ, ◌≡◌, ◌≢◌, refl, sym, ◌∙◌, inl, inr, true, false, some, Bytes, bytes_eq, bytes_eq_sound,
  bytes_eq_refl, ◌==◌, find, bytes_key, Bool-cases, Option-cases, arith,
}
use atlascode.Registry.{Registry, no_clients, key_of, register_client, unregister_client}
use atlascode.Registry.Lookup.{register-find_self, register-find_other, unregister-find}

-- Sequences of logins of clients that are not connected, and of logouts.
pub data Reachable : Registry → Type 0 where
  start : Reachable no_clients
  login :
      (gateway_id : Bytes) (p : ℕ) (r : Registry)
      → Reachable r
      → r.duplicate_gateway p ≡ false
      → ((k : Bytes) → find r.g_clients k ≢ some p)
      → Reachable (register_client gateway_id p r)
  logout :
      (gateway_id : Bytes) (p : ℕ) (r : Registry)
      → Reachable r
      → Reachable (unregister_client gateway_id p r)

-- A client that holds a gateway is not marked as a duplicate, and holds no other.
pub record IsConsistent (r : Registry) : Type 0 where
  pub live : (k : Bytes) (p : ℕ) → find r.g_clients k ≡ some p → r.duplicate_gateway p ≡ false
  pub injective :
      (k k' : Bytes) (p : ℕ) → find r.g_clients k ≡ some p → find r.g_clients k' ≡ some p → k ≡ k'

differ : (a b : Bytes) → bytes_eq a b ≡ false → a ≢ b
differ a b e z = let same : bytes_eq a b ≡ true = rw z (bytes_eq_refl b) in ground arith

-- A login marks only the client that it displaces.
not_displaced :
    (gateway_id : Bytes) (p : ℕ) (r : Registry) (q : ℕ)
    → r.duplicate_gateway q ≡ false
    → ((old : ℕ) → find r.g_clients (key_of gateway_id) ≡ some old → q ≢ old)
    → (register_client gateway_id p r).duplicate_gateway q ≡ false
unfolding register_client
not_displaced gateway_id p r q clear other =
    elim (Option-cases (find r.g_clients (key_of gateway_id))) [
      | inl f ↦ rw (f, register_client) clear
      | inr (old, f) ↦
          let different = other old f in
          let no : (q == old) ≡ false = ground arith in rw (f, register_client, no) clear
    ]

module _ (gateway_id : Bytes) (p : ℕ) (r : Registry) (h : IsConsistent r)
    (fresh : r.duplicate_gateway p ≡ false)
    (absent : (k : Bytes) → find r.g_clients k ≢ some p) where
  register-live :
      (k : Bytes) (q : ℕ)
      → find (register_client gateway_id p r).g_clients k ≡ some q
      → (register_client gateway_id p r).duplicate_gateway q ≡ false
  register-live k q found = elim (Bool-cases (bytes_eq (key_of gateway_id) k)) [
    | inl e ↦
        let same = bytes_eq_sound (key_of gateway_id) k e in
        let new : find (register_client gateway_id p r).g_clients k ≡ some p =
          rw same at (register-find_self gateway_id p r) in
        let eq : p ≡ q = ground arith in
        not_displaced gateway_id p r q (rw eq at fresh)
          (λ old f. λ z. absent (key_of gateway_id) (ground arith))
    | inr e ↦
        let before : find r.g_clients k ≡ some q =
          sym (register-find_other gateway_id p r k e) ∙ found in
        not_displaced gateway_id p r q (h.live k q before) (λ old f. λ z.
          differ (key_of gateway_id) k e (h.injective (key_of gateway_id) k old f (rw z at before)))
  ]

  register-injective :
      (k k' : Bytes) (q : ℕ)
      → find (register_client gateway_id p r).g_clients k ≡ some q
      → find (register_client gateway_id p r).g_clients k' ≡ some q
      → k ≡ k'
  register-injective k k' q found found' = elim (Bool-cases (bytes_eq (key_of gateway_id) k)) [
    | inl e ↦ elim (Bool-cases (bytes_eq (key_of gateway_id) k')) [
      | inl f ↦
          sym (bytes_eq_sound (key_of gateway_id) k e) ∙ bytes_eq_sound (key_of gateway_id) k' f
      | inr f ↦ absurd (only k k' q e f found found')
    ]
    | inr e ↦ elim (Bool-cases (bytes_eq (key_of gateway_id) k')) [
      | inl f ↦ absurd (only k' k q f e found' found)
      | inr f ↦
          h.injective k k' q (sym (register-find_other gateway_id p r k e) ∙ found)
            (sym (register-find_other gateway_id p r k' f) ∙ found')
    ]
  ]
    where
      only :
          (a b : Bytes) (q : ℕ)
          → bytes_eq (key_of gateway_id) a ≡ true
          → bytes_eq (key_of gateway_id) b ≡ false
          → find (register_client gateway_id p r).g_clients a ≡ some q
          → find (register_client gateway_id p r).g_clients b ≡ some q
          → ⊥
      only a b q e f s t =
          let same = bytes_eq_sound (key_of gateway_id) a e in
          let new : find (register_client gateway_id p r).g_clients a ≡ some p =
            rw same at (register-find_self gateway_id p r) in
          let old : find r.g_clients b ≡ some q =
            sym (register-find_other gateway_id p r b f) ∙ t in
          let none_such = absent b in ground arith

unregister-duplicate :
    (gateway_id : Bytes) (p : ℕ) (r : Registry) (q : ℕ)
    → (unregister_client gateway_id p r).duplicate_gateway q ≡ r.duplicate_gateway q
unfolding unregister_client
unregister-duplicate gateway_id p r q = elim (Option-cases (find r.g_clients (key_of gateway_id))) [
  | inl e ↦ rw (e, unregister_client) refl
  | inr (old, e) ↦ elim (Bool-cases (old == p)) [
    | inl f ↦ rw (e, f, unregister_client) refl
    | inr f ↦ rw (e, f, unregister_client) refl
  ]
]

unregister-IsConsistent :
    (gateway_id : Bytes) (p : ℕ) (r : Registry)
    → IsConsistent r
    → IsConsistent (unregister_client gateway_id p r)
unregister-IsConsistent gateway_id p r h = record {
  live = λ k q found.
      unregister-duplicate gateway_id p r q ∙ h.live k q (unregister-find gateway_id p r k q found);
  injective = λ k k' q s t.
      h.injective k k' q (unregister-find gateway_id p r k q s)
        (unregister-find gateway_id p r k' q t);
}

-- In every sequence of logins of clients that are not connected and of logouts, a client that holds a
-- gateway is not marked as a duplicate and holds one gateway only.
pub Reachable-IsConsistent : (r : Registry) → Reachable r → IsConsistent r
unfolding find
Reachable-IsConsistent r start = record {
  live = λ k p found. refl;
  injective = λ k k' p found found'. absurd (ground arith);
}
Reachable-IsConsistent r (login gateway_id p r' before fresh absent) =
    let h = Reachable-IsConsistent r' before in
    record {
      live = register-live gateway_id p r' h fresh absent;
      injective = register-injective gateway_id p r' h fresh absent;
    }
Reachable-IsConsistent r (logout gateway_id p r' before) =
    unregister-IsConsistent gateway_id p r' (Reachable-IsConsistent r' before)
