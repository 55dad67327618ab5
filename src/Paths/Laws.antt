-- ===== src/Paths/Laws.antt =====
-- What the exchanges of a node's paths, HES/src/client.cpp, keep: the paths that it has.
use mathlib.Core.Path.{subst⁻¹}
use atlascode.Prelude.{
  ℕ, zero, suc, ◌≡◌, ap, ◌∙◌, Bool, true, false, ◌⊎◌, inl, inr, List, [], ◌∷◌, ◌++◌, some,
  if◌then◌else◌, get_elem?, bytes_eq_sound, Bool-cases, arith, ==_iff,
}
use atlascode.Prelude.Signed.{ℤ, pos, negsuc, eq_ℤ}
use atlascode.Link.Transmit.{PathInfo}
use atlascode.Paths.{NodePaths, same_path, others, exchange, remove_at, promote}

-- Is the path one of the list?
abbrev pub Among : PathInfo → List PathInfo → Type 0
Among p [] = ⊥
Among p (x ∷ xs) = (p ≡ x) ⊎ Among p xs

-- The paths of a node, the primary one first.
abbrev pub all_paths : NodePaths → List PathInfo
all_paths node = node.primary_path ∷ node.alternate_paths

abbrev pub Within : List PathInfo → List PathInfo → Type 0
Within xs ys = (p : PathInfo) → Among p xs → Among p ys

-- No path is lost and none appears.
pub record SamePaths (m n : NodePaths) : Type 0 where
  pub kept : Within (all_paths m) (all_paths n)
  pub known : Within (all_paths n) (all_paths m)

pub SamePaths-refl : (n : NodePaths) → SamePaths n n
SamePaths-refl n = record { kept = λ p h. h; known = λ p h. h }

pub SamePaths-trans : {l m n : NodePaths} → SamePaths l m → SamePaths m n → SamePaths l n
SamePaths-trans r s = record {
  kept = λ p h. s.kept p (r.kept p h);
  known = λ p h. r.known p (s.known p h);
}

eq_ℤ_sound : (x y : ℤ) → eq_ℤ x y ≡ true → x ≡ y
eq_ℤ_sound (pos a) (pos b) h = ap pos ((==_iff a b).0 h)
eq_ℤ_sound (pos a) (negsuc b) h = ground arith
eq_ℤ_sound (negsuc a) (pos b) h = ground arith
eq_ℤ_sound (negsuc a) (negsuc b) h = ap negsuc ((==_iff a b).0 h)

pub same_path_sound : (x y : PathInfo) → same_path x y ≡ true → x ≡ y
unfolding same_path
same_path_sound x y h =
    ground (arith, eq_ℤ_sound x.hop_count y.hop_count, bytes_eq_sound x.path y.path)

others-Within : (alt : PathInfo) (xs : List PathInfo) → Within (others alt xs) xs
unfolding others same_path
others-Within alt [] p h = h
others-Within alt (x ∷ xs) p h = by (same_path x alt) (others-Within alt xs p) h
  where
    by :
        (b : Bool)
        → (Among p (others alt xs) → Among p xs)
        → Among p (if b then others alt xs else x ∷ others alt xs)
        → (p ≡ x) ⊎ Among p xs
    by true rest h = inr (rest h)
    by false rest (inl e) = inl e
    by false rest (inr h) = inr (rest h)

skip :
    (alt x : PathInfo) (xs : List PathInfo) (p : PathInfo)
    → Among p (alt ∷ xs)
    → Among p (alt ∷ x ∷ xs)
skip alt x xs p (inl e) = inl e
skip alt x xs p (inr h) = inr (inr h)

others-all : (alt : PathInfo) (xs : List PathInfo) → Within xs (alt ∷ others alt xs)
unfolding others
others-all alt [] p h = elim h [ ]
others-all alt (x ∷ xs) p (inl e) = elim (Bool-cases (same_path x alt)) [
  | inl s ↦ rw (s, others) (inl (e ∙ same_path_sound x alt s))
  | inr s ↦ rw (s, others) (inr (inl e))
]
others-all alt (x ∷ xs) p (inr h) =
    let rest = others-all alt xs p h in
    elim (Bool-cases (same_path x alt)) [
      | inl s ↦ rw (s, others) rest
      | inr s ↦ rw (s, others) (skip alt x (others alt xs) p rest)
    ]

Within-append : (xs : List PathInfo) (y : PathInfo) → Within (xs ++ y ∷ []) (y ∷ xs)
Within-append [] y p h = h
Within-append (x ∷ xs) y p (inl e) = inr (inl e)
Within-append (x ∷ xs) y p (inr h) = skip y x xs p (Within-append xs y p h)

append-Within : (xs : List PathInfo) (y : PathInfo) → Within (y ∷ xs) (xs ++ y ∷ [])
append-Within [] y p h = h
append-Within (x ∷ xs) y p (inl e) = inr (append-Within xs y p (inl e))
append-Within (x ∷ xs) y p (inr (inl e)) = inl e
append-Within (x ∷ xs) y p (inr (inr h)) = inr (append-Within xs y p (inr h))

Among-subst : {p q : PathInfo} → p ≡ q → (xs : List PathInfo) → Among q xs → Among p xs
Among-subst e xs h = subst⁻¹ (λ p. Among p xs) e h

pub exchange-SamePaths :
    (alt : PathInfo) (node : NodePaths)
    → Among alt node.alternate_paths
    → SamePaths node (exchange alt node)
unfolding exchange
exchange-SamePaths alt node a = record { kept = kept; known = known }
  where
    kept : Within (all_paths node) (alt ∷ node.primary_path ∷ others alt node.alternate_paths)
    kept p (inl e) = inr (inl e)
    kept p (inr h) =
        skip alt node.primary_path (others alt node.alternate_paths) p
          (others-all alt node.alternate_paths p h)

    known : Within (alt ∷ node.primary_path ∷ others alt node.alternate_paths) (all_paths node)
    known p (inl e) = inr (Among-subst e node.alternate_paths a)
    known p (inr (inl e)) = inl e
    known p (inr (inr h)) = inr (others-Within alt node.alternate_paths p h)

pub get_elem?-Among :
    (i : ℕ) (alt : PathInfo) (xs : List PathInfo) → get_elem? xs i ≡ some alt → Among alt xs
get_elem?-Among i alt [] e = absurd (ground arith)
get_elem?-Among zero alt (x ∷ xs) e = inl (ground arith)
get_elem?-Among (suc i) alt (x ∷ xs) e = inr (get_elem?-Among i alt xs e)

remove_at-Within : (i : ℕ) (xs : List PathInfo) → Within (remove_at i xs) xs
remove_at-Within i [] p h = h
remove_at-Within zero (x ∷ xs) p h = inr h
remove_at-Within (suc i) (x ∷ xs) p (inl e) = inl e
remove_at-Within (suc i) (x ∷ xs) p (inr h) = inr (remove_at-Within i xs p h)

remove_at-all :
    (i : ℕ) (alt : PathInfo) (xs : List PathInfo)
    → get_elem? xs i ≡ some alt
    → Within xs (alt ∷ remove_at i xs)
remove_at-all i alt [] e p h = elim h [ ]
remove_at-all zero alt (x ∷ xs) e p (inl d) = inl (ground arith)
remove_at-all zero alt (x ∷ xs) e p (inr h) = inr h
remove_at-all (suc i) alt (x ∷ xs) e p (inl d) = inr (inl d)
remove_at-all (suc i) alt (x ∷ xs) e p (inr h) =
    skip alt x (remove_at i xs) p (remove_at-all i alt xs e p h)

pub promote-SamePaths :
    (i : ℕ) (alt : PathInfo) (node : NodePaths)
    → get_elem? node.alternate_paths i ≡ some alt
    → SamePaths node (promote i alt node)
unfolding promote
promote-SamePaths i alt node e = record { kept = kept; known = known }
  where
    old : PathInfo
    old = node.primary_path

    rest : List PathInfo
    rest = remove_at i node.alternate_paths

    kept : Within (all_paths node) (alt ∷ rest ++ old ∷ [])
    kept p (inl d) = inr (append-Within rest old p (inl d))
    kept p (inr h) = elim (remove_at-all i alt node.alternate_paths e p h) [
      | inl d ↦ inl d
      | inr k ↦ inr (append-Within rest old p (inr k))
    ]

    known : Within (alt ∷ rest ++ old ∷ []) (all_paths node)
    known p (inl d) =
        inr (Among-subst d node.alternate_paths (get_elem?-Among i alt node.alternate_paths e))
    known p (inr h) = elim (Within-append rest old p h) [
      | inl d ↦ inl d
      | inr k ↦ inr (remove_at-Within i node.alternate_paths p k)
    ]
