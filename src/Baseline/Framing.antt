-- ===== src/Baseline/Framing.antt =====
-- src/baseline/record.rs: the bytes that `digest` hashes determine what they frame.
use gitveil.Base.{
  ℕ, zero, suc, ◌/◌, ◌%◌, ◌^◌, ◌<◌, ◌≡◌, refl, sym, ◌∙◌, List, [], ◌∷◌, ◌++◌, arith, length,
  length-append, append_assoc, append-nil, ◌≢◌, ◌⊎◌, inl, inr, list_eq, nat_eq, ◌==◌, Bool-cases,
  eq_iff,
}
use gitveil.Baseline.{Digests, low_bytes, be_bytes, with_length, frame, digest}

cancel :
    (xs ys zs ws : List ℕ) → length xs ≡ length ys → xs ++ zs ≡ ys ++ ws → (xs ≡ ys) × (zs ≡ ws)
cancel [] [] zs ws l h = (refl, h)
cancel (x ∷ xs) (y ∷ ys) zs ws l h = ground (arith, cancel xs ys zs ws (omega (arith, l)))
cancel [] (y ∷ ys) zs ws l h = absurd (omega (arith, l))
cancel (x ∷ xs) [] zs ws l h = absurd (omega (arith, l))

length-low_bytes : (k n : ℕ) → length (low_bytes k n) ≡ k
unfolding low_bytes
length-low_bytes zero n = refl
length-low_bytes (suc k) n =
    rw (length-append (low_bytes k (n / 256)) ((n % 256) ∷ []), length-low_bytes k (n / 256))
      (omega arith)

low_bytes_injective :
    (k m n : ℕ) → m < 256 ^ k → n < 256 ^ k → low_bytes k m ≡ low_bytes k n → m ≡ n
unfolding low_bytes
low_bytes_injective zero m n a b h = omega (arith, a, b)
low_bytes_injective (suc k) m n a b h =
    let (high, low) =
      cancel (low_bytes k (m / 256)) (low_bytes k (n / 256)) _ _
        (length-low_bytes k (m / 256) ∙ sym (length-low_bytes k (n / 256))) h in
    let ih : m / 256 ≡ n / 256 =
      low_bytes_injective k (m / 256) (n / 256) (omega (arith, a)) (omega (arith, b)) high in
    let last : m % 256 ≡ n % 256 = cc in omega (arith, ih, last)

-- A field that fits in memory.
abbrev pub IsSized : List ℕ → Type 0
IsSized field = length field < 18446744073709551616

field-cancel :
    (x y zs ws : List ℕ)
    → IsSized x
    → IsSized y
    → with_length x ++ zs ≡ with_length y ++ ws
    → (x ≡ y) × (zs ≡ ws)
unfolding with_length be_bytes
field-cancel x y zs ws a b h =
    let (front, rest) =
      cancel (low_bytes 8 (length x)) (low_bytes 8 (length y)) (x ++ zs) (y ++ ws)
        (length-low_bytes 8 (length x) ∙ sym (length-low_bytes 8 (length y)))
        (sym (append_assoc (low_bytes 8 (length x)) x zs)
          ∙ h
          ∙ append_assoc (low_bytes 8 (length y)) y ws) in
    cancel x y zs ws (low_bytes_injective 8 (length x) (length y) a b front) rest

prefix-cancel : (p zs ws : List ℕ) → p ++ zs ≡ p ++ ws → zs ≡ ws
prefix-cancel p zs ws h = (cancel p p zs ws refl h).1

-- The same salt, name and body.
abbrev pub SameFields : List ℕ → List ℕ → List ℕ → List ℕ → List ℕ → List ℕ → Type 0
SameFields salt name body salt' name' body' = (salt ≡ salt') × (name ≡ name') × (body ≡ body')

-- Within one domain, fields of fewer than 2 ^ 64 bytes are framed without ambiguity: equal bytes
-- come from equal salts, names and bodies.
pub frame_injective :
    (domain salt name body salt' name' body' : List ℕ)
    → IsSized salt
    → IsSized salt'
    → IsSized name
    → IsSized name'
    → IsSized body
    → IsSized body'
    → frame domain salt name body ≡ frame domain salt' name' body'
    → SameFields salt name body salt' name' body'
unfolding frame
frame_injective domain salt name body salt' name' body' a a' b b' c c' h =
    let (same_salt, after) =
      field-cancel salt salt' (with_length name ++ with_length body)
        (with_length name' ++ with_length body') a a'
        (prefix-cancel domain (with_length salt ++ (with_length name ++ with_length body))
          (with_length salt' ++ (with_length name' ++ with_length body')) h) in
    let (same_name, last) =
      field-cancel name name' (with_length body) (with_length body') b b' after in
    let (same_body, _) =
      field-cancel body body' [] [] c c'
        (append-nil (with_length body) ∙ last ∙ sym (append-nil (with_length body'))) in
    (same_salt, same_name, same_body)

-- Two different inputs with one hash.
abbrev pub Collision : Digests → Type 0
Collision crates = (x y : List ℕ) × (x ≢ y) × (crates.sha256 x ≡ crates.sha256 y)

-- With a hexadecimal writer that loses nothing, equal digests of one domain come from equal
-- fields, or exhibit two inputs with the same hash.
pub digest_injective :
    (crates : Digests)
    → ((xs ys : List ℕ)
        → crates.hex_encode (crates.sha256 xs) ≡ crates.hex_encode (crates.sha256 ys)
        → crates.sha256 xs ≡ crates.sha256 ys)
    → (domain salt name body salt' name' body' : List ℕ) → IsSized salt
    → IsSized salt'
    → IsSized name
    → IsSized name'
    → IsSized body
    → IsSized body'
    → digest crates domain salt name body ≡ digest crates domain salt' name' body'
    → SameFields salt name body salt' name' body' ⊎ Collision crates
unfolding digest
digest_injective crates hex domain salt name body salt' name' body' a a' b b' c c' h =
    let x = frame domain salt name body in
    let y = frame domain salt' name' body' in
    elim (Bool-cases (x == y)) [
      | inl same ↦ inl (
          frame_injective domain salt name body salt' name' body' a a' b b' c c'
            ((eq_iff x y).0 same))
      | inr other ↦ inr (x, y, (λ same. ground (arith, eq_iff x y)), hex x y h)
    ]
