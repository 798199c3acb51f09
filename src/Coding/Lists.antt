-- ===== src/Coding/Lists.antt =====
-- The loops that write the elements of a container one after the other, and read as many back.
use bl_nova_lsm.Common.{
  ℕ, zero, suc, ◌≡◌, refl, Option, some, List, [], ◌∷◌, ◌++◌, ◌>>=◌, append_assoc, length, All,
}
use bl_nova_lsm.Coding.{Bytes}

module _ {ℓ} {A : Type ℓ} where
  -- `for (auto &a : as) msg_size += a.Encode(buf + msg_size);`
  unfoldable pub encode_all : (A → Bytes) → List A → Bytes
  encode_all encode [] = []
  encode_all encode (a ∷ as') = encode a ++ encode_all encode as'

  -- `for (i = 0; i < n; i++) { decode one; push it back; }`
  unfoldable pub decode_all : (Bytes → Option (A × Bytes)) → ℕ → Bytes → Option (List A × Bytes)
  decode_all decode zero input = some ([], input)
  decode_all decode (suc n) input = do
    (a, rest) ← decode input
    (as', rest') ← decode_all decode n rest
    some (a ∷ as', rest')

  pub decode_all-encode_all {κ} :
      (encode : A → Bytes) (decode : Bytes → Option (A × Bytes)) (P : A → Type κ)
      → ((a : A) (rest : Bytes) → P a → decode (encode a ++ rest) ≡ some (a, rest))
      → (xs : List A) (rest : Bytes) → All P xs
      → decode_all decode (length xs) (encode_all encode xs ++ rest) ≡ some (xs, rest)
  unfolding encode_all decode_all
  decode_all-encode_all encode decode P back [] rest h = refl
  decode_all-encode_all encode decode P back (x ∷ xs) rest h = rw (
    append_assoc,
    back x (encode_all encode xs ++ rest) h.0,
    decode_all-encode_all encode decode P back xs rest h.1,
  )
