-- ===== src/Auth/Password.antt =====
-- `hash_password` and `verify_password` of auth.py. The key derivation, hexadecimal notation and
-- `int` of a text are arguments.
use Prim.Native.String
use openbotflow.Prelude.{
  ◌≡◌, refl, sym, ap, or_else, is_some, arith, String, Bool, true, false, Option, none, some, List,
  [], ◌∷◌, ◌==◌, string_key, ◌∙◌, if◌then◌else◌, Option-cases, inl, inr,
}
use openbotflow.Prelude.Int.{ℤ, pos}
use openbotflow.Text.{split, Lacks, split-append, split_plain}

-- Bytes are texts of the characters below 256; `none` is a ValueError.
pub record Hashing : Type 0 where
  pub pbkdf2 : (password salt : String) → ℤ → Option String
  pub hex : String → String
  pub fromhex : String → Option String
  pub int : String → Option ℤ

-- The hexadecimal notation of bytes is read back and holds no dollar sign, the key derivation gives
-- bytes, and `int` reads the literal.
pub record IsHashing (h : Hashing) : Type 0 where
  pub is_bytes : String → Bool
  pub read_hex : (bytes : String) → is_bytes bytes ≡ true → h.fromhex (h.hex bytes) ≡ some bytes
  pub plain_hex : (bytes : String) → is_bytes bytes ≡ true → Lacks b'$' (h.hex bytes)
  pub derives_bytes :
      (password salt dk : String) (iters : ℤ)
      → h.pbkdf2 password salt iters ≡ some dk
      → is_bytes dk ≡ true
  pub read_iterations : h.int "600000" ≡ some (pos 600000)

module _ (h : Hashing) where
  abbrev pub archived : (salt : String) → Option String → Option String
  archived salt none = none
  archived salt (some dk) = some (
      String.◌++◌ "pbkdf2_sha256" (
        String.◌++◌ "$" (
          String.◌++◌ "600000"
            (String.◌++◌ "$" (String.◌++◌ (h.hex salt) (String.◌++◌ "$" (h.hex dk)))))))

  -- With the random salt as an argument.
  unfoldable pub hash_password : (salt password : String) → Option String
  hash_password salt password = archived salt (h.pbkdf2 password salt (pos 600000))

  -- secrets.compare_digest(dk, expected), where nothing has been raised
  abbrev pub same_digest : Option String → Option String → Bool
  same_digest (some dk) (some expected) = dk == expected
  same_digest _ _ = false

  abbrev pub derived : String → Option String → Option ℤ → Option String
  derived password (some salt) (some iters) = h.pbkdf2 password salt iters
  derived password _ _ = none

  abbrev pub verify_parts : String → List String → Bool
  verify_parts password (algo ∷ iters ∷ salt_hex ∷ hash_hex ∷ []) =
      if algo == "pbkdf2_sha256"
      then same_digest (derived password (h.fromhex salt_hex) (h.int iters)) (h.fromhex hash_hex)
      else false
  verify_parts password _ = false

  unfoldable pub verify_password : (password stored : String) → Bool
  unfolding split
  verify_password password stored = verify_parts password (split b'$' stored)

  module _ (laws : IsHashing h) where
    split_iterations :
        (salt dk : String)
        → laws.is_bytes salt ≡ true
        → laws.is_bytes dk ≡ true
        → split b'$' (
            String.◌++◌ "600000"
              (String.◌++◌ "$" (String.◌++◌ (h.hex salt) (String.◌++◌ "$" (h.hex dk)))))
          ≡ "600000" ∷ h.hex salt ∷ h.hex dk ∷ []
    split_iterations salt dk bs bd =
        split-append b'$' "600000" "$" (String.◌++◌ (h.hex salt) (String.◌++◌ "$" (h.hex dk))) refl
          (ground arith)
        ∙ ap (λ parts. "600000" ∷ parts)
            (split-append b'$' (h.hex salt) "$" (h.hex dk) refl (laws.plain_hex salt bs)
              ∙ ap (λ parts. h.hex salt ∷ parts)
                  (split_plain b'$' (h.hex dk) (laws.plain_hex dk bd)))

    split-archived :
        (salt dk : String)
        → laws.is_bytes salt ≡ true
        → laws.is_bytes dk ≡ true
        → split b'$' (or_else (archived salt (some dk)) "")
          ≡ "pbkdf2_sha256" ∷ "600000" ∷ h.hex salt ∷ h.hex dk ∷ []
    split-archived salt dk bs bd =
        split-append b'$' "pbkdf2_sha256" "$"
          (String.◌++◌ "600000"
            (String.◌++◌ "$" (String.◌++◌ (h.hex salt) (String.◌++◌ "$" (h.hex dk)))))
          refl (ground arith)
        ∙ ap (λ parts. "pbkdf2_sha256" ∷ parts) (split_iterations salt dk bs bd)

    verify_archived :
        (password salt stored dk : String)
        → laws.is_bytes salt ≡ true
        → laws.is_bytes dk ≡ true
        → archived salt (some dk) ≡ some stored
        → verify_password password stored
          ≡ same_digest (h.pbkdf2 password salt (pos 600000)) (some dk)
    unfolding verify_password
    verify_archived password salt stored dk bs bd e =
        let parts =
          ap (split b'$') (ap (λ o. or_else o "") (sym e)) ∙ split-archived salt dk bs bd in
        rw parts (rw (laws.read_hex salt bs, laws.read_hex dk bd, laws.read_iterations) refl)

    -- Where hexadecimal notation is read back without dollar signs: of a password that was archived
    -- with a salt of bytes, `verify_password` accepts exactly the passwords that the key derivation
    -- takes to the same bytes with that salt, the password itself among them.
    pub verify_password-hash_password :
        (password other salt stored : String)
        → laws.is_bytes salt ≡ true
        → hash_password salt password ≡ some stored
        → (verify_password other stored
            ≡ same_digest (h.pbkdf2 other salt (pos 600000)) (h.pbkdf2 password salt (pos 600000)))
          × (verify_password password stored ≡ true)
    unfolding hash_password
    verify_password-hash_password password other salt stored bs e =
        elim (Option-cases (h.pbkdf2 password salt (pos 600000))) [
          | inl failed ↦
              let off : false ≡ true = ap is_some (sym (ap (archived salt) failed) ∙ e) in cc
          | inr (dk, derived_key) ↦
              let kept = sym (ap (archived salt) derived_key) ∙ e in
              let bd = laws.derives_bytes password salt dk (pos 600000) derived_key in
              (
                verify_archived other salt stored dk bs bd kept
                    ∙ ap (same_digest (h.pbkdf2 other salt (pos 600000))) (sym derived_key),
                verify_archived password salt stored dk bs bd kept
                    ∙ ap (λ o. same_digest o (some dk)) derived_key
                    ∙ (string_key.same_iff dk dk).1 refl,
              )
        ]
