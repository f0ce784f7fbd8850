-- ===== src/Meshtastic/Crypto/Keys.antt =====
-- The lengths of expanded keys, src/meshtastic/crypto.ts, expandKey.
use hop_watch.Prelude.{
  ℕ, zero, suc, ◌≡◌, refl, ap, subst, inl, inr, Bool, true, false, not, ◌||◌, Option, none, some,
  List, [], ◌∷◌, arith, ltb, ◌==◌, if◌then◌else◌, ==_iff, Bool-cases, if-cases, length,
}
use hop_watch.Meshtastic.Crypto.{
  expand_key, copy_into, set_last, Algo, algo_of, aes_128_ctr, aes_256_ctr,
}

length-copy_into : (n : ℕ) (raw : List ℕ) → length (copy_into n raw) ≡ n
unfolding copy_into
length-copy_into zero raw = refl
length-copy_into (suc n) [] = omega (arith, length-copy_into n [])
length-copy_into (suc n) (b ∷ raw) = omega (arith, length-copy_into n raw)

-- What the cipher wants of a key.
abbrev pub key_bytes : Algo → ℕ
key_bytes aes_128_ctr = 16
key_bytes aes_256_ctr = 32

abbrev Fits : List ℕ → Type 0
Fits key = length key ≡ key_bytes (algo_of key)

sized_16 : (key : List ℕ) → length key ≡ 16 → Fits key
unfolding algo_of
sized_16 key e = rw (e) refl

sized_32 : (key : List ℕ) → length key ≡ 32 → Fits key
unfolding algo_of
sized_32 key e = rw (e) refl

Fits-if : (b : Bool) (x y : List ℕ) → Fits x → Fits y → Fits (if b then x else y)
Fits-if true x y f g = f
Fits-if false x y f g = g

Fits-copied : (b : Bool) (raw : List ℕ) → Fits (copy_into (if b then 16 else 32) raw)
Fits-copied true raw = sized_16 _ (length-copy_into 16 raw)
Fits-copied false raw = sized_32 _ (length-copy_into 32 raw)

-- What an expansion may be: no key, or one that fits.
abbrev FitsAny : Option (List ℕ) → Type 0
FitsAny o = (key : List ℕ) → o ≡ some key → Fits key

FitsAny-none : FitsAny none
FitsAny-none key e = absurd (cc)

FitsAny-some : (x : List ℕ) → Fits x → FitsAny (some x)
FitsAny-some x f key e =
    subst Fits (ap (λ (o : Option (List ℕ)). elim o [ none ↦ x | some y ↦ y ]) e) f

expand_key-FitsAny : (raw : List ℕ) → FitsAny (expand_key raw)
unfolding expand_key set_last
expand_key-FitsAny [] = FitsAny-none
expand_key-FitsAny (idx ∷ []) =
    if-cases FitsAny (idx == 0) (λ _. FitsAny-none)
      (λ _. FitsAny-some _ (Fits-if (not (idx == 1)) _ _ (sized_16 _ refl) (sized_16 _ refl)))
expand_key-FitsAny (b ∷ c ∷ raw) =
    if-cases FitsAny (length (b ∷ c ∷ raw) == 16 || length (b ∷ c ∷ raw) == 32)
      (λ h. FitsAny-some _ (verbatim (b ∷ c ∷ raw) h))
      (λ _. FitsAny-some _ (Fits-copied (ltb (length (b ∷ c ∷ raw)) 16) (b ∷ c ∷ raw)))
  where
    verbatim : (key : List ℕ) → (length key == 16 || length key == 32) ≡ true → Fits key
    verbatim key h = elim (Bool-cases (length key == 16)) [
      | inl e ↦ sized_16 key ((==_iff (length key) 16).0 e)
      | inr e ↦
          sized_32 key
            ((==_iff (length key) 32).0 (subst (λ b. (b || length key == 32) ≡ true) e h))
    ]

-- Whatever bytes a configured key decodes to, the key that is made of them has the length of the
-- algorithm that the cipher calls then choose by it: 16 bytes for AES-128, 32 for AES-256.
pub expand_key-fits :
    (raw key : List ℕ) → expand_key raw ≡ some key → length key ≡ key_bytes (algo_of key)
expand_key-fits raw key e = expand_key-FitsAny raw key e
