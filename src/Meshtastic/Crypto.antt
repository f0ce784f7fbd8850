-- ===== src/Meshtastic/Crypto.antt =====
-- Channel keys and the payload cipher, src/meshtastic/crypto.ts. A key is the bytes that
-- Buffer.from(base64Key, "base64") gives and a name its UTF-8 bytes. The cipher of node:crypto is
-- a parameter: `none` where it throws.
pub mod Keys
use hop_watch.Prelude.{
  ℕ, zero, suc, ◌*◌, ◌/◌, ◌%◌, not, ◌||◌, Option, none, some, List, [], ◌∷◌, ◌++◌, ltb, ◌==◌,
  if◌then◌else◌, length,
}
use Prim.Native.Nat.{bit_xor}

-- DEFAULT_KEY.
abbrev pub default_key : List ℕ
default_key =
    212 ∷ 241 ∷ 187 ∷ 58 ∷ 32 ∷ 41 ∷ 7 ∷ 89 ∷ 240 ∷ 188 ∷ 255 ∷ 171 ∷ 207 ∷ 78 ∷ 105 ∷ 1 ∷ []

-- `key[key.length - 1] = b`.
pub set_last : ℕ → List ℕ → List ℕ
set_last b [] = []
set_last b (x ∷ []) = b ∷ []
set_last b (x ∷ y ∷ ys) = x ∷ set_last b (y ∷ ys)

-- `raw.copy(Buffer.alloc(n))`: cut off at n bytes, or filled up with zeros.
pub copy_into : ℕ → List ℕ → List ℕ
copy_into zero raw = []
copy_into (suc n) [] = 0 ∷ copy_into n []
copy_into (suc n) (b ∷ raw) = b ∷ copy_into n raw

unfoldable pub expand_key : List ℕ → Option (List ℕ)
unfolding set_last copy_into
expand_key [] = none
expand_key (idx ∷ []) =
    if idx == 0
    then none
    else some (if not (idx == 1) then set_last idx default_key else default_key)
expand_key (b ∷ c ∷ raw) =
    if length (b ∷ c ∷ raw) == 16 || length (b ∷ c ∷ raw) == 32
    then some (b ∷ c ∷ raw)
    else some (copy_into (if ltb (length (b ∷ c ∷ raw)) 16 then 16 else 32) (b ∷ c ∷ raw))

-- `b.reduce((acc, byte) => acc ^ byte, 0)`, from the accumulator on.
pub xor_fold : ℕ → List ℕ → ℕ
xor_fold acc [] = acc
xor_fold acc (b ∷ bytes) = xor_fold (bit_xor acc b) bytes

-- `& 0xff` is the remainder.
unfoldable pub channel_hash : List ℕ → Option (List ℕ) → ℕ
unfolding xor_fold
channel_hash name none = xor_fold 0 name % 256
channel_hash name (some key) = bit_xor (xor_fold 0 name) (xor_fold 0 key) % 256

-- `writeUInt32LE(n >>> 0)`.
pub le_32 : ℕ → List ℕ
le_32 n = n % 256 ∷ n / 256 % 256 ∷ n / (256 * 256) % 256 ∷ n / (256 * 256 * 256) % 256 ∷ []

unfoldable pub nonce : ℕ → ℕ → List ℕ
unfolding le_32
nonce packet_id from_node = le_32 packet_id ++ (le_32 0 ++ (le_32 from_node ++ le_32 0))

pub data Algo : Type 0 where
  aes_128_ctr aes_256_ctr : Algo

pub algo_of : List ℕ → Algo
algo_of key = if length key == 32 then aes_256_ctr else aes_128_ctr

-- createDecipheriv and createCipheriv, with update and final, over algorithm, key, nonce and bytes.
pub record Cipher : Type 0 where
  pub decipher : Algo → List ℕ → List ℕ → List ℕ → Option (List ℕ)
  pub encipher : Algo → List ℕ → List ℕ → List ℕ → Option (List ℕ)

unfoldable pub decrypt_payload : Cipher → List ℕ → List ℕ → ℕ → ℕ → Option (List ℕ)
unfolding algo_of
decrypt_payload c encrypted key packet_id from_node =
    c.decipher (algo_of key) key (nonce packet_id from_node) encrypted

unfoldable pub encrypt_payload : Cipher → List ℕ → List ℕ → ℕ → ℕ → Option (List ℕ)
unfolding algo_of
encrypt_payload c plain key packet_id from_node =
    c.encipher (algo_of key) key (nonce packet_id from_node) plain
