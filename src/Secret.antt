-- ===== src/Secret.antt =====
-- internal/secret/secret.go: `Seal`, `Open` and `NewFromKey` over an authenticated cipher, and
-- `LoadOrCreateKey` on the variable of the environment and the file beside the database. A password is
-- its bytes; what crypto/rand gives is an argument, and none where it fails.
pub mod Restart
use rcon_ui.Base.{
  ℕ, ◌≡◌, Bool, true, false, Option, none, some, List, [], ◌∷◌, ◌++◌, ltb, leb, if◌then◌else◌,
  length, take, drop, ◌>>=◌,
}

abbrev pub Bytes : Type 0
Bytes = List ℕ

-- `cipher.AEAD` for a key of 32 bytes, of the packages crypto/aes and crypto/cipher.
pub record Aead : Type 0 where
  pub nonce_size : ℕ
  pub encrypt : Bytes → Bytes → Bytes → Bytes
  pub decrypt : Bytes → Bytes → Bytes → Option Bytes

-- What it promises: under the key and the nonce of its encryption a text is decrypted.
pub record IsAead (a : Aead) : Type 0 where
  pub decrypt-encrypt :
      (key nonce plain : Bytes)
      → length nonce ≡ a.nonce_size
      → a.decrypt key nonce (a.encrypt key nonce plain) ≡ some plain

-- The interface `Sealer`; the first argument of `seal` is the nonce that is drawn.
pub record Sealer : Type 0 where
  pub seal : Option Bytes → Bytes → Option Bytes
  pub unseal : Bytes → Option Bytes

-- What a store relies on: without a nonce nothing is sealed, and what is sealed is opened.
pub record IsSealer (s : Sealer) (nonce_size : ℕ) : Type 0 where
  pub seal-none : (plain : Bytes) → s.seal none plain ≡ none
  pub unseal-seal :
      (nonce plain : Bytes)
      → length nonce ≡ nonce_size
      → (s.seal (some nonce) plain >>= s.unseal) ≡ some plain

unfoldable pub seal_with : Aead → Bytes → Option Bytes → Bytes → Option Bytes
seal_with a key none plain = none
seal_with a key (some nonce) plain = some (nonce ++ a.encrypt key nonce plain)

-- None for `ErrCorrupt`.
unfoldable pub unseal_with : Aead → Bytes → Bytes → Option Bytes
unseal_with a key sealed =
    if ltb (length sealed) a.nonce_size
    then none
    else a.decrypt key (take a.nonce_size sealed) (drop a.nonce_size sealed)

-- `digest` is SHA-256.
unfoldable pub new_from_key : Aead → (Bytes → Bytes) → Bytes → Option Sealer
new_from_key a digest [] = none
new_from_key a digest (c ∷ key) =
    some
      (record { seal = seal_with a (digest (c ∷ key)); unseal = unseal_with a (digest (c ∷ key)) })

-- The file `key`: not there, with its content, or not readable.
pub data KeyFile : Type 0 where
  absent : KeyFile
  holds : Bytes → KeyFile
  unreadable : KeyFile

pub record KeyDir : Type 0 where
  pub file : KeyFile
  -- whether the directory and the file can be written
  pub is_writable : Bool

-- `v` is the variable, empty where it is not set; `decode64` is `base64.StdEncoding.DecodeString`.
unfoldable pub env_key : (Bytes → Option Bytes) → Bytes → Bytes
env_key decode64 v = elim (decode64 v) [
  | none ↦ v
  | some decoded ↦ if leb 16 (length decoded) then decoded else v
]

-- The key with whether it came from the environment, none for an error, and the directory after it.
unfoldable pub load_or_create_key :
    (Bytes → Option Bytes) → Bytes → Option Bytes → KeyDir → Option (Bytes × Bool) × KeyDir
load_or_create_key decode64 (c ∷ v) generated d = (some (env_key decode64 (c ∷ v), true), d)
load_or_create_key decode64 [] generated d = elim d.file [
  | holds key ↦ (some (key, false), d)
  | unreadable ↦ (none, d)
  | absent ↦ elim generated [
    | none ↦ (none, d)
    | some key ↦
        if d.is_writable then (some (key, false), record d { file = holds key }) else (none, d)
  ]
]

-- What the programs do at a start: the key, and the sealer of it.
unfoldable pub start_sealer :
    Aead
    → (Bytes → Bytes)
    → (Bytes → Option Bytes)
    → Bytes
    → Option Bytes
    → KeyDir
    → Option Sealer × KeyDir
unfolding load_or_create_key
start_sealer a digest decode64 v generated d =
    let (loaded, d') = load_or_create_key decode64 v generated d in
    (loaded >>= (λ k. new_from_key a digest k.0), d')
