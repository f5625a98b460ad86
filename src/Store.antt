-- ===== src/Store.antt =====
-- The key-value store on a file (shared/persistence/src/filekv.ts, crypto.ts). The file system is
-- the file's contents, when it is there; `JSON`, its text and AES-GCM are parameters, the random
-- vector of an encryption an argument of the write. A key that names a member of
-- `Object.prototype` is left out, and so is the order that `Object.keys` gives integer keys.
pub mod Durability
pub mod Orders
pub mod Wallet
use nzela.Base.{
  ℕ, Bool, true, false, ◌&&◌, Option, none, some, List, [], map, String, or_else, if◌then◌else◌,
}
use nzela.Base.Result.{Result, ok, err}
use nzela.Dict.{Dict, lookup, insert, erase, has}

-- What the store uses of `JSON` and of a file's text, for values of type `V`.
pub record Json (Raw V : Type 0) : Type 1 where
  pub Value : Type 0
  pub is_blank : Raw → Bool
  pub json_parse : Raw → Option Value
  pub as_object : Value → Option (Dict V)
  pub is_envelope : Value → Bool
  pub stringify : Dict V → Raw

-- `Cipher`: the number stands for the random vector; `none` is an error thrown.
pub record Cipher (Raw : Type 0) : Type 0 where
  pub encrypt : ℕ → Raw → Raw
  pub decrypt : Raw → Option Raw

-- What throws on a load.
pub data LoadError : Type 0 where
  cannot_decrypt not_json : LoadError

pub record FileKv (Raw V : Type 0) : Type 0 where
  pub cache : Dict V
  pub cipher : Option (Cipher Raw)
  pub disk : Option Raw

module _ {Raw V : Type 0} (json : Json Raw V) where
  unfoldable pub looks_encrypted : Raw → Bool
  looks_encrypted raw = elim (json.json_parse raw) [ none ↦ false | some x ↦ json.is_envelope x ]

  unfoldable pub parse_object : Raw → Option (Dict V)
  parse_object s = elim (json.json_parse s) [
    | none ↦ none
    | some x ↦ some (or_else (json.as_object x) [])
  ]

  -- The file of a cipher: an error is thrown, never replaced by an empty store.
  unfoldable pub load_encrypted : Cipher Raw → Raw → Result LoadError (Dict V)
  load_encrypted c raw = elim (c.decrypt raw) [
    | none ↦ err cannot_decrypt
    | some plain ↦ elim (parse_object plain) [ none ↦ err not_json | some m ↦ ok m ]
  ]

  unfoldable pub load_plain : Raw → Result LoadError (Dict V)
  load_plain raw = ok (or_else (parse_object raw) [])

  unfoldable pub load_text : Option (Cipher Raw) → Raw → Result LoadError (Dict V)
  load_text none raw = load_plain raw
  load_text (some c) raw = if looks_encrypted raw then load_encrypted c raw else load_plain raw

  unfoldable pub load : Option (Cipher Raw) → Option Raw → Result LoadError (Dict V)
  load cipher none = ok []
  load cipher (some raw) = if json.is_blank raw then ok [] else load_text cipher raw

  -- The constructor of `FileKV`.
  unfoldable pub open_store : Option (Cipher Raw) → Option Raw → Result LoadError (FileKv Raw V)
  open_store cipher disk = elim (load cipher disk) [
    | err e ↦ err e
    | ok m ↦ ok (record { cache = m; cipher = cipher; disk = disk })
  ]

  unfoldable pub sealed : Option (Cipher Raw) → ℕ → Raw → Raw
  sealed none nonce plain = plain
  sealed (some c) nonce plain = c.encrypt nonce plain

  unfoldable pub flush : FileKv Raw V → ℕ → FileKv Raw V
  flush kv nonce = record kv { disk = some (sealed kv.cipher nonce (json.stringify kv.cache)) }

  unfoldable pub kv_set : FileKv Raw V → ℕ → String → V → FileKv Raw V
  kv_set kv nonce key value = flush (record kv { cache = insert key value kv.cache }) nonce

  unfoldable pub kv_delete : FileKv Raw V → ℕ → String → FileKv Raw V
  kv_delete kv nonce key =
      if has key kv.cache then flush (record kv { cache = erase key kv.cache }) nonce else kv

module _ {Raw V : Type 0} where
  unfoldable pub kv_get : FileKv Raw V → String → Option V
  kv_get kv key = lookup key kv.cache

  unfoldable pub kv_has : FileKv Raw V → String → Bool
  kv_has kv key = has key kv.cache

  unfoldable pub kv_keys : FileKv Raw V → List String
  kv_keys kv = map (λ e. e.0) kv.cache
