-- ===== src/Store/Durability.antt =====
-- What survives a restart (shared/persistence/src/filekv.ts).
use nzela.Base.{
  ℕ, ◌≡◌, refl, sym, ap, ◌∙◌, true, false, Option, none, some, List, [], ◌∷◌, String, ◌⊎◌, inl, inr,
  Bool-cases, subst,
}
use nzela.Base.Result.{Result, ok, err, ok_inj, ok_not_err}
use nzela.Dict.{Dict, insert, erase, has}
use nzela.Store.{
  Json, Cipher, LoadError, cannot_decrypt, FileKv, looks_encrypted, parse_object, load_encrypted,
  load_plain, load_text, load, open_store, sealed, flush, kv_set, kv_delete,
}

-- What the store relies on: `JSON.parse` reads what `JSON.stringify` wrote, which is not blank.
pub record JsonLaws {Raw V : Type 0} (json : Json Raw V) : Type 0 where
  pub stringify_read : (m : Dict V) → parse_object json (json.stringify m) ≡ some m
  pub stringify_not_blank : (m : Dict V) → json.is_blank (json.stringify m) ≡ false

-- A ciphertext is an envelope of `JSON`, which its own key opens.
pub record CipherLaws {Raw V : Type 0} (json : Json Raw V) (c : Cipher Raw) : Type 0 where
  pub opened : (n : ℕ) (s : Raw) → c.decrypt (c.encrypt n s) ≡ some s
  pub envelope : (n : ℕ) (s : Raw) → looks_encrypted json (c.encrypt n s) ≡ true
  pub envelope_not_blank : (n : ℕ) (s : Raw) → json.is_blank (c.encrypt n s) ≡ false

-- The laws of the cipher, when there is one.
abbrev CipherOk : {Raw V : Type 0} → Json Raw V → Option (Cipher Raw) → Type 0
CipherOk json none = Unit
CipherOk json (some c) = CipherLaws json c

-- A restart now would load what the store holds.
abbrev IsDurable : {Raw V : Type 0} → Json Raw V → FileKv Raw V → Type 0
IsDurable json kv = load json kv.cipher kv.disk ≡ ok kv.cache

-- An operation of a store, with the random vector of its write.
pub data KvOp (V : Type 0) : Type 0 where
  set_key : ℕ → String → V → KvOp V
  delete_key : ℕ → String → KvOp V

unfoldable pub apply_kv_op : {Raw V : Type 0} → Json Raw V → FileKv Raw V → KvOp V → FileKv Raw V
apply_kv_op json kv (set_key n k v) = kv_set json kv n k v
apply_kv_op json kv (delete_key n k) = kv_delete json kv n k

unfoldable pub apply_kv_ops :
    {Raw V : Type 0} → Json Raw V → FileKv Raw V → List (KvOp V) → FileKv Raw V
apply_kv_ops json kv [] = kv
apply_kv_ops json kv (op ∷ ops) = apply_kv_ops json (apply_kv_op json kv op) ops

load_cases :
    {M : Type 0} (r : Result LoadError M) → ((e : LoadError) × (r ≡ err e)) ⊎ ((m : M) × (r ≡ ok m))
load_cases (ok m) = inr (m, refl)
load_cases (err e) = inl (e, refl)

module _ {Raw V : Type 0} (json : Json Raw V) (laws : JsonLaws json) where
  load-sealed :
      (c : Option (Cipher Raw)) (n : ℕ) (m : Dict V)
      → CipherOk json c
      → load json c (some (sealed json c n (json.stringify m))) ≡ ok m
  unfolding load load_text load_plain load_encrypted sealed
  load-sealed none n m u =
      rw (laws.stringify_not_blank m) (rw (laws.stringify_read m, load_plain) refl)
  load-sealed (some c) n m u =
      let file = json.stringify m in
      rw (u.envelope_not_blank n file, u.envelope n file, load_encrypted, u.opened n file)
        (rw (laws.stringify_read m) refl)

  flush-IsDurable :
      (kv : FileKv Raw V) (n : ℕ) → CipherOk json kv.cipher → IsDurable json (flush json kv n)
  unfolding flush
  flush-IsDurable kv n u = load-sealed kv.cipher n kv.cache u

  open_store-IsDurable :
      (c : Option (Cipher Raw)) (disk : Option Raw) (kv : FileKv Raw V)
      → open_store json c disk ≡ ok kv
      → IsDurable json kv × (kv.cipher ≡ c)
  unfolding open_store
  open_store-IsDurable c disk kv h = elim (load_cases (load json c disk)) [
    | inl e ↦ absurd (ok_not_err (sym (failed e.0 e.1) ∙ h))
    | inr m ↦
        let k = ok_inj (sym (loaded m.0 m.1) ∙ h) in
        (subst (λ s. IsDurable json s) k m.1, sym (ap (λ s. s.cipher) k))
  ]
    where
      failed : (e : LoadError) → load json c disk ≡ err e → open_store json c disk ≡ err e
      failed e q = cc

      loaded :
          (m : Dict V)
          → load json c disk ≡ ok m
          → open_store json c disk ≡ ok (record { cache = m; cipher = c; disk = disk })
      loaded m q = cc

  op-IsDurable :
      (kv : FileKv Raw V) (op : KvOp V)
      → CipherOk json kv.cipher
      → IsDurable json kv
      → IsDurable json (apply_kv_op json kv op) × ((apply_kv_op json kv op).cipher ≡ kv.cipher)
  unfolding apply_kv_op kv_set kv_delete flush
  op-IsDurable kv (set_key n k v) u d =
      (flush-IsDurable (record kv { cache = insert k v kv.cache }) n u, refl)
  op-IsDurable kv (delete_key n k) u d = elim (Bool-cases (has k kv.cache)) [
    | inl e ↦ rw e (flush-IsDurable (record kv { cache = erase k kv.cache }) n u, refl)
    | inr e ↦ rw e (d, refl)
  ]

  ops-IsDurable :
      (ops : List (KvOp V)) (kv : FileKv Raw V)
      → CipherOk json kv.cipher
      → IsDurable json kv
      → IsDurable json (apply_kv_ops json kv ops) × ((apply_kv_ops json kv ops).cipher ≡ kv.cipher)
  unfolding apply_kv_ops
  ops-IsDurable [] kv u d = (d, refl)
  ops-IsDurable (op ∷ ops) kv u d =
      let one = op-IsDurable kv op u d in
      let rest =
        ops-IsDurable ops (apply_kv_op json kv op) (subst (CipherOk json) (sym one.1) u) one.0 in
      (rest.0, rest.1 ∙ one.1)

  reopen : (kv : FileKv Raw V) → IsDurable json kv → open_store json kv.cipher kv.disk ≡ ok kv
  unfolding open_store
  reopen kv d = cc

  -- After any writes and deletions of a store that a file was opened into, the file opens into the
  -- same store: a restart at any point loses nothing, with a key or without. The laws of `JSON` and
  -- of the cipher are assumed.
  pub restart_lem :
      (c : Option (Cipher Raw)) (disk : Option Raw) (kv : FileKv Raw V) (ops : List (KvOp V))
      → CipherOk json c
      → open_store json c disk ≡ ok kv
      → open_store json c (apply_kv_ops json kv ops).disk ≡ ok (apply_kv_ops json kv ops)
  restart_lem c disk kv ops u h =
      let first = open_store-IsDurable c disk kv h in
      let last = ops-IsDurable ops kv (subst (CipherOk json) (sym first.1) u) first.0 in
      let w = apply_kv_ops json kv ops in
      subst (λ x. open_store json x w.disk ≡ ok w) (last.1 ∙ first.1) (reopen w last.0)

module _ {Raw V : Type 0} (json : Json Raw V) (c : Cipher Raw) where
  -- The store writes under the key, and its file is a ciphertext of that key.
  abbrev IsSealed : FileKv Raw V → Type 0
  IsSealed kv = (kv.cipher ≡ some c) × (n : ℕ) × (s : Raw) × (kv.disk ≡ some (c.encrypt n s))

  flush-IsSealed : (kv : FileKv Raw V) (n : ℕ) → kv.cipher ≡ some c → IsSealed (flush json kv n)
  unfolding flush sealed
  flush-IsSealed kv n e = (e, n, json.stringify kv.cache, rw (e, sealed) refl)

  op-IsSealed : (op : KvOp V) (kv : FileKv Raw V) → IsSealed kv → IsSealed (apply_kv_op json kv op)
  unfolding apply_kv_op kv_set kv_delete
  op-IsSealed (set_key n k v) kv h =
      flush-IsSealed (record kv { cache = insert k v kv.cache }) n h.0
  op-IsSealed (delete_key n k) kv h = elim (Bool-cases (has k kv.cache)) [
    | inl e ↦ rw e (flush-IsSealed (record kv { cache = erase k kv.cache }) n h.0)
    | inr e ↦ rw e h
  ]

  ops-IsSealed :
      (ops : List (KvOp V)) (kv : FileKv Raw V) → IsSealed kv → IsSealed (apply_kv_ops json kv ops)
  unfolding apply_kv_ops
  ops-IsSealed [] kv h = h
  ops-IsSealed (op ∷ ops) kv h = ops-IsSealed ops (apply_kv_op json kv op) (op-IsSealed op kv h)

  load-foreign :
      (wrong : Cipher Raw) (m : ℕ) (s : Raw)
      → CipherLaws json c
      → wrong.decrypt (c.encrypt m s) ≡ none
      → load json (some wrong) (some (c.encrypt m s)) ≡ err cannot_decrypt
  unfolding load load_text load_encrypted
  load-foreign wrong m s laws foreign =
      rw (laws.envelope_not_blank m s, laws.envelope m s, load_encrypted, foreign) refl

  -- After a `set` under one key, and any further operations, a restart with a key that decrypts none
  -- of that key's ciphertexts is an error, so a wrong key never gives an empty store, nor another's
  -- entries. A ciphertext is an envelope of `JSON` and not blank.
  pub wrong_key_lem :
      (wrong : Cipher Raw) (kv : FileKv Raw V) (n : ℕ) (key : String) (value : V)
      (ops : List (KvOp V))
      → CipherLaws json c
      → ((m : ℕ) (s : Raw) → wrong.decrypt (c.encrypt m s) ≡ none)
      → kv.cipher ≡ some c
      → open_store json (some wrong) (apply_kv_ops json (kv_set json kv n key value) ops).disk
        ≡ err cannot_decrypt
  unfolding open_store kv_set
  wrong_key_lem wrong kv n key value ops laws foreign e =
      let first = flush-IsSealed (record kv { cache = insert key value kv.cache }) n e in
      let (_, m, s, file) = ops-IsSealed ops (kv_set json kv n key value) first in
      rw (file, open_store, load-foreign wrong m s laws (foreign m s)) refl
